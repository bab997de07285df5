-- ===== src/TestsGrading.antt =====
-- A concrete run of src/grading/grading.scorer.ts, and the witness of what is proved of it.
use secure_store_backend.Prelude.{
  ℕ, zero, suc, ◌+◌, ◌≡◌, refl, text_eq, codes, true, false, Option, none, some, [], ◌∷◌, leb, ◌⊎◌,
}
use secure_store_backend.Service.{done, failed}
use secure_store_backend.Service.Rows.{Each, find_where, any_where}
use secure_store_backend.Grading.{
  Measures, ScoreInput, ScoreResult, grade, rejected, unknown_parameters, score_sample,
  score_checked, missing, extra, value_of, assigned, first_grade, count_all, result_of,
  total_defective,
}
use secure_store_backend.Grading.Worst.{SomeOf, IsWithin, score_sample_worst}

abbrev wholes : Measures ℕ
wholes = record { at_most = leb; plus = λ a b. a + b; none_at_all = 0 }

-- the thresholds of two grades
abbrev two : ℕ → ℕ → ℕ → Option ℕ
two a b zero = some a
two a b (suc zero) = some b
two a b (suc (suc n)) = none

abbrev sample : ScoreInput ℕ
sample = record {
  parameters =
      record { name = codes "Moisture"; is_defective = false; thresholds = two 10 14 }
      ∷ record { name = codes "Broken"; is_defective = true; thresholds = two 3 5 }
      ∷ [];
  measurements = (codes "Moisture", 12) ∷ (codes "Broken", 2) ∷ [];
  number_of_grades = 2;
}

abbrev second_grade : ScoreResult ℕ
second_grade = record {
  computed_grade = grade 1;
  total_defective = 2;
  standard_deduction = 0;
  per_parameter =
      record { name = codes "Moisture"; value = some 12; grade = some 1 }
      ∷ record { name = codes "Broken"; value = some 2; grade = some 0 }
      ∷ [];
  failing_parameters = [];
}

sample_scored : score_sample wholes sample ≡ done second_grade
unfolding score_sample score_checked missing extra value_of assigned first_grade count_all result_of
    total_defective find_where any_where text_eq
sample_scored = refl

-- A measurement of no parameter is refused.
extra_refused :
    score_sample wholes
      (record { parameters = []; measurements = (codes "Dust", 1) ∷ []; number_of_grades = 2 })
    ≡ failed (unknown_parameters (codes "Dust" ∷ []))
unfolding score_sample score_checked missing extra any_where
extra_refused = refl

score_sample_worst_example :
    (grade 1 ≡ rejected → SomeOf (λ p. assigned wholes sample p ≡ none) sample.parameters)
    × ((g : ℕ)
        → grade 1 ≡ grade g
        → Each (IsWithin wholes sample g) sample.parameters
          × ((g ≡ 0) ⊎ SomeOf (λ p. assigned wholes sample p ≡ some g) sample.parameters))
score_sample_worst_example = score_sample_worst wholes sample second_grade sample_scored
