-- ===== src/Grading.antt =====
-- The scorer of src/grading/grading.scorer.ts. The measured values are JavaScript numbers, a type `N` whose
-- operations are a parameter (Measures). Grades are numbered from 0, the best; the thresholds of a
-- parameter are read only at the label of a grade, so they are a function of its number.
pub mod Worst
use secure_store_backend.Prelude.{
  ℕ, zero, suc, ◌+◌, Text, text_eq, codes, Bool, true, false, not, ◌&&◌, ◌||◌, Option, none, some,
  List, [], ◌∷◌, ◌++◌, ltb, if◌then◌else◌,
}
use secure_store_backend.Service.{Outcome, done, failed}
use secure_store_backend.Service.Rows.{find_where, any_where}

pub record Measures (N : Type 0) : Type 0 where
  pub at_most : N → N → Bool
  pub plus : N → N → N
  pub none_at_all : N

pub record GradingParameter (N : Type 0) : Type 0 where
  pub name : Text
  pub is_defective : Bool
  pub thresholds : ℕ → Option N

pub record ScoreInput (N : Type 0) : Type 0 where
  pub parameters : List (GradingParameter N)
  pub measurements : List (Text × N)
  pub number_of_grades : ℕ

-- `no_label` is the label of a grade that is not among those of the commodity, which is undefined.
pub data Grade : Type 0 where
  grade : ℕ → Grade
  rejected no_label : Grade

pub record ParameterResult (N : Type 0) : Type 0 where
  pub name : Text
  pub value : Option N
  pub grade : Option ℕ

pub record ScoreResult (N : Type 0) : Type 0 where
  pub computed_grade : Grade
  pub total_defective : N
  pub standard_deduction : N
  pub per_parameter : List (ParameterResult N)
  pub failing_parameters : List Text

-- the names of the error's message
pub data ScoreError : Type 0 where
  missing_measurements unknown_parameters : List Text → ScoreError

unfoldable pub value_of : {N : Type 0} → Text → List (Text × N) → Option N
value_of name [] = none
value_of name (m ∷ ms) = if text_eq m.0 name then some m.1 else value_of name ms

abbrev has_value : {N : Type 0} → Option N → Bool
has_value none = false
has_value (some v) = true

-- the names of the parameters that were not measured
unfoldable pub missing : {N : Type 0} → List (Text × N) → List (GradingParameter N) → List Text
unfolding value_of
missing ms [] = []
missing ms (p ∷ ps) =
    let rest = missing ms ps in if has_value (value_of p.name ms) then rest else p.name ∷ rest

-- the names of the measurements that are of no parameter
unfoldable pub extra : {N : Type 0} → List (GradingParameter N) → List (Text × N) → List Text
extra ps [] = []
extra ps (m ∷ ms) =
    let rest = extra ps ms in if any_where (λ p. text_eq p.name m.0) ps then rest else m.0 ∷ rest

-- the threshold is there, and the value is within it
abbrev pub meets : {N : Type 0} → Measures N → N → Option N → Bool
meets M value none = false
meets M value (some threshold) = M.at_most value threshold

-- the first of the grades from `i` on, `left` of them, whose threshold the value is within
unfoldable pub first_grade :
    {N : Type 0} → Measures N → N → (ℕ → Option N) → (i left : ℕ) → Option ℕ
first_grade M value thresholds i zero = none
first_grade M value thresholds i (suc left) =
    let rest = first_grade M value thresholds (i + 1) left in
    if meets M value (thresholds i) then some i else rest

-- the grade of a parameter
unfoldable pub assigned : {N : Type 0} → Measures N → ScoreInput N → GradingParameter N → Option ℕ
assigned M input p = elim (value_of p.name input.measurements) [
  | none ↦ none
  | some value ↦ first_grade M value p.thresholds 0 input.number_of_grades
]

-- what the loop keeps
pub record Tally (N : Type 0) : Type 0 where
  pub worst : ℕ
  pub failing : List Text
  pub results : List (ParameterResult N)

-- one pass of the loop, for a parameter with its grade
abbrev pub count_one : {N : Type 0} → GradingParameter N → Option N → Option ℕ → Tally N → Tally N
count_one p value none t = record {
  worst = t.worst;
  failing = t.failing ++ p.name ∷ [];
  results = t.results ++ record { name = p.name; value = value; grade = none } ∷ [];
}
count_one p value (some i) t = record {
  worst = if ltb t.worst i then i else t.worst;
  failing = t.failing;
  results = t.results ++ record { name = p.name; value = value; grade = some i } ∷ [];
}

unfoldable pub count_all :
    {N : Type 0} → Measures N → ScoreInput N → List (GradingParameter N) → Tally N → Tally N
count_all M input [] t = t
count_all M input (p ∷ ps) t =
    count_all M input ps (count_one p (value_of p.name input.measurements) (assigned M input p) t)

abbrev or_zero : {N : Type 0} → Measures N → Option N → N
or_zero M none = M.none_at_all
or_zero M (some v) = v

unfoldable pub total_defective :
    {N : Type 0} → Measures N → List (Text × N) → List (GradingParameter N) → N → N
total_defective M ms [] sum = sum
total_defective M ms (p ∷ ps) sum =
    total_defective M ms ps
      (if p.is_defective then M.plus sum (or_zero M (value_of p.name ms)) else sum)

abbrev deduction_at : {N : Type 0} → Measures N → Option (GradingParameter N) → Grade → N
deduction_at M none g = M.none_at_all
deduction_at M (some p) (grade i) = or_zero M (p.thresholds i)
deduction_at M (some p) _ = M.none_at_all

abbrev label : ℕ → ℕ → Grade
label number_of_grades i = if ltb i number_of_grades then grade i else no_label

-- the result, by what the loop has counted
unfoldable pub result_of :
    {N : Type 0} → Measures N → ScoreInput N → (failing : List Text) → Tally N → ScoreResult N
unfolding total_defective
result_of M input [] t = record {
  computed_grade = label input.number_of_grades t.worst;
  total_defective = total_defective M input.measurements input.parameters M.none_at_all;
  standard_deduction =
      deduction_at M
        (find_where (λ p. text_eq p.name (codes "Standard Deduction")) input.parameters)
        (label input.number_of_grades t.worst);
  per_parameter = t.results;
  failing_parameters = [];
}
result_of M input (f ∷ fs) t = record {
  computed_grade = rejected;
  total_defective = M.none_at_all;
  standard_deduction = M.none_at_all;
  per_parameter = t.results;
  failing_parameters = f ∷ fs;
}

abbrev pub start : {N : Type 0} → Tally N
start = record { worst = 0; failing = []; results = [] }

-- the two checks of the names, by what is missing and what is too much
unfoldable pub score_checked :
    {N : Type 0}
    → Measures N
    → ScoreInput N
    → (missing extra : List Text) → Outcome ScoreError (ScoreResult N)
unfolding count_all result_of
score_checked M input (m ∷ ms) extra = failed (missing_measurements (m ∷ ms))
score_checked M input [] (e ∷ es) = failed (unknown_parameters (e ∷ es))
score_checked M input [] [] =
    let t = count_all M input input.parameters start in done (result_of M input t.failing t)

-- `scoreSample`
unfoldable pub score_sample :
    {N : Type 0} → Measures N → ScoreInput N → Outcome ScoreError (ScoreResult N)
unfolding score_checked
score_sample M input =
    score_checked M input (missing input.measurements input.parameters)
      (extra input.parameters input.measurements)
