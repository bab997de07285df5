-- ===== src/Grading/Worst.antt =====
-- The grade that src/grading/grading.scorer.ts computes is the worst of those of the parameters.
use secure_store_backend.Prelude.{
  ℕ, ◌≤◌, Bool-cases, ◌≡◌, refl, sym, ap, ◌∙◌, Text, Option, none, some, List, [], ◌∷◌, ◌++◌, ltb,
  arith, ◌⊎◌, inl, inr, if◌then◌else◌,
}
use mathlib.Core.Path.{subst}
use secure_store_backend.Service.{done}
use secure_store_backend.Service.Rows.{Each}
use secure_store_backend.Grading.{
  Measures, GradingParameter, ScoreInput, ScoreResult, grade, rejected, no_label, Tally, value_of,
  assigned, count_one, count_all, result_of, score_checked, score_sample, start,
}

-- some element has the property
abbrev pub SomeOf : {A : Type 0} → (A → Type 0) → List A → Type 0
SomeOf P [] = ⊥
SomeOf P (x ∷ xs) = P x ⊎ SomeOf P xs

append_full : (xs : List Text) (x : Text) → xs ++ x ∷ [] ≡ [] → ⊥
append_full [] x h = cc
append_full (y ∷ ys) x h = cc

module _ {N : Type 0} (M : Measures N) (input : ScoreInput N) where
  -- The parameter has a grade that is no worse.
  abbrev pub IsWithin : ℕ → GradingParameter N → Type 0
  IsWithin g p = (i : ℕ) × ((assigned M input p ≡ some i) × (i ≤ g))

  -- What the loop has found when no parameter failed.
  record IsTallied (ps : List (GradingParameter N)) (t : Tally N) (worst : ℕ) : Type 0 where
    clean : t.failing ≡ []
    within : Each (IsWithin worst) ps
    above : t.worst ≤ worst
    attained : (worst ≡ t.worst) ⊎ SomeOf (λ p. assigned M input p ≡ some worst) ps

  raised : (a b i : ℕ) → (if ltb a i then i else a) ≤ b → (a ≤ b) × (i ≤ b)
  raised a b i h = (ground (arith, h), ground (arith, h))

  count_one-IsTallied :
      (p : GradingParameter N) (ps : List (GradingParameter N)) (t : Tally N) (v : Option N)
      (o : Option ℕ) (worst : ℕ)
      → assigned M input p ≡ o
      → IsTallied ps (count_one p v o t) worst
      → IsTallied (p ∷ ps) t worst
  count_one-IsTallied p ps t v none worst e h = absurd (append_full t.failing p.name h.clean)
  count_one-IsTallied p ps t v (some i) worst e h =
      let both = raised t.worst worst i h.above in
      record {
        clean = h.clean;
        within = ((i, (e, both.1)), h.within);
        above = both.0;
        attained = elim h.attained [
          | inr later ↦ inr (inr later)
          | inl same ↦ elim (Bool-cases (ltb t.worst i)) [
            | inl more ↦ inr (inl (e ∙ ap some (sym (rw more at same))))
            | inr less ↦ inl (rw less at same)
          ]
        ];
      }

  count_all-IsTallied :
      (ps : List (GradingParameter N)) (t : Tally N)
      → (count_all M input ps t).failing ≡ []
      → IsTallied ps t (count_all M input ps t).worst
  unfolding count_all
  count_all-IsTallied [] t h = record {
    clean = h;
    within = tt;
    above = omega arith;
    attained = inl refl;
  }
  count_all-IsTallied (p ∷ ps) t h =
      count_one-IsTallied p ps t (value_of p.name input.measurements) (assigned M input p) _ refl
        (count_all-IsTallied ps _ h)

  one_failed :
      (p : GradingParameter N) (ps : List (GradingParameter N)) (t : Tally N) (v : Option N)
      (o : Option ℕ)
      → assigned M input p ≡ o
      → ((count_one p v o t).failing ≡ [] → SomeOf (λ q. assigned M input q ≡ none) ps)
      → t.failing ≡ []
      → SomeOf (λ q. assigned M input q ≡ none) (p ∷ ps)
  one_failed p ps t v none e h clean = inl e
  one_failed p ps t v (some i) e h clean = inr (h clean)

  -- A name in the list of those that fail comes from a parameter without a grade.
  some_failed :
      (ps : List (GradingParameter N)) (t : Tally N) (f : Text) (fs : List Text)
      → (count_all M input ps t).failing ≡ f ∷ fs
      → t.failing ≡ []
      → SomeOf (λ q. assigned M input q ≡ none) ps
  unfolding count_all
  some_failed [] t f fs h clean = cc
  some_failed (p ∷ ps) t f fs h clean =
      one_failed p ps t (value_of p.name input.measurements) (assigned M input p) refl
        (some_failed ps _ f fs h) clean

  -- What is shown of the result.
  record IsScored (r : ScoreResult N) : Type 0 where
    rejection :
        r.computed_grade ≡ rejected → SomeOf (λ p. assigned M input p ≡ none) input.parameters
    worst :
        (g : ℕ)
        → r.computed_grade ≡ grade g
        → Each (IsWithin g) input.parameters
          × ((g ≡ 0) ⊎ SomeOf (λ p. assigned M input p ≡ some g) input.parameters)

  label_of : (n w g : ℕ) → (if ltb w n then grade w else no_label) ≡ grade g → w ≡ g
  label_of n w g h = elim (Bool-cases (ltb w n)) [
    | inl there ↦ let e : grade w ≡ grade g = rw there at h in cc
    | inr gone ↦ let e : no_label ≡ grade g = rw gone at h in cc
  ]

  label_kept : (n w : ℕ) → (if ltb w n then grade w else no_label) ≡ rejected → ⊥
  label_kept n w h = elim (Bool-cases (ltb w n)) [
    | inl there ↦ let e : grade w ≡ rejected = rw there at h in cc
    | inr gone ↦ let e : no_label ≡ rejected = rw gone at h in cc
  ]

  result_of-IsScored :
      (fs : List Text)
      → (count_all M input input.parameters start).failing ≡ fs
      → IsScored (result_of M input fs (count_all M input input.parameters start))
  unfolding result_of
  result_of-IsScored [] h =
      let k = count_all-IsTallied input.parameters start h in
      record {
        rejection = λ e. absurd (label_kept _ _ e);
        worst = λ g e.
            subst
              (λ x.
                Each (IsWithin x) input.parameters
                × ((x ≡ 0) ⊎ SomeOf (λ p. assigned M input p ≡ some x) input.parameters))
              (label_of _ _ g e) (k.within, k.attained);
      }
  result_of-IsScored (f ∷ fs) h = record {
    rejection = λ e. some_failed input.parameters start f fs h refl;
    worst = λ g e. cc;
  }

  score_checked-IsScored :
      (a b : List Text) (r : ScoreResult N) → score_checked M input a b ≡ done r → IsScored r
  unfolding score_checked
  score_checked-IsScored (m ∷ ms) b r h = cc
  score_checked-IsScored [] (x ∷ xs) r h = cc
  score_checked-IsScored [] [] r h =
      let e : result_of M input (count_all M input input.parameters start).failing
            (count_all M input input.parameters start)
          ≡ r =
        cc in
      subst IsScored e (result_of-IsScored _ refl)

-- When `scoreSample` gives a result whose grade is REJECTED, some parameter is within none of its
-- thresholds. When its grade is Grade g, every parameter has a grade, the first whose threshold its value
-- is within, and none of these is worse than g; and g is the best grade or the grade of some parameter.
pub score_sample_worst :
    {N : Type 0} (M : Measures N) (input : ScoreInput N) (r : ScoreResult N)
    → score_sample M input ≡ done r
    → (r.computed_grade ≡ rejected → SomeOf (λ p. assigned M input p ≡ none) input.parameters)
      × ((g : ℕ)
          → r.computed_grade ≡ grade g
          → Each (IsWithin M input g) input.parameters
            × ((g ≡ 0) ⊎ SomeOf (λ p. assigned M input p ≡ some g) input.parameters))
unfolding score_sample
score_sample_worst M input r h =
    let s = score_checked-IsScored M input _ _ r h in (s.rejection, s.worst)
