-- ===== src/Suffix/Fresh.antt =====
-- The number that `nextSuffix` gives to a child is on no receipt.
use secure_store_backend.Prelude.{
  ℕ, Option, append_assoc, ◌<◌, ◌≡◌, refl, ap, ◌∙◌, Text, text_eq, text_eq_iff, false, some, none,
  List, [], ◌∷◌, ◌++◌, arith, inl, inr, Bool-cases,
}
use mathlib.Core.Path.{subst}
use secure_store_backend.Receipt.{Receipt}
use secure_store_backend.Suffix.{
  all_upper, next_suffix, after_prefix, letters_only, existing_child_suffixes, child_number,
}
use secure_store_backend.Suffix.Value.{value}
use secure_store_backend.Suffix.Order.{IsSuffix, AllSuffixes, AllUpTo, next_suffix_above}

after_prefix-append : (p s : Text) → after_prefix p (p ++ s) ≡ some s
unfolding after_prefix
after_prefix-append [] s = refl
after_prefix-append (c ∷ p) s = ground (arith, after_prefix-append p s)

letters_only-AllSuffixes :
    (o : Option Text) (l : List Text) → AllSuffixes l → AllSuffixes (letters_only o l)
unfolding letters_only
letters_only-AllSuffixes none l h = h
letters_only-AllSuffixes (some []) l h = h
letters_only-AllSuffixes (some (c ∷ cs)) l h = elim (Bool-cases (all_upper (c ∷ cs))) [
  | inl u ↦ rw u ((λ e. cc, u), h)
  | inr no_letters ↦ rw no_letters h
]

-- What `existingChildSuffixes` returns are capital letters.
pub existing-AllSuffixes :
    (base : Text) (rs : List Receipt) → AllSuffixes (existing_child_suffixes base rs)
unfolding existing_child_suffixes
existing-AllSuffixes base [] = tt
existing-AllSuffixes base (r ∷ rs) =
    letters_only-AllSuffixes (after_prefix (base ++ b'-' ∷ []) r.receipt_number)
      (existing_child_suffixes base rs) (existing-AllSuffixes base rs)

letters_only-AllUpTo :
    (n : ℕ) (o : Option Text) (l : List Text) → AllUpTo n (letters_only o l) → AllUpTo n l
unfolding letters_only
letters_only-AllUpTo n none l h = h
letters_only-AllUpTo n (some []) l h = h
letters_only-AllUpTo n (some (c ∷ cs)) l h = elim (Bool-cases (all_upper (c ∷ cs))) [
  | inl u ↦ (rw u at h).1
  | inr no_letters ↦ rw no_letters at h
]

letters_only_suffix : (s : Text) (l : List Text) → IsSuffix s → letters_only (some s) l ≡ s ∷ l
unfolding letters_only
letters_only_suffix [] l h = absurd (h.0 refl)
letters_only_suffix (c ∷ cs) l h = rw h.1

-- No receipt has the number.
abbrev pub NumberIsFree : Text → List Receipt → Type 0
NumberIsFree n [] = Unit
NumberIsFree n (r ∷ rs) = (text_eq r.receipt_number n ≡ false) × NumberIsFree n rs

above_all-NumberIsFree :
    (base s : Text) (n : ℕ) (rs : List Receipt)
    → IsSuffix s
    → AllUpTo n (existing_child_suffixes base rs)
    → n < value s
    → NumberIsFree (child_number base s) rs
unfolding existing_child_suffixes
above_all-NumberIsFree base s n [] h up lt = tt
above_all-NumberIsFree base s n (r ∷ rs) h up lt = (
  elim (Bool-cases (text_eq r.receipt_number (child_number base s))) [
    | inl same ↦ absurd (clash ((text_eq_iff _ _).0 same) up)
    | inr other ↦ other
  ],
  above_all-NumberIsFree base s n rs h
      (letters_only-AllUpTo n (after_prefix (base ++ b'-' ∷ []) r.receipt_number) _ up) lt,
)
  where
    found : after_prefix (base ++ b'-' ∷ []) (child_number base s) ≡ some s
    found = rw (← append_assoc base (b'-' ∷ []) s) (after_prefix-append (base ++ b'-' ∷ []) s)

    clash :
        r.receipt_number ≡ child_number base s
        → AllUpTo n (
            letters_only
              (after_prefix (base ++ b'-' ∷ []) r.receipt_number)
              (existing_child_suffixes base rs))
        → ⊥
    clash e up' =
        let up'' : AllUpTo n (s ∷ existing_child_suffixes base rs) =
          subst (AllUpTo n)
            (ap
                (λ t.
                  letters_only (after_prefix (base ++ b'-' ∷ []) t)
                    (existing_child_suffixes base rs))
                e
              ∙ ap (λ o. letters_only o (existing_child_suffixes base rs)) found
              ∙ letters_only_suffix s _ h)
            up' in
        absurd (omega (arith, up''.0))

-- The number that the next suffix makes under a base is on no receipt.
pub child_number-NumberIsFree :
    (base : Text) (rs : List Receipt)
    → NumberIsFree (child_number base (next_suffix (existing_child_suffixes base rs))) rs
child_number-NumberIsFree base rs =
    let l = existing_child_suffixes base rs in
    let (is_suffix, bound) = next_suffix_above l (existing-AllSuffixes base rs) in
    let (n, up, lt) = bound in above_all-NumberIsFree base (next_suffix l) n rs is_suffix up lt

letters_only-append :
    (o : Option Text) (l more : List Text) → letters_only o (l ++ more) ≡ letters_only o l ++ more
unfolding letters_only
letters_only-append none l more = refl
letters_only-append (some []) l more = refl
letters_only-append (some (c ∷ cs)) l more = elim (Bool-cases (all_upper (c ∷ cs))) [
  | inl u ↦ rw u
  | inr no_letters ↦ rw no_letters
]

existing-append :
    (base : Text) (rs : List Receipt) (r : Receipt)
    → existing_child_suffixes base (rs ++ r ∷ [])
      ≡ existing_child_suffixes base rs
        ++ letters_only (after_prefix (base ++ b'-' ∷ []) r.receipt_number) []
unfolding existing_child_suffixes
existing-append base [] r = refl
existing-append base (x ∷ rs) r =
    ap (letters_only (after_prefix (base ++ b'-' ∷ []) x.receipt_number))
      (existing-append base rs r)
    ∙ letters_only-append (after_prefix (base ++ b'-' ∷ []) x.receipt_number) _ _

-- A child with a number under the base adds its suffix behind the others.
pub existing_of_child :
    (base s : Text) (rs : List Receipt) (r : Receipt)
    → IsSuffix s
    → r.receipt_number ≡ child_number base s
    → existing_child_suffixes base (rs ++ r ∷ []) ≡ existing_child_suffixes base rs ++ s ∷ []
existing_of_child base s rs r h e =
    existing-append base rs r
    ∙ ap
        (λ t.
          existing_child_suffixes base rs ++ letters_only (after_prefix (base ++ b'-' ∷ []) t) [])
        e
    ∙ ap (λ o. existing_child_suffixes base rs ++ letters_only o [])
        (rw (← append_assoc base (b'-' ∷ []) s) (after_prefix-append (base ++ b'-' ∷ []) s))
    ∙ ap (λ l. existing_child_suffixes base rs ++ l) (letters_only_suffix s [] h)

-- The second child of a split, whose number is made from the suffixes taken before and that of the first
-- child, has a number that is on no receipt after the first child is created.
pub second_child_number-NumberIsFree :
    (base : Text) (rs : List Receipt) (first : Receipt)
    → first.receipt_number ≡ child_number base (next_suffix (existing_child_suffixes base rs))
    → NumberIsFree
        (child_number base (
          next_suffix (
            existing_child_suffixes base rs ++ next_suffix (existing_child_suffixes base rs) ∷ [])))
        (rs ++ first ∷ [])
second_child_number-NumberIsFree base rs first e =
    let (is_suffix, bound) =
      next_suffix_above (existing_child_suffixes base rs) (existing-AllSuffixes base rs) in
    subst (λ l. NumberIsFree (child_number base (next_suffix l)) (rs ++ first ∷ []))
      (existing_of_child base _ rs first is_suffix e)
      (child_number-NumberIsFree base (rs ++ first ∷ []))
