-- ===== src/Suffix/Order.antt =====
-- Sorting finds the suffix with the greatest number, and `nextSuffix` spells a greater one.
use secure_store_backend.Prelude.{
  ℕ, ◌+◌, ◌≤◌, ◌<◌, ◌≡◌, ◌≢◌, refl, ap, Text, true, List, [], ◌∷◌, arith, inl, inr, Bool-cases,
}
use native.Mathlib.Nat.{le_trans}
use secure_store_backend.Suffix.{
  all_upper, insert_sorted, sort, last_of, next_suffix, suffix_leb, successor,
}
use secure_store_backend.Suffix.Value.{
  value, value_from, suffix_leb_total, value-suffix_leb, value-successor, all_upper-successor,
}

-- Letters, at least one of them.
abbrev pub IsSuffix : Text → Type 0
IsSuffix s = (s ≢ []) × (all_upper s ≡ true)

abbrev pub AllSuffixes : List Text → Type 0
AllSuffixes [] = Unit
AllSuffixes (s ∷ l) = IsSuffix s × AllSuffixes l

-- Every text spells a number up to `n`.
abbrev pub AllUpTo : ℕ → List Text → Type 0
AllUpTo n [] = Unit
AllUpTo n (s ∷ l) = (value s ≤ n) × AllUpTo n l

AllUpTo-le : (m n : ℕ) (l : List Text) → m ≤ n → AllUpTo m l → AllUpTo n l
AllUpTo-le m n [] h u = tt
AllUpTo-le m n (s ∷ l) h u = (omega arith, AllUpTo-le m n l h u.1)

value-order : (a b : Text) → IsSuffix a → IsSuffix b → suffix_leb a b ≡ true → value a ≤ value b
value-order a b sa sb h = value-suffix_leb a b sa.1 sb.1 h

insert_sorted-AllSuffixes :
    (a : Text) (l : List Text) → IsSuffix a → AllSuffixes l → AllSuffixes (insert_sorted a l)
unfolding insert_sorted
insert_sorted-AllSuffixes a [] h hl = (h, tt)
insert_sorted-AllSuffixes a (b ∷ l) h hl = elim (Bool-cases (suffix_leb a b)) [
  | inl le ↦ rw le (h, hl)
  | inr gt ↦ rw gt (hl.0, insert_sorted-AllSuffixes a l h hl.1)
]

sort-AllSuffixes : (l : List Text) → AllSuffixes l → AllSuffixes (sort l)
unfolding sort
sort-AllSuffixes [] h = tt
sort-AllSuffixes (a ∷ l) h = insert_sorted-AllSuffixes a (sort l) h.0 (sort-AllSuffixes l h.1)

-- The last text stays the greatest when one more is inserted, and does not fall.
insert_sorted_last :
    (d a b : Text) (l : List Text)
    → IsSuffix a
    → AllSuffixes (b ∷ l)
    → AllUpTo (value (last_of b l)) (b ∷ l)
    → (value (last_of b l) ≤ value (last_of d (insert_sorted a (b ∷ l))))
      × AllUpTo (value (last_of d (insert_sorted a (b ∷ l)))) (insert_sorted a (b ∷ l))
unfolding insert_sorted last_of
insert_sorted_last d a b [] sa sb up = elim (Bool-cases (suffix_leb a b)) [
  | inl le ↦ rw le (omega arith, (value-order a b sa sb.0 le, (omega arith, tt)))
  | inr gt ↦ rw gt (
      let lt : value b ≤ value a = value-order b a sb.0 sa (suffix_leb_total a b gt) in
      (lt, (lt, (omega arith, tt))))
]
insert_sorted_last d a b (c ∷ l) sa sb up = elim (Bool-cases (suffix_leb a b)) [
  | inl le ↦ rw le (omega arith, (le_trans (value-order a b sa sb.0 le) up.0, up))
  | inr gt ↦ rw gt (
      let rest = insert_sorted_last b a c l sa sb.1 up.1 in
      (rest.0, (le_trans up.0 rest.0, rest.1)))
]

-- The last of the sorted texts spells the greatest number.
sort_last : (l : List Text) → AllSuffixes l → AllUpTo (value (last_of [] (sort l))) (sort l)
unfolding sort last_of
sort_last [] h = tt
sort_last (a ∷ l) h = step (sort l) (sort-AllSuffixes l h.1) (sort_last l h.1)
  where
    step :
        (m : List Text)
        → AllSuffixes m
        → AllUpTo (value (last_of [] m)) m
        → AllUpTo (value (last_of [] (insert_sorted a m))) (insert_sorted a m)
    step [] hm up = unfold insert_sorted in (omega arith, tt)
    step (b ∷ m) hm up = (insert_sorted_last [] a b m h.0 hm up).1

insert_sorted-AllUpTo :
    (n : ℕ) (a : Text) (l : List Text) → AllUpTo n (insert_sorted a l) → AllUpTo n (a ∷ l)
unfolding insert_sorted
insert_sorted-AllUpTo n a [] h = h
insert_sorted-AllUpTo n a (b ∷ l) h = elim (Bool-cases (suffix_leb a b)) [
  | inl le ↦ rw le at h
  | inr gt ↦
      let h' : AllUpTo n (b ∷ insert_sorted a l) = rw gt at h in
      let rest = insert_sorted-AllUpTo n a l h'.1 in (rest.0, (h'.0, rest.1))
]

sort-AllUpTo : (n : ℕ) (l : List Text) → AllUpTo n (sort l) → AllUpTo n l
unfolding sort
sort-AllUpTo n [] h = tt
sort-AllUpTo n (a ∷ l) h =
    let rest = insert_sorted-AllUpTo n a (sort l) h in (rest.0, sort-AllUpTo n l rest.1)

-- The last of a list of suffixes is a suffix.
last_of-IsSuffix : (d : Text) (l : List Text) → IsSuffix d → AllSuffixes l → IsSuffix (last_of d l)
unfolding last_of
last_of-IsSuffix d [] h hl = h
last_of-IsSuffix d (a ∷ l) h hl = last_of-IsSuffix a l hl.0 hl.1

last_of_inserted-IsSuffix :
    (a : Text) (l : List Text)
    → IsSuffix a
    → AllSuffixes l
    → IsSuffix (last_of [] (insert_sorted a l))
unfolding insert_sorted last_of
last_of_inserted-IsSuffix a [] h hl = h
last_of_inserted-IsSuffix a (b ∷ l) h hl = elim (Bool-cases (suffix_leb a b)) [
  | inl le ↦ rw le (last_of-IsSuffix b l hl.0 hl.1)
  | inr gt ↦
      rw gt (last_of-IsSuffix b (insert_sorted a l) hl.0 (insert_sorted-AllSuffixes a l h hl.1))
]

successor_above :
    (s : Text) → IsSuffix s → IsSuffix (successor s) × (value (successor s) ≡ value s + 1)
successor_above [] h = absurd (h.0 refl)
successor_above (c ∷ cs) (ne, u) =
    let next = value-successor c cs u in
    ((λ e. absurd (zero-value (value (c ∷ cs)) next e), all_upper-successor c cs u), next)
  where
    zero-value : (n : ℕ) → value (successor (c ∷ cs)) ≡ n + 1 → successor (c ∷ cs) ≡ [] → ⊥
    zero-value n next e = unfold value_from in omega (arith, next, ap value e)

-- The new suffix is made of capital letters, and spells a greater number than every given one.
pub next_suffix_above :
    (l : List Text)
    → AllSuffixes l
    → IsSuffix (next_suffix l) × ((n : ℕ) × AllUpTo n l × (n < value (next_suffix l)))
unfolding next_suffix
next_suffix_above [] h = unfold all_upper value_from in ((λ e. cc, refl), (0, tt, omega arith))
next_suffix_above (a ∷ l) h =
    let top = last_of [] (sort (a ∷ l)) in
    let is_suffix : IsSuffix top =
      unfold sort in last_of_inserted-IsSuffix a (sort l) h.0 (sort-AllSuffixes l h.1) in
    let above = successor_above top is_suffix in
    (
      above.0,
      (value top, sort-AllUpTo (value top) (a ∷ l) (sort_last (a ∷ l) h), omega (arith, above.1)),
    )
