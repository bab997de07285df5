-- ===== src/Store/Totals.antt =====
-- Sums of a weight over the rows of a table, under the two ways in which a transaction writes rows.
use secure_store_backend.Prelude.{
  ℕ, ◌≡◌, refl, false, none, some, List, [], ◌∷◌, ◌++◌, arith, inl, inr, ◌==◌, ==_iff, Bool-cases,
}
use secure_store_backend.Prelude.Int.{ℤ, pos, ◌+ℤ◌, int_laws}
use secure_store_backend.Receipt.{Receipt}
use secure_store_backend.Store.{find_first, find_unique, modify}

-- What holds of every row.
abbrev pub All : (Receipt → Type 0) → List Receipt → Type 0
All P [] = Unit
All P (r ∷ rs) = P r × All P rs

abbrev pub IsFresh : ℕ → List Receipt → Type 0
IsFresh id = All (λ r. (r.id == id) ≡ false)

-- No id stands on two rows.
abbrev pub UniqueIds : List Receipt → Type 0
UniqueIds [] = Unit
UniqueIds (r ∷ rs) = IsFresh r.id rs × UniqueIds rs

-- The sum of a weight over the rows.
unfoldable pub total : (Receipt → ℤ) → List Receipt → ℤ
total w [] = pos 0
total w (r ∷ rs) = w r +ℤ total w rs

pub total-append :
    (w : Receipt → ℤ) (rs : List Receipt) (new : Receipt)
    → total w (rs ++ new ∷ []) ≡ total w rs +ℤ w new
unfolding total
total-append w [] new = omega int_laws
total-append w (r ∷ rs) new = omega (int_laws, total-append w rs new)

pub total-append_all :
    (w : Receipt → ℤ) (rs more : List Receipt) → total w (rs ++ more) ≡ total w rs +ℤ total w more
unfolding total
total-append_all w [] more = omega int_laws
total-append_all w (r ∷ rs) more = omega (int_laws, total-append_all w rs more)

pub modify_fresh :
    (id : ℕ) (f : Receipt → Receipt) (rs : List Receipt) → IsFresh id rs → modify id f rs ≡ rs
unfolding modify
modify_fresh id f [] h = refl
modify_fresh id f (r ∷ rs) h = ground (arith, modify_fresh id f rs h.1)

pub find_first_fresh :
    (id tenant_id : ℕ) (rs : List Receipt) → IsFresh id rs → find_first id tenant_id rs ≡ none
unfolding find_first
find_first_fresh id t [] h = refl
find_first_fresh id t (r ∷ rs) h = ground (arith, find_first_fresh id t rs h.1)

-- A row that is found is changed, and its weight is exchanged for that of the new row.
pub total-modify :
    (w : Receipt → ℤ) (id : ℕ) (f : Receipt → Receipt) (rs : List Receipt) {r : Receipt}
    → UniqueIds rs
    → find_unique id rs ≡ some r
    → total w (modify id f rs) +ℤ w r ≡ total w rs +ℤ w (f r)
unfolding total find_unique modify
total-modify w id f [] u h = cc
total-modify w id f (x ∷ rs) {r} (fresh, u) h = elim (Bool-cases (x.id == id)) [
  | inl same ↦ rw same (
      let e : x.id ≡ id = (==_iff x.id id).0 same in
      let found : x ≡ r = ground (arith, h) in
      rw (modify_fresh id f rs (rw (← e) fresh)) (rw found (omega int_laws)))
  | inr other ↦ rw other (omega (int_laws, total-modify w id f rs u (rw other at h)))
]

-- A row found by its id and its tenant is the row with the id.
pub find_unique_of_first :
    (id tenant_id : ℕ) (rs : List Receipt) {r : Receipt}
    → UniqueIds rs
    → find_first id tenant_id rs ≡ some r
    → find_unique id rs ≡ some r
unfolding find_first find_unique
find_unique_of_first id t [] u h = cc
find_unique_of_first id t (x ∷ rs) {r} (fresh, u) h =
    ground (arith, find_unique_of_first id t rs {r = r} u, find_first_fresh x.id t rs fresh)

pub find_unique-append :
    (id : ℕ) (rs more : List Receipt) {r : Receipt}
    → find_unique id rs ≡ some r
    → find_unique id (rs ++ more) ≡ some r
unfolding find_unique
find_unique-append id [] more h = cc
find_unique-append id (x ∷ rs) more {r} h = ground (arith, find_unique-append id rs more {r = r})
