-- ===== src/Store/Modify.antt =====
-- Lookups, and what the rewriting of one row keeps of a table.
use secure_store_backend.Prelude.{
  ℕ, ◌≡◌, false, some, List, [], ◌∷◌, ◌++◌, arith, inl, inr, Bool-cases, ◌==◌, ==_iff, sym,
}
use mathlib.Core.Path.{subst}
use secure_store_backend.Receipt.{Receipt}
use secure_store_backend.Store.{find_unique, modify, find_first, clashes}
use secure_store_backend.Store.Totals.{All, IsFresh, UniqueIds, modify_fresh}

-- A row found by its id has that id.
pub find_unique_id :
    (id : ℕ) (rs : List Receipt) {r : Receipt} → find_unique id rs ≡ some r → r.id ≡ id
unfolding find_unique
find_unique_id id [] h = cc
find_unique_id id (x ∷ rs) {r} h = ground (arith, find_unique_id id rs {r = r})

pub find_first_id :
    (id tenant_id : ℕ) (rs : List Receipt) {r : Receipt}
    → find_first id tenant_id rs ≡ some r
    → r.id ≡ id
unfolding find_first
find_first_id id t [] h = cc
find_first_id id t (x ∷ rs) {r} h = ground (arith, find_first_id id t rs {r = r})

-- What holds of every row holds of a row that is found.
pub All-find_unique :
    (P : Receipt → Type 0) (id : ℕ) (rs : List Receipt) {r : Receipt}
    → All P rs
    → find_unique id rs ≡ some r
    → P r
unfolding find_unique
All-find_unique P id [] a h = cc
All-find_unique P id (x ∷ rs) {r} a h = elim (Bool-cases (x.id == id)) [
  | inl same ↦ let found : x ≡ r = ground (arith, h) in subst P found a.0
  | inr other ↦ All-find_unique P id rs a.1 (rw other at h)
]

module _ (id : ℕ) (f : Receipt → Receipt) (keeps_id : (x : Receipt) → (f x).id ≡ x.id) where
  IsFresh-modify : (k : ℕ) (rs : List Receipt) → IsFresh k rs → IsFresh k (modify id f rs)
  unfolding modify
  IsFresh-modify k [] h = tt
  IsFresh-modify k (x ∷ rs) h = elim (Bool-cases (x.id == id)) [
    | inl same ↦ rw (same) (rw (keeps_id x) h.0, IsFresh-modify k rs h.1)
    | inr other ↦ rw other (h.0, IsFresh-modify k rs h.1)
  ]

  pub UniqueIds-modify : (rs : List Receipt) → UniqueIds rs → UniqueIds (modify id f rs)
  unfolding modify
  UniqueIds-modify [] u = tt
  UniqueIds-modify (x ∷ rs) u = elim (Bool-cases (x.id == id)) [
    | inl same ↦ rw same (rw (keeps_id x) (IsFresh-modify x.id rs u.0), UniqueIds-modify rs u.1)
    | inr other ↦ rw other (IsFresh-modify x.id rs u.0, UniqueIds-modify rs u.1)
  ]

-- What holds of every row and of the row that is written holds after the write.
pub All-modify :
    (P : Receipt → Type 0) (id : ℕ) (f : Receipt → Receipt) (rs : List Receipt) {r : Receipt}
    → UniqueIds rs
    → All P rs
    → find_unique id rs ≡ some r
    → P (f r)
    → All P (modify id f rs)
unfolding modify find_unique
All-modify P id f [] u a h p = tt
All-modify P id f (x ∷ rs) {r} (fresh, u) a h p = elim (Bool-cases (x.id == id)) [
  | inl same ↦
      let found : x ≡ r = ground (arith, h) in
      let e : x.id ≡ id = (==_iff x.id id).0 same in
      rw same (subst (λ y. P (f y)) (sym found) p, rw (modify_fresh id f rs (rw (← e) fresh)) a.1)
  | inr other ↦ rw other (a.0, All-modify P id f rs u a.1 (rw other at h) p)
]

-- A row that may be created has an id of its own.
pub clashes-IsFresh :
    (new : Receipt) (rs : List Receipt) → clashes new rs ≡ false → IsFresh new.id rs
unfolding clashes
clashes-IsFresh new [] h = tt
clashes-IsFresh new (r ∷ rs) h = (ground arith, clashes-IsFresh new rs (ground arith))

pub All-append :
    (P : Receipt → Type 0) (rs more : List Receipt) → All P rs → All P more → All P (rs ++ more)
All-append P [] more h k = k
All-append P (r ∷ rs) more h k = (h.0, All-append P rs more h.1 k)

pub UniqueIds-append :
    (new : Receipt) (rs : List Receipt)
    → UniqueIds rs
    → clashes new rs ≡ false
    → UniqueIds (rs ++ new ∷ [])
unfolding clashes
UniqueIds-append new [] u h = (tt, tt)
UniqueIds-append new (r ∷ rs) u h = (
  All-append (λ x. (x.id == r.id) ≡ false) rs (new ∷ []) u.0 (ground arith, tt),
  UniqueIds-append new rs u.1 (ground arith),
)
