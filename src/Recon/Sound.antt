-- ===== src/Recon/Sound.antt =====
-- The audit of src/inventory/inventory.recon.ts passes on a balanced table.
use secure_store_backend.Prelude.{
  ℕ, ◌≡◌, refl, sym, ◌∙◌, ap, Bool, true, false, Option, some, List, [], ◌∷◌, arith, inl, inr, ◌&&◌,
  not, Bool-cases, ◌==◌, ==_iff,
}
use mathlib.Core.Path.{subst}
use secure_store_backend.Prelude.Int.{ℤ, pos, ◌+ℤ◌, eq_ℤ_iff, +ℤ_zero, zero-+ℤ}
use secure_store_backend.Receipt.{Receipt}
use secure_store_backend.Store.{find_unique}
use secure_store_backend.Store.Totals.{All, IsFresh, UniqueIds, total}
use secure_store_backend.Balance.{IsBalanced, child_weight, split_weight}
use secure_store_backend.Recon.{in_scope, has_child, is_bad_parent, count_bad_parents, verify_all}

pub All-map :
    (P Q R : Receipt → Type 0) (rs : List Receipt)
    → ((x : Receipt) → P x → Q x → R x)
    → All P rs
    → All Q rs
    → All R rs
All-map P Q R [] f p q = tt
All-map P Q R (x ∷ rs) f p q = (f x p.0 q.0, All-map P Q R rs f p.1 q.1)

find_unique-skip :
    (r : Receipt) (rs : List Receipt) (x : Receipt)
    → find_unique x.id rs ≡ some x
    → (x.id == r.id) ≡ false
    → find_unique x.id (r ∷ rs) ≡ some x
unfolding find_unique
find_unique-skip r rs x found other = ground arith

find_unique_head : (r : Receipt) (rs : List Receipt) → find_unique r.id (r ∷ rs) ≡ some r
unfolding find_unique
find_unique_head r rs = ground arith

-- Every row of a table with unique ids is the row of its id.
All-found : (rs : List Receipt) → UniqueIds rs → All (λ p. find_unique p.id rs ≡ some p) rs
All-found [] u = tt
All-found (r ∷ rs) (fresh, u) = (
  find_unique_head r rs,
  All-map (λ x. find_unique x.id rs ≡ some x) (λ x. (x.id == r.id) ≡ false) _ rs
      (find_unique-skip r rs) (All-found rs u) fresh,
)

split_weight_fresh :
    (id : ℕ) (rs : List Receipt) → IsFresh id rs → total (split_weight id) rs ≡ pos 0
unfolding total
split_weight_fresh id [] h = refl
split_weight_fresh id (r ∷ rs) h =
    ap (λ t. t +ℤ total (split_weight id) rs) (no_weight r h.0)
    ∙ ap (λ t. pos 0 +ℤ t) (split_weight_fresh id rs h.1)
    ∙ +ℤ_zero (pos 0)
  where
    no_weight : (x : Receipt) → (x.id == id) ≡ false → split_weight id x ≡ pos 0
    no_weight x e = ground arith

-- A split row is all that is split at its id.
split_weight_found :
    (id : ℕ) (rs : List Receipt) {p : Receipt}
    → UniqueIds rs
    → find_unique id rs ≡ some p
    → p.is_parent ≡ true
    → total (split_weight id) rs ≡ p.quantity
unfolding total find_unique
split_weight_found id [] u h flag = cc
split_weight_found id (r ∷ rs) {p} (fresh, u) h flag = elim (Bool-cases (r.id == id)) [
  | inl same ↦
      let e : r.id ≡ id = (==_iff r.id id).0 same in
      let is : r ≡ p = ground (arith, h) in
      let weight : split_weight id r ≡ p.quantity = ground (arith, flag, is) in
      cc (weight, split_weight_fresh id rs (subst (λ k. IsFresh k rs) e fresh), +ℤ_zero p.quantity)
  | inr other ↦
      let none_here : split_weight id r ≡ pos 0 = ground arith in
      let rest = split_weight_found id rs {p = p} u (ground (arith, h)) flag in
      cc (none_here, rest, zero-+ℤ p.quantity)
]

-- The test of a group, over its four parts.
group : (f x y e : Bool) → (f ≡ true → e ≡ true) → f && (x && (y && not e)) ≡ false
group false x y e h = refl
group true x y e h = rw (h refl) (ground arith)

module _ (scope : Option ℕ) (table : List Receipt) where
  not_bad :
      (p : Receipt)
      → (p.is_parent ≡ true → p.quantity ≡ total (child_weight p.id) table)
      → is_bad_parent scope table p ≡ false
  unfolding is_bad_parent
  not_bad p h =
      group p.is_parent (has_child p.id table) (in_scope scope p) _
        (λ flag. (eq_ℤ_iff p.quantity (total (child_weight p.id) table)).1 (h flag))

  pub count_none :
      (ps : List Receipt)
      → All (λ p. is_bad_parent scope table p ≡ false) ps
      → count_bad_parents scope table ps ≡ 0
  unfolding count_bad_parents
  count_none [] h = refl
  count_none (p ∷ ps) h = rw (h.0, count_none ps h.1) (omega arith)

-- On a balanced table the audit passes, for every tenant and for all of them.
pub verify_all-balanced :
    (column : ℤ → ℤ) (scope : Option ℕ) (table : List Receipt)
    → IsBalanced column table
    → verify_all scope table ≡ (true, [])
unfolding verify_all
verify_all-balanced column scope table b = rw (
    count_none scope table table (
      All-map (λ p. find_unique p.id table ≡ some p) (λ p. find_unique p.id table ≡ some p) _ table
        (λ p found again.
          not_bad scope table p
            (λ flag. sym (b.children p.id ∙ split_weight_found p.id table b.unique found flag)))
        (All-found table b.unique) (All-found table b.unique)))
