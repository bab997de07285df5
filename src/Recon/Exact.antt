-- ===== src/Recon/Exact.antt =====
-- What the audit of src/inventory/inventory.recon.ts finds, in terms of the parents and children of a
-- table.
use secure_store_backend.Prelude.{
  ℕ, ◌+◌, ◌≡◌, refl, sym, ap, Bool, true, false, Option, none, some, List, [], ◌∷◌, arith, inl, inr,
  ◌&&◌, not, ◌↔◌, Bool-cases, ==_iff,
}
use mathlib.Core.Path.{subst}
use secure_store_backend.Prelude.Int.{ℤ, pos, ◌+ℤ◌, eq_ℤ_iff, zero-+ℤ}
use secure_store_backend.Receipt.{Receipt}
use secure_store_backend.Store.{has_id}
use secure_store_backend.Store.Totals.{All, total}
use secure_store_backend.Balance.{child_weight}
use secure_store_backend.Recon.{in_scope, has_child, is_bad_parent, count_bad_parents, verify_all}
use secure_store_backend.Recon.Sound.{All-map, count_none}

-- The quantities of the rows whose parent is the row with the id have this sum.
pub data ChildSum (id : ℕ) : List Receipt → ℤ → Type 0 where
  no_rows : ChildSum id [] (pos 0)
  child :
      {r : Receipt} {rs : List Receipt} {s : ℤ}
      → r.parent_receipt_id ≡ some id
      → ChildSum id rs s
      → ChildSum id (r ∷ rs) (r.quantity +ℤ s)
  other :
      {r : Receipt} {rs : List Receipt} {s : ℤ}
      → ¬ (r.parent_receipt_id ≡ some id)
      → ChildSum id rs s
      → ChildSum id (r ∷ rs) s

-- The row belongs to the tenant, if one is given.
abbrev pub InScope : Option ℕ → Receipt → Type 0
InScope none p = Unit
InScope (some tenant_id) p = p.tenant_id ≡ tenant_id

in_scope_iff : (scope : Option ℕ) (p : Receipt) → InScope scope p ↔ (in_scope scope p ≡ true)
in_scope_iff none p = (λ h. refl, λ h. tt)
in_scope_iff (some t) p = ((==_iff p.tenant_id t).1, (==_iff p.tenant_id t).0)

has_id_iff : (id : ℕ) (o : Option ℕ) → (o ≡ some id) ↔ (has_id id o ≡ true)
has_id_iff id none = (λ h. cc, λ h. cc)
has_id_iff id (some j) = (λ h. ground (arith, h), λ h. ap some ((==_iff j id).0 h))

total-ChildSum : (id : ℕ) (rs : List Receipt) → ChildSum id rs (total (child_weight id) rs)
unfolding total
total-ChildSum id [] = ChildSum.no_rows
total-ChildSum id (r ∷ rs) = elim (Bool-cases (has_id id r.parent_receipt_id)) [
  | inl yes_ ↦
      rw yes_ (ChildSum.child ((has_id_iff id r.parent_receipt_id).1 yes_) (total-ChildSum id rs))
  | inr no_ ↦
      let apart : ¬ (r.parent_receipt_id ≡ some id) =
        λ e. let is = (has_id_iff id r.parent_receipt_id).0 e in cc in
      rw (no_, zero-+ℤ (total (child_weight id) rs)) (ChildSum.other apart (total-ChildSum id rs))
]

ChildSum-total :
    {id : ℕ} {rs : List Receipt} {s : ℤ} → ChildSum id rs s → s ≡ total (child_weight id) rs
unfolding total
ChildSum-total ChildSum.no_rows = refl
ChildSum-total {id} (ChildSum.child {r} {rs} {s} e c) =
    rw ((has_id_iff id r.parent_receipt_id).0 e) (ap (λ t. r.quantity +ℤ t) (ChildSum-total c))
ChildSum-total {id} (ChildSum.other {r} {rs} {s} n c) =
    elim (Bool-cases (has_id id r.parent_receipt_id)) [
      | inl yes_ ↦ absurd (n ((has_id_iff id r.parent_receipt_id).1 yes_))
      | inr no_ ↦ rw (no_, zero-+ℤ (total (child_weight id) rs)) (ChildSum-total c)
    ]

module _ (id : ℕ) (X : Type 0) where
  -- What follows from there being a child follows from every child.
  each_child :
      (rs : List Receipt)
      → (has_child id rs ≡ true → X)
      → All (λ k. k.parent_receipt_id ≡ some id → X) rs
  unfolding has_child
  each_child [] f = tt
  each_child (r ∷ rs) f = (
    λ e. f (rw ((has_id_iff id r.parent_receipt_id).0 e) refl),
    each_child rs (λ h. f (rw h (ground arith))),
  )

  some_child :
      (rs : List Receipt)
      → has_child id rs ≡ true
      → All (λ k. k.parent_receipt_id ≡ some id → X) rs
      → X
  unfolding has_child
  some_child [] h each = cc
  some_child (r ∷ rs) h each = elim (Bool-cases (has_id id r.parent_receipt_id)) [
    | inl yes_ ↦ each.0 ((has_id_iff id r.parent_receipt_id).1 yes_)
    | inr no_ ↦ some_child rs (rw no_ at h) each.1
  ]

-- The test of a group, over its four parts.
group_passes :
    (f x y e : Bool) → f && (x && (y && not e)) ≡ false → f ≡ true → x ≡ true → y ≡ true → e ≡ true
group_passes f x y e h p q r = ground (arith, h, p, q, r)

group_of :
    (f x y e : Bool)
    → (f ≡ true → x ≡ true → y ≡ true → e ≡ true)
    → f && (x && (y && not e)) ≡ false
group_of false x y e h = refl
group_of true false y e h = refl
group_of true true false e h = refl
group_of true true true e h = rw (h refl refl refl) refl

module _ (scope : Option ℕ) (table : List Receipt) where
  count_zero :
      (ps : List Receipt)
      → count_bad_parents scope table ps ≡ 0
      → All (λ p. is_bad_parent scope table p ≡ false) ps
  unfolding count_bad_parents
  count_zero [] h = tt
  count_zero (p ∷ ps) h = elim (Bool-cases (is_bad_parent scope table p)) [
    | inl bad ↦ absurd (one_more (rw bad at h))
    | inr fine ↦ (fine, count_zero ps (rest (rw fine at h)))
  ]
    where
      one_more : 1 + count_bad_parents scope table ps ≡ 0 → ⊥
      one_more e = omega arith

      rest : 0 + count_bad_parents scope table ps ≡ 0 → count_bad_parents scope table ps ≡ 0
      rest e = omega arith

  -- A parent in scope holds the sum of its children, if there is one.
  abbrev pub HoldsChildren : Receipt → Type 0
  HoldsChildren p =
      p.is_parent ≡ true
      → InScope scope p
      → All (λ k. k.parent_receipt_id ≡ some p.id → ChildSum p.id table p.quantity) table

  shows : (p : Receipt) → is_bad_parent scope table p ≡ false → HoldsChildren p
  unfolding is_bad_parent
  shows p fine flag inside = each_child p.id (ChildSum p.id table p.quantity) table λ there.
      let whole : p.quantity ≡ total (child_weight p.id) table = (eq_ℤ_iff _ _).0 (
        group_passes p.is_parent (has_child p.id table) (in_scope scope p) _ fine flag there
          ((in_scope_iff scope p).0 inside)) in
      subst (λ s. ChildSum p.id table s) (sym whole) (total-ChildSum p.id table)

  follows : (p : Receipt) → HoldsChildren p → is_bad_parent scope table p ≡ false
  unfolding is_bad_parent
  follows p holds =
      group_of p.is_parent (has_child p.id table) (in_scope scope p) _ λ flag there inside.
        (eq_ℤ_iff _ _).1 (
          ChildSum-total (
            some_child p.id (ChildSum p.id table p.quantity) table there
              (holds flag ((in_scope_iff scope p).1 inside))))

-- The audit, of one tenant or of all, passes exactly when for every parent row in its scope, each row of
-- the table that names it as its parent shows that its quantity is the sum of the quantities of all such
-- rows; so a parent without a child passes whatever it holds.
pub verify_all_iff :
    (scope : Option ℕ) (table : List Receipt)
    → ((verify_all scope table).0 ≡ true) ↔ All (HoldsChildren scope table) table
unfolding verify_all
verify_all_iff scope table = (
  λ passed.
      let fine = count_zero scope table table ((==_iff _ 0).0 passed) in
      All-map _ (λ p. is_bad_parent scope table p ≡ false) _ table (λ p f g. shows scope table p f)
        fine fine,
  λ sums. (==_iff _ 0).1 (
      count_none scope table table (
        All-map _ (HoldsChildren scope table) _ table (λ p h g. follows scope table p h) sums
          sums)),
)
