-- ===== src/Pledges/Sums.antt =====
-- What `getReceiptEncumbrance` of src/pledges/pledges.service.ts adds up to on a balanced table.
use secure_store_backend.Prelude.{
  ℕ, ◌≡◌, refl, ap, sym, ◌∙◌, Bool, true, false, not, ◌&&◌, ◌||◌, none, some, List, [], ◌∷◌, ◌==◌,
  ==_iff, if◌then◌else◌, Bool-cases, inl, inr, arith,
}
use mathlib.Core.Path.{subst}
use secure_store_backend.Prelude.Int.{ℤ, pos, ◌+ℤ◌, int_laws, +ℤ_zero, zero-+ℤ}
use secure_store_backend.Receipt.{
  Receipt, ReceiptStatus, status_eq, includes, held_pledge_pending, held_lien, split,
}
use secure_store_backend.Store.{find_unique}
use secure_store_backend.Store.Totals.{All, total, UniqueIds, IsFresh}
use secure_store_backend.Balance.{leaf_weight, root_weight, IsBalanced, IsGoodRow}
use secure_store_backend.Pledges.Encumbrance.{
  Encumbrance, leaf_statuses, is_leaf_of, add_leaf, add_leaves, encumbrance_of,
}

-- the statuses of a tree that only pledges and liens hold parts of
abbrev pub pledge_statuses : List ReceiptStatus
pledge_statuses = ReceiptStatus.active ∷ held_pledge_pending ∷ held_lien ∷ split ∷ []

-- A row is outside the tree, or in the tree, in the tenant, and in one of the statuses.
abbrev pub is_covered : Receipt → Receipt → Bool
is_covered root r =
    (not (r.root_receipt_id == root.id) && not (r.id == root.id))
    || (r.root_receipt_id == root.id
        && (r.tenant_id == root.tenant_id && includes pledge_statuses r.status))

abbrev sum : Encumbrance → ℤ
sum e = e.available +ℤ e.pledge_pending +ℤ e.liened

-- A row of the tree adds its weight as a leaf.
step_in :
    (r : Receipt) (e : Encumbrance) (s : ReceiptStatus)
    → r.status ≡ s
    → includes pledge_statuses s ≡ true
    → sum (if includes leaf_statuses r.status then add_leaf r e else e)
      ≡ sum e +ℤ (if not (status_eq r.status split) then r.quantity else pos 0)
unfolding includes status_eq add_leaf
step_in r e ReceiptStatus.active is h = rw is (omega int_laws)
step_in r e held_pledge_pending is h = rw is (omega int_laws)
step_in r e held_lien is h = rw is (omega int_laws)
step_in r e split is h = rw is (omega int_laws)
step_in r e _ is h = cc

step :
    (root r : Receipt) (e : Encumbrance)
    → r.is_parent ≡ status_eq r.status split
    → is_covered root r ≡ true
    → sum (if is_leaf_of root r then add_leaf r e else e) ≡ sum e +ℤ leaf_weight root.id r
step root r e flag h = elim (Bool-cases (r.root_receipt_id == root.id)) [
  | inl tree ↦
      let tenant : r.tenant_id == root.tenant_id ≡ true = ground (arith, h) in
      let status : includes pledge_statuses r.status ≡ true = ground (arith, h) in
      let selects : is_leaf_of root r ≡ includes leaf_statuses r.status =
        unfold is_leaf_of in rw (tree, tenant) refl in
      let weighs : leaf_weight root.id r
          ≡ (if not (status_eq r.status split) then r.quantity else pos 0) =
        ap (λ b. if not r.is_parent && b then r.quantity else pos 0) tree
        ∙ ap (λ b. if not b && true then r.quantity else pos 0) flag
        ∙ and_true (status_eq r.status split) r.quantity in
      ap (λ b. sum (if b then add_leaf r e else e)) selects
      ∙ step_in r e r.status refl status
      ∙ ap (λ x. sum e +ℤ x) (sym weighs)
  | inr other ↦
      let away : r.id == root.id ≡ false = ground (arith, h) in
      let passes : is_leaf_of root r ≡ false = unfold is_leaf_of in ground arith in
      let weighs : leaf_weight root.id r ≡ pos 0 = ground arith in
      ap (λ b. sum (if b then add_leaf r e else e)) passes
      ∙ sym (+ℤ_zero (sum e))
      ∙ ap (λ x. sum e +ℤ x) (sym weighs)
]
  where
    and_true :
        (b : Bool) (n : ℤ) → (if not b && true then n else pos 0) ≡ (if not b then n else pos 0)
    and_true true n = refl
    and_true false n = refl

sum-add_leaves :
    (root : Receipt) (rs : List Receipt) (e : Encumbrance)
    → All (λ r. r.is_parent ≡ status_eq r.status split) rs
    → All (λ r. is_covered root r ≡ true) rs
    → sum (add_leaves root rs e) ≡ sum e +ℤ total (leaf_weight root.id) rs
unfolding add_leaves total
sum-add_leaves root [] e flags h = sym (+ℤ_zero (sum e))
sum-add_leaves root (r ∷ rs) e (flag, flags) (h, hs) =
    let rest = sum-add_leaves root rs (if is_leaf_of root r then add_leaf r e else e) flags hs in
    let first = step root r e flag h in omega (int_laws, rest, first)

root_weight_fresh : (id : ℕ) (rs : List Receipt) → IsFresh id rs → total (root_weight id) rs ≡ pos 0
unfolding total
root_weight_fresh id [] h = refl
root_weight_fresh id (r ∷ rs) h =
    ap (λ t. t +ℤ total (root_weight id) rs) (no_weight r h.0)
    ∙ ap (λ t. pos 0 +ℤ t) (root_weight_fresh id rs h.1)
    ∙ +ℤ_zero (pos 0)
  where
    no_weight : (x : Receipt) → (x.id == id) ≡ false → root_weight id x ≡ pos 0
    no_weight x e = ground arith

flags_of :
    (column : ℤ → ℤ) (rs : List Receipt)
    → All (IsGoodRow column) rs
    → All (λ r. r.is_parent ≡ status_eq r.status split) rs
flags_of column [] h = tt
flags_of column (r ∷ rs) h = (h.0.flag, flags_of column rs h.1)

-- The loop writes only the three sums.
total_kept :
    (root : Receipt) (rs : List Receipt) (e : Encumbrance)
    → (add_leaves root rs e).total_quantity ≡ e.total_quantity
unfolding add_leaves
total_kept root [] e = refl
total_kept root (r ∷ rs) e =
    total_kept root rs (if is_leaf_of root r then add_leaf r e else e) ∙ one (is_leaf_of root r)
  where
    one : (b : Bool) → (if b then add_leaf r e else e).total_quantity ≡ e.total_quantity
    one false = refl
    one true = unfold add_leaf in ground arith

-- A row without a parent is all that its tree weighs at the root.
root_weight_found :
    (id : ℕ) (rs : List Receipt) {p : Receipt}
    → UniqueIds rs
    → find_unique id rs ≡ some p
    → p.parent_receipt_id ≡ none
    → total (root_weight id) rs ≡ p.quantity
unfolding total find_unique
root_weight_found id [] u h top = cc
root_weight_found id (r ∷ rs) {p} (fresh, u) h top = elim (Bool-cases (r.id == id)) [
  | inl same ↦
      let e : r.id ≡ id = (==_iff r.id id).0 same in
      let is : r ≡ p = ground (arith, h) in
      let weight : root_weight id r ≡ p.quantity =
        rw (ap (λ x. x.parent_receipt_id) is, top, same) (ap (λ x. x.quantity) is) in
      cc (weight, root_weight_fresh id rs (subst (λ k. IsFresh k rs) e fresh), +ℤ_zero p.quantity)
  | inr other ↦
      let none_here : root_weight id r ≡ pos 0 = ground arith in
      let rest = root_weight_found id rs {p = p} u (ground (arith, h)) top in
      cc (none_here, rest, zero-+ℤ p.quantity)
]

-- On a balanced table, for a root (a row that has no parent) whose tree lies in one tenant and has only
-- leaves that are ACTIVE, under a pending pledge or under a lien: what `getReceiptEncumbrance` reports as
-- available, as pledged and as liened sums up to the total quantity that it reports.
pub encumbrance_of-total :
    (column : ℤ → ℤ) (table : List Receipt) (root : Receipt)
    → IsBalanced column table
    → find_unique root.id table ≡ some root
    → root.parent_receipt_id ≡ none
    → All (λ r. is_covered root r ≡ true) table
    → (encumbrance_of root table).available
        +ℤ (encumbrance_of root table).pledge_pending
        +ℤ (encumbrance_of root table).liened
      ≡ (encumbrance_of root table).total_quantity
unfolding encumbrance_of
encumbrance_of-total column table root b found top covered =
    let start : Encumbrance = record {
      total_quantity = root.quantity;
      available = pos 0;
      pledge_pending = pos 0;
      liened = pos 0;
    } in
    sum-add_leaves root table start (flags_of column table b.rows) covered
    ∙ ap (λ x. sum start +ℤ x)
        (b.leaves root.id ∙ root_weight_found root.id table b.unique found top)
    ∙ zeros root.quantity
    ∙ sym (total_kept root table start)
  where
    zeros : (n : ℤ) → pos 0 +ℤ pos 0 +ℤ pos 0 +ℤ n ≡ n
    zeros n = omega int_laws
