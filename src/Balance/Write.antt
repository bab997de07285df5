-- ===== src/Balance/Write.antt =====
-- Rewriting one row without touching its place in the tree keeps the table balanced.
use secure_store_backend.Prelude.{ℕ, ◌≡◌, some, List, ap, sym, ◌∙◌}
use secure_store_backend.Prelude.Int.{ℤ, ◌+ℤ◌, +ℤ-right_cancel}
use secure_store_backend.Receipt.{Receipt}
use secure_store_backend.Store.{find_unique, modify}
use secure_store_backend.Store.Totals.{UniqueIds, total, total-modify}
use secure_store_backend.Store.Modify.{UniqueIds-modify, All-modify}
use secure_store_backend.Balance.{
  leaf_weight, root_weight, child_weight, split_weight, IsGoodRow, IsBalanced,
}

-- The place of a row in its tree, and what it holds.
pub record SameNode (r s : Receipt) : Type 0 where
  pub id : s.id ≡ r.id
  pub quantity : s.quantity ≡ r.quantity
  pub root : s.root_receipt_id ≡ r.root_receipt_id
  pub parent : s.parent_receipt_id ≡ r.parent_receipt_id
  pub flag : s.is_parent ≡ r.is_parent

module _ (id : ℕ) (f : Receipt → Receipt) (rs : List Receipt) {r : Receipt} (u : UniqueIds rs)
    (found : find_unique id rs ≡ some r) where
  pub total-modify_same : (w : Receipt → ℤ) → w (f r) ≡ w r → total w (modify id f rs) ≡ total w rs
  total-modify_same w same =
      +ℤ-right_cancel _ _ (w r) (total-modify w id f rs u found ∙ ap (λ x. total w rs +ℤ x) same)

module _ {column : ℤ → ℤ} where
  -- A write that keeps every row's id and the found row's node, and leaves a good row.
  pub modify-IsBalanced :
      (id : ℕ) (f : Receipt → Receipt) (rs : List Receipt) {r : Receipt}
      → ((x : Receipt) → SameNode x (f x))
      → IsBalanced column rs
      → find_unique id rs ≡ some r
      → IsGoodRow column (f r)
      → IsBalanced column (modify id f rs)
  modify-IsBalanced id f rs {r} node b found good = record {
    unique = UniqueIds-modify id f (λ x. (node x).id) rs b.unique;
    rows = All-modify (IsGoodRow column) id f rs b.unique b.rows found good;
    leaves = λ root.
        total-modify_same id f rs b.unique found (leaf_weight root) (same_leaf root)
        ∙ b.leaves root
        ∙ sym (total-modify_same id f rs b.unique found (root_weight root) (same_root root));
    children = λ k.
        total-modify_same id f rs b.unique found (child_weight k) (same_child k)
        ∙ b.children k
        ∙ sym (total-modify_same id f rs b.unique found (split_weight k) (same_split k));
  }
    where
      n : SameNode r (f r)
      n = node r

      same_leaf : (root : ℕ) → leaf_weight root (f r) ≡ leaf_weight root r
      same_leaf root = rw (n.flag, n.root, n.quantity)

      same_root : (root : ℕ) → root_weight root (f r) ≡ root_weight root r
      same_root root = rw (n.parent, n.id, n.quantity)

      same_child : (k : ℕ) → child_weight k (f r) ≡ child_weight k r
      same_child k = rw (n.parent, n.quantity)

      same_split : (k : ℕ) → split_weight k (f r) ≡ split_weight k r
      same_split k = rw (n.flag, n.id, n.quantity)
