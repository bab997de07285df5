-- ===== src/Balance.antt =====
-- The well-formedness of the receipt table that inventory.recon.ts audits: trees whose parents are
-- the sums of their children, and whose roots are the sums of their leaves.
pub mod Write
pub mod Split
pub mod Grow
use secure_store_backend.Prelude.{
  ℕ, ◌≡◌, Bool, true, false, not, ◌&&◌, Option, none, some, List, ◌==◌, if◌then◌else◌,
}
use secure_store_backend.Prelude.Int.{ℤ, pos, ◌-ℤ◌, ◌<ℤ◌}
use secure_store_backend.Receipt.{Receipt, status_eq, split}
use secure_store_backend.Store.{has_id}
use secure_store_backend.Store.Totals.{All, UniqueIds, total}

abbrev pub is_none : Option ℕ → Bool
is_none none = true
is_none (some x) = false

-- What a row counts among the leaves of a tree.
abbrev pub leaf_weight : ℕ → Receipt → ℤ
leaf_weight root r = if not r.is_parent && r.root_receipt_id == root then r.quantity else pos 0

-- What a row counts as the root of a tree.
abbrev pub root_weight : ℕ → Receipt → ℤ
root_weight root r = if is_none r.parent_receipt_id && r.id == root then r.quantity else pos 0

-- What a row counts among the children of a row.
abbrev pub child_weight : ℕ → Receipt → ℤ
child_weight id r = if has_id id r.parent_receipt_id then r.quantity else pos 0

-- What a row counts as the parent that was split.
abbrev pub split_weight : ℕ → Receipt → ℤ
split_weight id r = if r.is_parent && r.id == id then r.quantity else pos 0

-- One row: it is a parent exactly when its status is SPLIT, its quantity is positive, and its quantity
-- is one that the column holds without rounding.
pub record IsGoodRow (column : ℤ → ℤ) (r : Receipt) : Type 0 where
  pub flag : r.is_parent ≡ status_eq r.status split
  pub positive : pos 0 <ℤ r.quantity
  pub stored : column r.quantity ≡ r.quantity

-- The table: ids are unique, every row is good, the leaves of every tree sum up to its root, and the
-- children of every id sum up to the split row of that id (to nothing, where there is none).
pub record IsBalanced (column : ℤ → ℤ) (rs : List Receipt) : Type 0 where
  pub unique : UniqueIds rs
  pub rows : All (IsGoodRow column) rs
  pub leaves : (root : ℕ) → total (leaf_weight root) rs ≡ total (root_weight root) rs
  pub children : (id : ℕ) → total (child_weight id) rs ≡ total (split_weight id) rs

-- The documented behaviour of a NUMERIC column that the proofs rely on: the difference of two values
-- that it holds without rounding is one too.
pub record IsColumn (column : ℤ → ℤ) : Type 0 where
  pub sub_stored : (a b : ℤ) → column a ≡ a → column b ≡ b → column (a -ℤ b) ≡ a -ℤ b
