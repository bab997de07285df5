-- ===== src/Recon.antt =====
-- The audit `verifyAll` of src/inventory/inventory.recon.ts. The column `root_receipt_id` is not null
-- in the schema, so the count of null roots, the first check, is zero by the type of the column.
pub mod Sound
pub mod Exact
use secure_store_backend.Prelude.{
  ℕ, suc, ◌+◌, Bool, true, false, not, ◌&&◌, ◌||◌, Option, none, some, List, [], ◌∷◌, ◌==◌,
  if◌then◌else◌,
}
use secure_store_backend.Prelude.Int.{ℤ, eq_ℤ}
use secure_store_backend.Receipt.{Receipt}
use secure_store_backend.Store.{has_id}
use secure_store_backend.Store.Totals.{total}
use secure_store_backend.Balance.{child_weight}

-- A line of `failures`: how many parents violate mass conservation.
pub data Failure : Type 0 where
  bad_parents : ℕ → Failure

-- `AND p.tenant_id = …`, if a tenant is given
abbrev pub in_scope : Option ℕ → Receipt → Bool
in_scope none p = true
in_scope (some tenant_id) p = p.tenant_id == tenant_id

-- the inner join: some row has the id for its parent
unfoldable pub has_child : ℕ → List Receipt → Bool
has_child id [] = false
has_child id (r ∷ rs) = has_id id r.parent_receipt_id || has_child id rs

-- A group of the query: a parent in scope with a child, whose quantity is not the sum of its children.
unfoldable pub is_bad_parent : Option ℕ → List Receipt → Receipt → Bool
is_bad_parent scope table p =
    p.is_parent
    && (has_child p.id table
        && (in_scope scope p && not (eq_ℤ p.quantity (total (child_weight p.id) table))))

unfoldable pub count_bad_parents : Option ℕ → List Receipt → List Receipt → ℕ
unfolding is_bad_parent
count_bad_parents scope table [] = 0
count_bad_parents scope table (p ∷ ps) =
    (if is_bad_parent scope table p then 1 else 0) + count_bad_parents scope table ps

abbrev failures_of : ℕ → List Failure
failures_of n = if n == 0 then [] else bad_parents n ∷ []

-- `verifyAll`
unfoldable pub verify_all : Option ℕ → List Receipt → Bool × List Failure
unfolding count_bad_parents
verify_all scope table = let n = count_bad_parents scope table table in (n == 0, failures_of n)
