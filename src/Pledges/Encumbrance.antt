-- ===== src/Pledges/Encumbrance.antt =====
-- `getReceiptEncumbrance` of src/pledges/pledges.service.ts: the sums over the leaves of a tree. The
-- part on release requests, which is informational, and the lists for the response are left out.
use secure_store_backend.Prelude.{ℕ, Bool, ◌&&◌, ◌||◌, List, [], ◌∷◌, ◌==◌, if◌then◌else◌, not}
use secure_store_backend.Prelude.Int.{ℤ, pos, ◌+ℤ◌}
use secure_store_backend.Receipt.{
  Receipt, ReceiptStatus, status_eq, includes, held_pledge_pending, held_lien, held_withdrawal,
  held_loan, held_trade,
}
use secure_store_backend.Store.{find_unique}
use secure_store_backend.Service.{ask, refuse_if, given, ◌>>=◌, ◌>>◌}
use secure_store_backend.Pledges.{Act, receipt_not_found}

-- The `where` of the query for the leaves.
abbrev pub leaf_statuses : List ReceiptStatus
leaf_statuses =
    ReceiptStatus.active ∷ held_pledge_pending ∷ held_lien ∷ held_withdrawal ∷ held_loan
    ∷ held_trade ∷ []

unfoldable pub is_leaf_of : Receipt → Receipt → Bool
is_leaf_of root r =
    r.tenant_id == root.tenant_id
    && ((r.root_receipt_id == root.id || r.id == root.id) && includes leaf_statuses r.status)

pub record Encumbrance : Type 0 where
  pub total_quantity : ℤ
  pub available : ℤ
  pub pledge_pending : ℤ
  pub liened : ℤ

-- One turn of the loop over the leaves.
unfoldable pub add_leaf : Receipt → Encumbrance → Encumbrance
add_leaf leaf e =
    if status_eq leaf.status ReceiptStatus.active
    then record e { available = e.available +ℤ leaf.quantity }
    else if status_eq leaf.status held_pledge_pending
    then record e { pledge_pending = e.pledge_pending +ℤ leaf.quantity }
    else if status_eq leaf.status held_lien
    then record e { liened = e.liened +ℤ leaf.quantity }
    else e

-- The loop, over the rows that the query selects.
unfoldable pub add_leaves : Receipt → List Receipt → Encumbrance → Encumbrance
unfolding is_leaf_of add_leaf
add_leaves root [] e = e
add_leaves root (r ∷ rs) e = add_leaves root rs (if is_leaf_of root r then add_leaf r e else e)

unfoldable pub encumbrance_of : Receipt → List Receipt → Encumbrance
unfolding add_leaves
encumbrance_of root table = add_leaves root table (record {
  total_quantity = root.quantity;
  available = pos 0;
  pledge_pending = pos 0;
  liened = pos 0;
})

-- `getReceiptEncumbrance`
unfoldable pub get_receipt_encumbrance : ℕ → ℕ → Act Encumbrance
unfolding encumbrance_of
get_receipt_encumbrance caller_id receipt_id = do
  row ← ask (λ w. find_unique receipt_id w.ledger.receipts)
  root ← given row receipt_not_found
  refuse_if (not (root.client_id == caller_id)) receipt_not_found
  ask (λ w. encumbrance_of root w.ledger.receipts)
