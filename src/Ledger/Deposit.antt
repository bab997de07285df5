-- ===== src/Ledger/Deposit.antt =====
-- `deposit` of inventory-ledger.service.ts: a root row in PENDING_APPROVAL and its genesis event.
use secure_store_backend.Prelude.{ℕ, Text, false, Option, none, some}
use secure_store_backend.Prelude.Int.{ℤ, pos, leb_ℤ}
use secure_store_backend.Receipt.{
  Receipt, InventoryEventType, TxnType, ApprovalStatus, pending_approval,
}
use secure_store_backend.Store.{
  Tx, ◌>>=◌, ◌>>◌, throw_if, insufficient_quantity, create_receipt, update_receipt,
}
use secure_store_backend.Ledger.Call.{Call, ActorCtx, event}
use secure_store_backend.Ledger.Rows.{method}

-- The input of `deposit`.
pub record DepositInput : Type 0 where
  pub client_id : ℕ
  pub commodity_id : ℕ
  pub warehouse_id : ℕ
  pub quantity : ℤ
  pub grade : Option Text
  pub date_of_deposit : ℕ
  pub expiry_date : Option ℕ
  pub receipt_number : Option Text
  pub grading_scores : Option Text

abbrev number_of : Call → Option Text → Text
number_of c none = c.default_number c.receipt_id
number_of c (some number) = number

-- the root row that a deposit creates
unfoldable pub root_row : Call → ActorCtx → DepositInput → Receipt
root_row c a input = record {
  id = c.receipt_id;
  receipt_number = number_of c input.receipt_number;
  status = pending_approval;
  tenant_id = a.tenant_id;
  commodity_id = input.commodity_id;
  quantity = c.column input.quantity;
  grade = input.grade;
  warehouse_id = input.warehouse_id;
  client_id = input.client_id;
  approval_status = ApprovalStatus.pending;
  approved_by_id = none;
  approved_at = none;
  rejection_reason = none;
  grading_scores = input.grading_scores;
  computed_grade = none;
  parent_receipt_id = none;
  root_receipt_id = c.receipt_id;
  is_parent = false;
  superseded_at = none;
  source_txn_type = some TxnType.deposit;
  source_txn_id = none;
  source_event_id = none;
  date_of_deposit = input.date_of_deposit;
  expiry_date = input.expiry_date;
}

unfoldable pub deposit_work : Call → ActorCtx → DepositInput → Tx Receipt
unfolding root_row
deposit_work c a input = do
  create_receipt (root_row c a input)
  ev ← event c c.event_id (record {
    tenant_id = a.tenant_id;
    root_receipt_id = c.receipt_id;
    from_receipt_id = c.receipt_id;
    event_type = InventoryEventType.deposit;
    quantity = input.quantity;
    txn_type = some TxnType.deposit;
    txn_id = none;
    actor_user_id = a.actor_user_id;
    idempotency_key = a.idempotency_key;
    reversal_of_event_id = none;
    metadata = none;
  })
  update_receipt c.receipt_id (λ r. record r { source_event_id = some ev.id })

-- `deposit`: mints a root. The quantity is tested before the key is looked up.
unfoldable pub deposit : Call → ActorCtx → DepositInput → Tx Receipt
unfolding deposit_work
deposit c a input = do
  throw_if (leb_ℤ input.quantity (pos 0)) (insufficient_quantity input.quantity (pos 0))
  method c a (deposit_work c a input)
