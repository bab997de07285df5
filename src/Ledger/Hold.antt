-- ===== src/Ledger/Hold.antt =====
-- `hold` of inventory-ledger.service.ts, and its reconstruction on a replayed key.
use secure_store_backend.Prelude.{
  ℕ, Bool, true, not, ◌||◌, Option, none, some, List, [], ◌∷◌, if◌then◌else◌,
}
use secure_store_backend.Prelude.Int.{ℤ, pos, leb_ℤ, ltb_ℤ}
use secure_store_backend.Receipt.{
  Receipt, InventoryEvent, InventoryEventType, TxnType, Metadata, ReceiptStatus, ApprovalStatus,
  HeldStatus, status_eq, approval_eq, includes, held_statuses, held_status, split,
}
use secure_store_backend.Store.{
  Tx, ◌>>=◌, ◌>>◌, pure, throw_if, receipt_not_transactable, insufficient_quantity, load_or_throw,
  record_missing, throw,
}
use secure_store_backend.Transaction.{with_serializable_tx, run_idempotent}
use secure_store_backend.Ledger.Call.{
  Call, ActorCtx, event, lock_receipt_for_update, by_event, affected,
}
use secure_store_backend.Ledger.Rows.{event_of}
use secure_store_backend.Ledger.Partition.{Primary, partition}

-- `HoldResult`; the returned source is `{ ...src, status: 'SPLIT', isParent: true }`.
pub record HoldResult : Type 0 where
  pub source : Receipt
  pub held : Receipt
  pub remainder : Option Receipt

-- The input of `hold`.
pub record HoldInput : Type 0 where
  pub source_receipt_id : ℕ
  pub quantity : ℤ
  pub held_status : HeldStatus
  pub txn_type : TxnType
  pub txn_id : ℕ
  pub metadata : Option Metadata

unfoldable pub check_transactable : Receipt → ℤ → Tx (Unit {0})
check_transactable src qty = do
  throw_if
      (not (status_eq src.status ReceiptStatus.active)
        || not (approval_eq src.approval_status ApprovalStatus.approved))
      (receipt_not_transactable src.id src.status src.approval_status)
  throw_if src.is_parent (receipt_not_transactable src.id split src.approval_status)
  throw_if (leb_ℤ qty (pos 0)) (insufficient_quantity qty (pos 0))
  throw_if (ltb_ℤ src.quantity qty) (insufficient_quantity qty src.quantity)

abbrev pub hold_primary : HoldInput → Receipt → Primary
hold_primary input src = record {
  status = held_status input.held_status;
  approval_status = ApprovalStatus.pending;
  client_id = src.client_id;
  source_txn_type = some input.txn_type;
  source_txn_id = some input.txn_id;
}

unfoldable pub hold_work : Call → ActorCtx → HoldInput → Tx HoldResult
hold_work c a input = do
  lock_receipt_for_update input.source_receipt_id a.tenant_id
  src ← load_or_throw input.source_receipt_id a.tenant_id
  check_transactable src input.quantity
  ev ←
      event c c.event_id
        (record (event_of a src InventoryEventType.hold_placed (some input.txn_type)
          (some input.txn_id) none input.metadata) { quantity = input.quantity })
  (primary, remainder) ← partition c src input.quantity (hold_primary input src) ev.id
  pure (record {
    source = record src { status = split; is_parent = true };
    held = primary;
    remainder = remainder;
  })

-- `kids.find(…)`
unfoldable pub find_receipt : (Receipt → Bool) → List Receipt → Option Receipt
find_receipt p [] = none
find_receipt p (r ∷ rs) = if p r then some r else find_receipt p rs

-- `held as Receipt`: a result that the caller relies on; `undefined` is modelled as a failure.
abbrev pub as_receipt : Option Receipt → Tx Receipt
as_receipt none = throw record_missing
as_receipt (some r) = pure r

unfoldable pub reconstruct_hold : InventoryEvent → Tx HoldResult
unfolding find_receipt
reconstruct_hold e = do
  kids ← by_event e
  source ← affected e
  held ← as_receipt (find_receipt (λ k. includes held_statuses k.status) kids)
  pure (record {
    source = source;
    held = held;
    remainder = find_receipt (λ k. status_eq k.status ReceiptStatus.active) kids;
  })

-- `hold`
unfoldable pub hold : Call → ActorCtx → HoldInput → Tx HoldResult
unfolding hold_work reconstruct_hold
hold c a input =
    run_idempotent a.idempotency_key reconstruct_hold
      (with_serializable_tx c.aborted (hold_work c a input))
