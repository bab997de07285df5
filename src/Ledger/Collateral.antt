-- ===== src/Ledger/Collateral.antt =====
-- `releasePartial`, `seize` and `transferAndRelease` of inventory-ledger.service.ts.
use secure_store_backend.Prelude.{ℕ, Text, codes, not, ◌||◌, Option, none, some, [], ◌∷◌, ◌++◌}
use secure_store_backend.Prelude.Int.{ℤ, pos, ◌-ℤ◌, leb_ℤ}
use secure_store_backend.Receipt.{
  Receipt, InventoryEvent, InventoryEventType, TxnType, Metadata, ReceiptStatus, ApprovalStatus,
  status_eq, financier_user, from_to, held_loan, held_lien,
}
use secure_store_backend.Store.{
  Tx, ◌>>=◌, ◌>>◌, pure, throw_if, insufficient_quantity, invalid_state_transition, load_or_throw,
  create_receipt, update_receipt,
}
use secure_store_backend.Suffix.{base_receipt_number, next_suffix, child_number}
use secure_store_backend.Transaction.{with_serializable_tx, run_idempotent}
use secure_store_backend.Ledger.Call.{
  Call, ActorCtx, event, lock_receipt_for_update, by_event, affected, assert_held,
}
use secure_store_backend.Ledger.Rows.{event_of, method, require_status}
use secure_store_backend.Ledger.Partition.{child_of, superseded, Primary, partition, read_suffixes}
use secure_store_backend.Ledger.Hold.{find_receipt, as_receipt}

-- `releasePartial`: the columns that it copies from the source, unlike `partition`.
unfoldable pub release_partial_work :
    Call
    → ActorCtx
    → (held_receipt_id : ℕ) (release_quantity : ℤ) (release_request_id : ℕ) → Option Metadata
    → Tx (Receipt × Receipt)
release_partial_work c a id qty request_id metadata = do
  lock_receipt_for_update id a.tenant_id
  src ← load_or_throw id a.tenant_id
  throw_if (not (status_eq src.status held_lien)) (invalid_state_transition src.id src.status)
  throw_if (leb_ℤ qty (pos 0)) (insufficient_quantity qty (pos 0))
  throw_if (leb_ℤ src.quantity qty) (insufficient_quantity qty src.quantity)
  ev ←
      event c c.event_id
        (record (event_of a src InventoryEventType.hold_released (some TxnType.pledge)
          (some request_id) none metadata) { quantity = qty })
  let base = base_receipt_number src.receipt_number
  taken ← read_suffixes base
  let primary_suffix = next_suffix taken
  released ← create_receipt (
      child_of src c.receipt_id (child_number base primary_suffix) ReceiptStatus.active
        (c.column qty) src.client_id ApprovalStatus.approved none none ev.id)
  remaining_held ← create_receipt (
      child_of src c.remainder_id (child_number base (next_suffix (taken ++ primary_suffix ∷ [])))
        held_lien (c.column (src.quantity -ℤ qty)) src.client_id src.approval_status
        src.source_txn_type src.source_txn_id ev.id)
  update_receipt src.id (superseded c.now)
  pure (released, remaining_held)

unfoldable pub reconstruct_release_partial : InventoryEvent → Tx (Receipt × Receipt)
unfolding find_receipt
reconstruct_release_partial e = do
  kids ← by_event e
  released ← as_receipt (find_receipt (λ k. status_eq k.status ReceiptStatus.active) kids)
  remaining_held ← as_receipt (find_receipt (λ k. status_eq k.status held_lien) kids)
  pure (released, remaining_held)

-- `releasePartial`
unfoldable pub release_partial :
    Call
    → ActorCtx
    → (held_receipt_id : ℕ) (release_quantity : ℤ) (release_request_id : ℕ) → Option Metadata
    → Tx (Receipt × Receipt)
unfolding release_partial_work reconstruct_release_partial
release_partial c a id qty request_id metadata =
    run_idempotent a.idempotency_key reconstruct_release_partial
      (with_serializable_tx c.aborted (release_partial_work c a id qty request_id metadata))

abbrev pub seized_primary : ℕ → Receipt → Primary
seized_primary financier r = record {
  status = ReceiptStatus.seized;
  approval_status = ApprovalStatus.approved;
  client_id = financier;
  source_txn_type = some TxnType.loan;
  source_txn_id = r.source_txn_id;
}

-- the two ways of a seizure: the whole row, or a part of it
unfoldable pub seize_row :
    Call → Receipt → (financier : ℕ) (event_id : ℕ) → Option ℤ → Tx (Receipt × Option Receipt)
seize_row c r financier event_id none = do
  seized ←
      update_receipt r.id (λ x. record x { status = ReceiptStatus.seized; client_id = financier })
  pure (seized, none)
seize_row c r financier event_id (some pq) = do
  throw_if (leb_ℤ pq (pos 0) || leb_ℤ r.quantity pq) (insufficient_quantity pq r.quantity)
  partition c r pq (seized_primary financier r) event_id

unfoldable pub seize_work :
    Call
    → ActorCtx
    → (held_loan_receipt_id financier : ℕ) → Option ℤ
    → Tx (Receipt × Option Receipt)
unfolding seize_row
seize_work c a id financier partial_quantity = do
  lock_receipt_for_update id a.tenant_id
  r ← load_or_throw id a.tenant_id
  require_status held_loan r
  ev ← event c c.event_id (
      event_of a r InventoryEventType.seized (some TxnType.loan) r.source_txn_id none
        (some (financier_user financier)))
  seize_row c r financier ev.id partial_quantity

-- no kids: the row itself was seized
unfoldable pub reconstruct_seize : InventoryEvent → Tx (Receipt × Option Receipt)
unfolding find_receipt
reconstruct_seize e = do
  kids ← by_event e
  elim kids [
    | [] ↦ affected e >>= λ r. pure (r, none)
    | k ∷ ks ↦
        as_receipt (find_receipt (λ x. status_eq x.status ReceiptStatus.seized) (k ∷ ks))
        >>= λ seized.
            pure (seized, find_receipt (λ x. status_eq x.status ReceiptStatus.active) (k ∷ ks))
  ]

-- `seize`
unfoldable pub seize :
    Call
    → ActorCtx
    → (held_loan_receipt_id financier : ℕ) → Option ℤ
    → Tx (Receipt × Option Receipt)
unfolding seize_work reconstruct_seize
seize c a id financier partial_quantity =
    run_idempotent a.idempotency_key reconstruct_seize
      (with_serializable_tx c.aborted (seize_work c a id financier partial_quantity))

-- `:release` behind the key of the first event
abbrev pub release_key : Text → Text
release_key key = key ++ codes ":release"

-- `transferAndRelease`; `within_tx` is the caller's work in the same transaction.
unfoldable pub transfer_and_release_work :
    Call
    → ActorCtx
    → (held_receipt_id new_owner : ℕ) → TxnType
    → (txn_id : ℕ) → (within_tx : Receipt → Tx (Unit {0})) → Tx Receipt
transfer_and_release_work c a id new_owner txn_type txn_id within_tx = do
  lock_receipt_for_update id a.tenant_id
  r ← load_or_throw id a.tenant_id
  assert_held r
  event c c.event_id (
      event_of a r InventoryEventType.ownership_transferred (some txn_type) (some txn_id) none
        (some (from_to r.client_id new_owner)))
  event c c.second_event_id
      (record (event_of a r InventoryEventType.hold_released (some txn_type) (some txn_id)
        r.source_event_id none) { idempotency_key = release_key a.idempotency_key })
  updated ← update_receipt r.id (λ x. record x {
    client_id = new_owner;
    status = ReceiptStatus.active;
    approval_status = ApprovalStatus.approved;
  })
  within_tx updated
  pure updated

-- `transferAndRelease`
unfoldable pub transfer_and_release :
    Call
    → ActorCtx
    → (held_receipt_id new_owner : ℕ) → TxnType
    → (txn_id : ℕ) → (within_tx : Receipt → Tx (Unit {0})) → Tx Receipt
unfolding transfer_and_release_work
transfer_and_release c a id new_owner txn_type txn_id within_tx =
    method c a (transfer_and_release_work c a id new_owner txn_type txn_id within_tx)
