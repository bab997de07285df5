-- ===== src/Ledger/Rows.antt =====
-- The methods of the ledger that log one event and rewrite one row: `approveReceipt`,
-- `rejectReceipt`, `approveHold`, `release`, `consume`, `transitionPledgeToLien`,
-- `transferOwnership`, `expire`.
use secure_store_backend.Prelude.{ℕ, Text, not, Option, none, some, [], ◌∷◌}
use secure_store_backend.Receipt.{
  Receipt, InventoryEventType, TxnType, Metadata, ReceiptStatus, ApprovalStatus, status_eq,
  approval_eq, reason, from_to, pending_approval, held_pledge_pending, held_lien, withdrawn,
}
use secure_store_backend.Store.{
  ok, Tx, ◌>>=◌, ◌>>◌, throw_if, invalid_state_transition, not_awaiting_approval, load_or_throw,
  update_receipt,
}
use secure_store_backend.Transaction.{with_serializable_tx, run_idempotent}
use secure_store_backend.Ledger.Call.{
  Call, ActorCtx, EventData, event, lock_receipt_for_update, affected, assert_held,
}

-- `a ?? b`
abbrev or_else {ℓ} : {A : Type ℓ} → Option A → Option A → Option A
or_else none b = b
or_else (some a) b = some a

-- The body that these methods share: lock and load the row, check it, log the event, write the row.
unfoldable pub rewrite_row :
    Call
    → (id tenant_id : ℕ) → (Receipt → Tx (Unit {0}))
    → (Receipt → EventData)
    → (Receipt → Receipt)
    → Tx Receipt
rewrite_row c id tenant_id check data_of write = do
  lock_receipt_for_update id tenant_id
  r ← load_or_throw id tenant_id
  check r
  event c c.event_id (data_of r)
  update_receipt r.id write

-- a status that must be the literal
abbrev pub require_status : ReceiptStatus → Receipt → Tx (Unit {0})
require_status s r = throw_if (not (status_eq r.status s)) (invalid_state_transition r.id r.status)

-- the event of a row that is not split, with its quantity and its lineage
abbrev pub event_of :
    ActorCtx
    → Receipt
    → InventoryEventType
    → Option TxnType
    → Option ℕ
    → Option ℕ
    → Option Metadata
    → EventData
event_of a r type txn_type txn_id reversal metadata = record {
  tenant_id = a.tenant_id;
  root_receipt_id = r.root_receipt_id;
  from_receipt_id = r.id;
  event_type = type;
  quantity = r.quantity;
  txn_type = txn_type;
  txn_id = txn_id;
  actor_user_id = a.actor_user_id;
  idempotency_key = a.idempotency_key;
  reversal_of_event_id = reversal;
  metadata = metadata;
}

-- A method: idempotent, in a serializable transaction.
abbrev pub method : Call → ActorCtx → Tx Receipt → Tx Receipt
method c a work = run_idempotent a.idempotency_key affected (with_serializable_tx c.aborted work)

abbrev pub approve_receipt_work : Call → ActorCtx → ℕ → Option Text → Option Text → Tx Receipt
approve_receipt_work c a id computed_grade grading_scores =
    rewrite_row c id a.tenant_id (require_status pending_approval)
      (λ r. event_of a r InventoryEventType.approved (some TxnType.deposit) none none none)
      (λ r. record r {
        status = ReceiptStatus.active;
        approval_status = ApprovalStatus.approved;
        approved_by_id = a.actor_user_id;
        approved_at = some c.now;
        computed_grade = or_else computed_grade r.computed_grade;
        grading_scores = or_else grading_scores r.grading_scores;
      })

-- `approveReceipt`
unfoldable pub approve_receipt : Call → ActorCtx → ℕ → Option Text → Option Text → Tx Receipt
unfolding rewrite_row
approve_receipt c a id computed_grade grading_scores =
    method c a (approve_receipt_work c a id computed_grade grading_scores)

abbrev pub reject_receipt_work : Call → ActorCtx → ℕ → Text → Tx Receipt
reject_receipt_work c a id why =
    rewrite_row c id a.tenant_id (require_status pending_approval)
      (λ r.
        event_of a r InventoryEventType.rejected (some TxnType.deposit) none none
          (some (reason why)))
      (λ r. record r {
        status = ReceiptStatus.cancelled;
        approval_status = ApprovalStatus.rejected;
        rejection_reason = some why;
        approved_by_id = a.actor_user_id;
        approved_at = some c.now;
      })

-- `rejectReceipt`
unfoldable pub reject_receipt : Call → ActorCtx → ℕ → Text → Tx Receipt
unfolding rewrite_row
reject_receipt c a id why = method c a (reject_receipt_work c a id why)

abbrev pub require_pending_hold : Receipt → Tx (Unit {0})
require_pending_hold r = do
  assert_held r
  throw_if (not (approval_eq r.approval_status ApprovalStatus.pending))
      (not_awaiting_approval r.id r.approval_status)

abbrev pub approve_hold_work : Call → ActorCtx → ℕ → Tx Receipt
approve_hold_work c a id =
    rewrite_row c id a.tenant_id require_pending_hold
      (λ r. event_of a r InventoryEventType.approved r.source_txn_type r.source_txn_id none none)
      (λ r. record r {
        approval_status = ApprovalStatus.approved;
        approved_by_id = a.actor_user_id;
        approved_at = some c.now;
      })

-- `approveHold`
unfoldable pub approve_hold : Call → ActorCtx → ℕ → Tx Receipt
unfolding rewrite_row
approve_hold c a id = method c a (approve_hold_work c a id)

-- `args.reason ? { reason: args.reason } : undefined`
abbrev reason_metadata : Option Text → Option Metadata
reason_metadata none = none
reason_metadata (some []) = none
reason_metadata (some (c ∷ cs)) = some (reason (c ∷ cs))

abbrev pub release_work : Call → ActorCtx → ℕ → Option Text → Tx Receipt
release_work c a id why =
    rewrite_row c id a.tenant_id assert_held
      (λ r.
        event_of a r InventoryEventType.hold_released r.source_txn_type r.source_txn_id
          r.source_event_id (reason_metadata why))
      (λ r. record r { status = ReceiptStatus.active; approval_status = ApprovalStatus.approved })

-- `release`
unfoldable pub release : Call → ActorCtx → ℕ → Option Text → Tx Receipt
unfolding rewrite_row
release c a id why = method c a (release_work c a id why)

abbrev pub consume_work : Call → ActorCtx → ℕ → Tx Receipt
consume_work c a id =
    rewrite_row c id a.tenant_id assert_held
      (λ r. event_of a r InventoryEventType.consumed r.source_txn_type r.source_txn_id none none)
      (λ r. record r { status = withdrawn })

-- `consume`
unfoldable pub consume : Call → ActorCtx → ℕ → Tx Receipt
unfolding rewrite_row
consume c a id = method c a (consume_work c a id)

abbrev pub transition_pledge_to_lien_work : Call → ActorCtx → ℕ → ℕ → Option Metadata → Tx Receipt
transition_pledge_to_lien_work c a id pledge_id metadata =
    rewrite_row c id a.tenant_id (require_status held_pledge_pending)
      (λ r.
        event_of a r InventoryEventType.pledge_accepted (some TxnType.pledge) (some pledge_id) none
          metadata)
      (λ r. record r { status = held_lien })

-- `transitionPledgeToLien`
unfoldable pub transition_pledge_to_lien : Call → ActorCtx → ℕ → ℕ → Option Metadata → Tx Receipt
unfolding rewrite_row
transition_pledge_to_lien c a id pledge_id metadata =
    method c a (transition_pledge_to_lien_work c a id pledge_id metadata)

abbrev pub transfer_ownership_work : Call → ActorCtx → ℕ → ℕ → TxnType → ℕ → Tx Receipt
transfer_ownership_work c a id new_owner txn_type txn_id =
    rewrite_row c id a.tenant_id (λ r d. (ok tt, d))
      (λ r.
        event_of a r InventoryEventType.ownership_transferred (some txn_type) (some txn_id) none
          (some (from_to r.client_id new_owner)))
      (λ r. record r { client_id = new_owner })

-- `transferOwnership`
unfoldable pub transfer_ownership : Call → ActorCtx → ℕ → ℕ → TxnType → ℕ → Tx Receipt
unfolding rewrite_row
transfer_ownership c a id new_owner txn_type txn_id =
    method c a (transfer_ownership_work c a id new_owner txn_type txn_id)

abbrev pub expire_work : Call → ActorCtx → ℕ → Tx Receipt
expire_work c a id =
    rewrite_row c id a.tenant_id (require_status ReceiptStatus.active)
      (λ r. event_of a r InventoryEventType.expired none none none none)
      (λ r. record r { status = ReceiptStatus.expired })

-- `expire`
unfoldable pub expire : Call → ActorCtx → ℕ → Tx Receipt
unfolding rewrite_row
expire c a id = method c a (expire_work c a id)
