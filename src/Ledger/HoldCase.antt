-- ===== src/Ledger/HoldCase.antt =====
-- The case in which `hold` is granted, with what it returns and writes.
use secure_store_backend.Prelude.{
  ℕ, Text, ◌≡◌, Bool, true, false, none, some, List, [], ◌∷◌, ◌++◌, ◌==◌, if◌then◌else◌,
}
use secure_store_backend.Prelude.Int.{pos, ◌-ℤ◌, leb_ℤ, ltb_ℤ}
use secure_store_backend.Receipt.{
  Receipt, InventoryEvent, InventoryEventType, ReceiptStatus, ApprovalStatus, status_eq,
  approval_eq, split, held_status,
}
use secure_store_backend.Store.{Db, find_first, modify, find_event}
use secure_store_backend.Store.Totals.{IsFresh, UniqueIds}
use secure_store_backend.Suffix.{
  base_receipt_number, next_suffix, existing_child_suffixes, child_number,
}
use secure_store_backend.Ledger.Call.{Call, ActorCtx, event_row}
use secure_store_backend.Ledger.Rows.{event_of}
use secure_store_backend.Ledger.Partition.{child_of, superseded}
use secure_store_backend.Ledger.Hold.{HoldInput, HoldResult}

-- No event has the id.
abbrev pub EventIsFree : ℕ → List InventoryEvent → Type 0
EventIsFree id [] = Unit
EventIsFree id (e ∷ es) = ((e.id == id) ≡ false) × EventIsFree id es

-- The conditions: the row is an ACTIVE, APPROVED leaf of the tenant, the quantity is positive and at most
-- the row's, the key is new, the supplied ids are new, and the database aborts no attempt.
pub record IsReady (c : Call) (a : ActorCtx) (input : HoldInput) (d : Db) (s : Receipt)
    : Type 0 where
  pub found : find_first input.source_receipt_id a.tenant_id d.receipts ≡ some s
  pub active : status_eq s.status ReceiptStatus.active ≡ true
  pub approved : approval_eq s.approval_status ApprovalStatus.approved ≡ true
  pub leaf : s.is_parent ≡ false
  pub positive : leb_ℤ input.quantity (pos 0) ≡ false
  pub fits : ltb_ℤ s.quantity input.quantity ≡ false
  pub new_key : find_event a.idempotency_key d.events ≡ none
  pub new_event : EventIsFree c.event_id d.events
  pub new_held : IsFresh c.receipt_id d.receipts
  pub new_remainder : IsFresh c.remainder_id d.receipts
  pub two_ids : (c.receipt_id == c.remainder_id) ≡ false
  pub unique : UniqueIds d.receipts
  pub calm : c.aborted ≡ []

module _ (c : Call) (a : ActorCtx) (input : HoldInput) (s : Receipt) where
  abbrev pub hold_event : InventoryEvent
  hold_event =
      event_row c.column c.event_id
        (record (event_of a s InventoryEventType.hold_placed (some input.txn_type)
          (some input.txn_id) none input.metadata) { quantity = input.quantity })

  abbrev pub first_suffix : List Receipt → Text
  first_suffix rs = next_suffix (existing_child_suffixes (base_receipt_number s.receipt_number) rs)

  -- The held child: the quantity asked for, under the hold's status, awaiting approval.
  abbrev pub held_row : List Receipt → Receipt
  held_row rs =
      child_of s c.receipt_id
        (child_number (base_receipt_number s.receipt_number) (first_suffix rs))
        (held_status input.held_status) (c.column input.quantity) s.client_id ApprovalStatus.pending
        (some input.txn_type) (some input.txn_id) c.event_id

  -- The ACTIVE child with the rest.
  abbrev pub remainder_row : List Receipt → Receipt
  remainder_row rs =
      child_of s c.remainder_id
        (child_number (base_receipt_number s.receipt_number) (
          next_suffix (
            existing_child_suffixes (base_receipt_number s.receipt_number) rs
            ++ first_suffix rs ∷ [])))
        ReceiptStatus.active (c.column (s.quantity -ℤ input.quantity)) s.client_id
        ApprovalStatus.approved none none c.event_id

  -- Is the whole row held?
  abbrev pub takes_all : Bool
  takes_all = leb_ℤ (s.quantity -ℤ input.quantity) (pos 0)

  abbrev pub children_of : List Receipt → List Receipt
  children_of rs = held_row rs ∷ (if takes_all then [] else remainder_row rs ∷ [])

  abbrev pub held_result : List Receipt → HoldResult
  held_result rs = record {
    source = record s { status = split; is_parent = true };
    held = held_row rs;
    remainder = if takes_all then none else some (remainder_row rs);
  }

  abbrev pub held_tables : Db → Db
  held_tables d = record d {
    receipts = modify s.id (superseded c.now) (d.receipts ++ children_of d.receipts);
    events = d.events ++ hold_event ∷ [];
  }
