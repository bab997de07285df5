-- ===== src/Ledger/Call.antt =====
-- What every method of the ledger uses: the values that the outside supplies, the row of an event,
-- and the readers `loadOrThrow`, `byEvent`, `affected`, with the row lock of inventory.tx.ts.
use secure_store_backend.Prelude.{ℕ, Text, Bool, true, false, Option, none, some, List}
use secure_store_backend.Prelude.Int.{ℤ}
use secure_store_backend.Receipt.{
  Receipt, InventoryEvent, InventoryEventType, TxnType, Metadata, includes, held_statuses,
}
use secure_store_backend.Store.{
  Db, invalid_state_transition, record_missing, ok, Tx, throw, find_first, load_or_throw,
  create_event, with_source_event,
}

-- What one call takes from outside: `column` is the rounding of a quantity when it is stored in a
-- column, then the ids that `randomUUID` and the database give, the clock, the number that a deposit
-- without a number gets from its id, and the aborted attempts of the transaction.
pub record Call : Type 0 where
  pub column : ℤ → ℤ
  pub event_id : ℕ
  pub second_event_id : ℕ
  pub receipt_id : ℕ
  pub remainder_id : ℕ
  pub now : ℕ
  pub default_number : ℕ → Text
  pub aborted : List Db

-- the interface `ActorCtx`
pub record ActorCtx : Type 0 where
  pub tenant_id : ℕ
  pub actor_user_id : Option ℕ
  pub idempotency_key : Text

-- the argument `data` of the method `event`
pub record EventData : Type 0 where
  pub tenant_id : ℕ
  pub root_receipt_id : ℕ
  pub from_receipt_id : ℕ
  pub event_type : InventoryEventType
  pub quantity : ℤ
  pub txn_type : Option TxnType
  pub txn_id : Option ℕ
  pub actor_user_id : Option ℕ
  pub idempotency_key : Text
  pub reversal_of_event_id : Option ℕ
  pub metadata : Option Metadata

unfoldable pub event_row : (ℤ → ℤ) → ℕ → EventData → InventoryEvent
event_row column id e = record {
  id = id;
  tenant_id = e.tenant_id;
  root_receipt_id = e.root_receipt_id;
  from_receipt_id = some e.from_receipt_id;
  event_type = e.event_type;
  txn_type = e.txn_type;
  txn_id = e.txn_id;
  quantity = column e.quantity;
  actor_user_id = e.actor_user_id;
  idempotency_key = e.idempotency_key;
  reversal_of_event_id = e.reversal_of_event_id;
  metadata = e.metadata;
}

-- the method `event`
unfoldable pub event : Call → ℕ → EventData → Tx InventoryEvent
unfolding event_row
event c id e = create_event (event_row c.column id e)

-- `SELECT … FOR UPDATE`: whether the row is there. The callers ignore the answer.
unfoldable pub lock_receipt_for_update : ℕ → ℕ → Tx Bool
lock_receipt_for_update id tenant_id d = elim (find_first id tenant_id d.receipts) [
  | none ↦ (ok false, d)
  | some r ↦ (ok true, d)
]

-- `byEvent`
unfoldable pub by_event : InventoryEvent → Tx (List Receipt)
by_event e d = (ok (with_source_event e.id d.receipts), d)

-- `affected`. The ledger logs no event without a source receipt; a null id fails in the client.
unfoldable pub affected : InventoryEvent → Tx Receipt
affected e = elim e.from_receipt_id [
  | none ↦ throw record_missing
  | some id ↦ load_or_throw id e.tenant_id
]

-- `assertHeld`
unfoldable pub assert_held : Receipt → Tx (Unit {0})
assert_held r = elim (includes held_statuses r.status) [
  | true ↦ λ d. (ok tt, d)
  | false ↦ throw (invalid_state_transition r.id r.status)
]
