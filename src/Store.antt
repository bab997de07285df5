-- ===== src/Store.antt =====
-- The tables of the ledger, the errors it throws, and a database transaction as an action that
-- returns the tables beside the result or the error (inventory.types.ts, inventory.tx.ts, and the
-- calls of the Prisma client that inventory-ledger.service.ts makes).
pub mod Totals
pub mod Modify
pub mod Ensures
pub mod Runs
use secure_store_backend.Prelude.{
  ℕ, Text, text_eq, Bool, true, false, ◌&&◌, ◌||◌, Option, none, some, List, [], ◌∷◌, ◌++◌, ◌==◌,
  if◌then◌else◌,
}
use secure_store_backend.Prelude.Int.{ℤ}
use secure_store_backend.Receipt.{Receipt, InventoryEvent, ReceiptStatus, ApprovalStatus}

pub data TradeStatus : Type 0 where
  listed pending_settlement settled cancelled : TradeStatus

pub record Trade : Type 0 where
  pub id : ℕ
  pub reference : Text
  pub tenant_id : ℕ
  pub receipt_id : ℕ
  pub seller_id : ℕ
  pub buyer_id : Option ℕ
  pub quantity : ℤ
  pub price_per_unit : ℤ
  pub total_price : ℤ
  pub status : TradeStatus
  pub settled_at : Option ℕ

-- The tables that a transaction of the ledger can write: its two, and the trades, whose rows the caller
-- of `transferAndRelease` writes within it.
pub record Db : Type 0 where
  pub receipts : List Receipt
  pub events : List InventoryEvent
  pub trades : List Trade

abbrev pub empty : Db
empty = record { receipts = []; events = []; trades = [] }

-- The exceptions, with the values that their messages show. `unique_violation` is Prisma's P2002,
-- `record_missing` its P2025, `serialization_failure` the database's 40001 or 40P01, `trade_conflict` what
-- the caller of `transferAndRelease` throws within the transaction.
pub data Error : Type 0 where
  receipt_not_found : ℕ → Error
  receipt_not_transactable : ℕ → ReceiptStatus → ApprovalStatus → Error
  insufficient_quantity : ℤ → ℤ → Error
  invalid_state_transition : ℕ → ReceiptStatus → Error
  not_awaiting_approval : ℕ → ApprovalStatus → Error
  unique_violation record_missing serialization_failure trade_conflict : Error

pub data Result {ℓ} (A : Type ℓ) : Type ℓ where
  ok : A → Result A
  err : Error → Result A

abbrev pub Tx {ℓ} : Type ℓ → Type ℓ
Tx A = Db → Result A × Db

abbrev pub pure {ℓ} : {A : Type ℓ} → A → Tx A
pure a d = (ok a, d)

abbrev pub throw {ℓ} : {A : Type ℓ} → Error → Tx A
throw e d = (err e, d)

abbrev pub continue : {A B : Type 0} → Result A → (A → Tx B) → Tx B
continue (ok a) f d = f a d
continue (err e) f d = (err e, d)

infixl 5 ◌>>=◌ ◌>>◌
abbrev pub ◌>>=◌ : {A B : Type 0} → Tx A → (A → Tx B) → Tx B
◌>>=◌ m f d = let (r, d') = m d in continue r f d'

abbrev pub ◌>>◌ : {A B : Type 0} → Tx A → Tx B → Tx B
m >> k = m >>= λ _. k

-- `if (bad) throw e`
abbrev pub throw_if : Bool → Error → Tx (Unit {0})
throw_if true e = throw e
throw_if false e = pure tt

-- The receipt that has the id, in the tenant.
unfoldable pub find_first : ℕ → ℕ → List Receipt → Option Receipt
find_first id tenant_id [] = none
find_first id tenant_id (r ∷ rs) =
    if r.id == id && r.tenant_id == tenant_id then some r else find_first id tenant_id rs

-- `findUnique` on the id
unfoldable pub find_unique : ℕ → List Receipt → Option Receipt
find_unique id [] = none
find_unique id (r ∷ rs) = if r.id == id then some r else find_unique id rs

-- The columns that are unique: the id and the receipt number.
unfoldable pub clashes : Receipt → List Receipt → Bool
clashes new [] = false
clashes new (r ∷ rs) =
    r.id == new.id || text_eq r.receipt_number new.receipt_number || clashes new rs

unfoldable pub event_clashes : InventoryEvent → List InventoryEvent → Bool
event_clashes new [] = false
event_clashes new (e ∷ es) =
    e.id == new.id || text_eq e.idempotency_key new.idempotency_key || event_clashes new es

-- The rows with the id, changed.
unfoldable pub modify : ℕ → (Receipt → Receipt) → List Receipt → List Receipt
modify id f [] = []
modify id f (r ∷ rs) = (if r.id == id then f r else r) ∷ modify id f rs

-- `findUnique` on the idempotency key
unfoldable pub find_event : Text → List InventoryEvent → Option InventoryEvent
find_event key [] = none
find_event key (e ∷ es) = if text_eq e.idempotency_key key then some e else find_event key es

abbrev pub has_id : ℕ → Option ℕ → Bool
has_id id none = false
has_id id (some j) = j == id

-- `findMany` on the source event
unfoldable pub with_source_event : ℕ → List Receipt → List Receipt
with_source_event id [] = []
with_source_event id (r ∷ rs) =
    let rest = with_source_event id rs in if has_id id r.source_event_id then r ∷ rest else rest

-- `loadOrThrow`
unfoldable pub load_or_throw : ℕ → ℕ → Tx Receipt
load_or_throw id tenant_id d = elim (find_first id tenant_id d.receipts) [
  | none ↦ (err (receipt_not_found id), d)
  | some r ↦ (ok r, d)
]

-- `tx.receipt.create`: the row as it is stored, or the violation of a unique column.
unfoldable pub create_receipt : Receipt → Tx Receipt
create_receipt r d =
    if clashes r d.receipts
    then (err unique_violation, d)
    else (ok r, record d { receipts = d.receipts ++ r ∷ [] })

-- `tx.inventoryEvent.create`
unfoldable pub create_event : InventoryEvent → Tx InventoryEvent
create_event e d =
    if event_clashes e d.events
    then (err unique_violation, d)
    else (ok e, record d { events = d.events ++ e ∷ [] })

-- `tx.receipt.update`: the row that has the id, changed; without such a row it throws.
unfoldable pub update_receipt : ℕ → (Receipt → Receipt) → Tx Receipt
update_receipt id f d = elim (find_unique id d.receipts) [
  | none ↦ (err record_missing, d)
  | some r ↦ (ok (f r), record d { receipts = modify id f d.receipts })
]
