-- ===== src/Receipt.antt =====
-- src/inventory/inventory.types.ts, and the columns of the models `Receipt` and `InventoryEvent`
-- of prisma/schema.prisma. A uuid is a number of 128 bits, an instant a number of milliseconds, a
-- JSON value its text, and a quantity the count of the smallest decimal unit that a request names.
pub mod Groups
use secure_store_backend.Prelude.{
  ℕ, Text, ◌≡◌, refl, Bool, true, false, ◌&&◌, ◌||◌, Option, List, [], ◌∷◌, ◌++◌, arith, ◌==◌,
  if◌then◌else◌,
}
use secure_store_backend.Prelude.Int.{ℤ}

pub data ReceiptStatus : Type 0 where
  active pending_approval held_withdrawal held_loan held_trade : ReceiptStatus
  held_pledge_pending held_lien withdrawn traded_out seized expired cancelled split : ReceiptStatus

pub data ApprovalStatus : Type 0 where
  pending approved rejected : ApprovalStatus

pub data TxnType : Type 0 where
  deposit withdrawal loan trade adjustment pledge : TxnType

pub data InventoryEventType : Type 0 where
  deposit approved rejected hold_placed hold_released pledge_accepted consumed : InventoryEventType
  ownership_transferred seized expired cancelled legacy_reconciliation : InventoryEventType

pub record Receipt : Type 0 where
  pub id : ℕ
  pub receipt_number : Text
  pub status : ReceiptStatus
  pub tenant_id : ℕ
  pub commodity_id : ℕ
  pub quantity : ℤ
  pub grade : Option Text
  pub warehouse_id : ℕ
  pub client_id : ℕ
  pub approval_status : ApprovalStatus
  pub approved_by_id : Option ℕ
  pub approved_at : Option ℕ
  pub rejection_reason : Option Text
  pub grading_scores : Option Text
  pub computed_grade : Option Text
  pub parent_receipt_id : Option ℕ
  pub root_receipt_id : ℕ
  pub is_parent : Bool
  pub superseded_at : Option ℕ
  pub source_txn_type : Option TxnType
  pub source_txn_id : Option ℕ
  pub source_event_id : Option ℕ
  pub date_of_deposit : ℕ
  pub expiry_date : Option ℕ

-- The JSON objects that the ledger puts into `metadata`, and any that a caller passes.
pub data Metadata : Type 0 where
  reason : Text → Metadata
  financier_user : ℕ → Metadata
  from_to : ℕ → ℕ → Metadata
  json : Text → Metadata

pub record InventoryEvent : Type 0 where
  pub id : ℕ
  pub tenant_id : ℕ
  pub root_receipt_id : ℕ
  pub from_receipt_id : Option ℕ
  pub event_type : InventoryEventType
  pub txn_type : Option TxnType
  pub txn_id : Option ℕ
  pub quantity : ℤ
  pub actor_user_id : Option ℕ
  pub idempotency_key : Text
  pub reversal_of_event_id : Option ℕ
  pub metadata : Option Metadata

abbrev status_code : ReceiptStatus → ℕ
status_code active = 0
status_code pending_approval = 1
status_code held_withdrawal = 2
status_code held_loan = 3
status_code held_trade = 4
status_code held_pledge_pending = 5
status_code held_lien = 6
status_code withdrawn = 7
status_code traded_out = 8
status_code ReceiptStatus.seized = 9
status_code ReceiptStatus.expired = 10
status_code ReceiptStatus.cancelled = 11
status_code split = 12

-- `===` on statuses
unfoldable pub status_eq : ReceiptStatus → ReceiptStatus → Bool
status_eq a b = status_code a == status_code b

abbrev approval_code : ApprovalStatus → ℕ
approval_code pending = 0
approval_code ApprovalStatus.approved = 1
approval_code ApprovalStatus.rejected = 2

unfoldable pub approval_eq : ApprovalStatus → ApprovalStatus → Bool
approval_eq a b = approval_code a == approval_code b

-- A status that is one literal is no other literal.
pub status_eq-exclusive :
    (s a b : ReceiptStatus) → status_eq s a ≡ true → status_eq a b ≡ false → status_eq s b ≡ false
unfolding status_eq
status_eq-exclusive s a b h k = ground arith

-- `Array.prototype.includes`
unfoldable pub includes : List ReceiptStatus → ReceiptStatus → Bool
unfolding status_eq
includes [] s = false
includes (x ∷ xs) s = status_eq x s || includes xs s

-- the type `HeldStatus`
pub data HeldStatus : Type 0 where
  withdrawal loan trade pledge_pending lien : HeldStatus

unfoldable pub held_status : HeldStatus → ReceiptStatus
held_status HeldStatus.withdrawal = held_withdrawal
held_status HeldStatus.loan = held_loan
held_status HeldStatus.trade = held_trade
held_status pledge_pending = held_pledge_pending
held_status lien = held_lien

abbrev pub held_statuses : List ReceiptStatus
held_statuses = held_withdrawal ∷ held_loan ∷ held_trade ∷ held_pledge_pending ∷ held_lien ∷ []

abbrev pub closed_statuses : List ReceiptStatus
closed_statuses =
    withdrawn ∷ traded_out ∷ ReceiptStatus.seized ∷ ReceiptStatus.expired ∷ ReceiptStatus.cancelled
    ∷ split ∷ []

pub data ReceiptGroup : Type 0 where
  active liened cancelled : ReceiptGroup

-- `deriveGroup`
unfoldable pub derive_group : ReceiptStatus → ApprovalStatus → ReceiptGroup
unfolding includes approval_eq
derive_group status approval_status =
    if includes closed_statuses status
    then ReceiptGroup.cancelled
    else if status_eq status pending_approval
        || (includes held_statuses status || approval_eq approval_status pending)
    then liened
    else ReceiptGroup.active

abbrev group_code : ReceiptGroup → ℕ
group_code ReceiptGroup.active = 0
group_code liened = 1
group_code ReceiptGroup.cancelled = 2

unfoldable pub group_eq : ReceiptGroup → ReceiptGroup → Bool
group_eq a b = group_code a == group_code b

-- `statusesForGroup`
unfoldable pub statuses_for_group : ReceiptGroup → List ReceiptStatus
statuses_for_group group =
    if group_eq group ReceiptGroup.cancelled
    then closed_statuses
    else if group_eq group liened
    then pending_approval ∷ held_statuses
    else ReceiptStatus.active ∷ []

-- A held status is in the list of held statuses, and no other literal of the guards.
pub held_status-held :
    (h : HeldStatus)
    → (includes held_statuses (held_status h) ≡ true)
      × (status_eq (held_status h) split ≡ false)
      × (status_eq (held_status h) ReceiptStatus.active ≡ false)
unfolding includes held_status
held_status-held HeldStatus.withdrawal = (refl, refl, refl)
held_status-held _ = (refl, refl, refl)

-- A status in the list of held statuses is not SPLIT.
pub held-ne-split :
    (s : ReceiptStatus) → includes held_statuses s ≡ true → status_eq s split ≡ false
unfolding includes
held-ne-split split h = cc
held-ne-split _ h = refl
