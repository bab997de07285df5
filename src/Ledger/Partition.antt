-- ===== src/Ledger/Partition.antt =====
-- `partition` of inventory-ledger.service.ts: a locked row is split into children.
use secure_store_backend.Prelude.{
  ℕ, Text, true, false, not, Option, none, some, List, [], ◌∷◌, ◌++◌, if◌then◌else◌,
}
use secure_store_backend.Prelude.Int.{ℤ, pos, ◌-ℤ◌, leb_ℤ}
use secure_store_backend.Receipt.{Receipt, TxnType, ReceiptStatus, ApprovalStatus, split}
use secure_store_backend.Store.{ok, Tx, ◌>>=◌, ◌>>◌, pure, create_receipt, update_receipt}
use secure_store_backend.Suffix.{
  base_receipt_number, next_suffix, existing_child_suffixes, child_number,
}
use secure_store_backend.Ledger.Call.{Call}

-- A child of a row: its lineage, its place and its dates are the row's.
unfoldable pub child_of :
    Receipt
    → (id : ℕ) (number : Text) (status : ReceiptStatus) (quantity : ℤ) (client_id : ℕ)
    → ApprovalStatus
    → (txn_type : Option TxnType) (txn_id : Option ℕ) (event_id : ℕ) → Receipt
child_of source id number status quantity client_id approval txn_type txn_id event_id = record {
  id = id;
  receipt_number = number;
  status = status;
  tenant_id = source.tenant_id;
  commodity_id = source.commodity_id;
  quantity = quantity;
  grade = source.grade;
  warehouse_id = source.warehouse_id;
  client_id = client_id;
  approval_status = approval;
  approved_by_id = none;
  approved_at = none;
  rejection_reason = none;
  grading_scores = none;
  computed_grade = none;
  parent_receipt_id = some source.id;
  root_receipt_id = source.root_receipt_id;
  is_parent = false;
  superseded_at = none;
  source_txn_type = txn_type;
  source_txn_id = txn_id;
  source_event_id = some event_id;
  date_of_deposit = source.date_of_deposit;
  expiry_date = source.expiry_date;
}

-- `{ status: 'SPLIT', isParent: true, supersededAt: new Date() }`
abbrev pub superseded : ℕ → Receipt → Receipt
superseded now r = record r { status = split; is_parent = true; superseded_at = some now }

-- The argument `primary` of `partition`.
pub record Primary : Type 0 where
  pub status : ReceiptStatus
  pub approval_status : ApprovalStatus
  pub client_id : ℕ
  pub source_txn_type : Option TxnType
  pub source_txn_id : Option ℕ

unfoldable pub read_suffixes : Text → Tx (List Text)
read_suffixes base d = (ok (existing_child_suffixes base d.receipts), d)

-- the row of the remainder, if one is left
unfoldable pub create_remainder : Call → Receipt → Text → ℤ → ℕ → Tx (Option Receipt)
create_remainder c source number rem_qty event_id =
    if not (leb_ℤ rem_qty (pos 0))
    then (create_receipt (
          child_of source c.remainder_id number ReceiptStatus.active (c.column rem_qty)
            source.client_id ApprovalStatus.approved none none event_id)
        >>= λ row. pure (some row))
    else pure none

-- `partition`: a primary child, an ACTIVE child with what is left, and the source as SPLIT.
unfoldable pub partition :
    Call → Receipt → ℤ → Primary → (event_id : ℕ) → Tx (Receipt × Option Receipt)
partition c source primary_qty primary event_id = do
  let base = base_receipt_number source.receipt_number
  taken ← read_suffixes base
  let primary_suffix = next_suffix taken
  primary_row ← create_receipt (
      child_of source c.receipt_id (child_number base primary_suffix) primary.status
        (c.column primary_qty) primary.client_id primary.approval_status primary.source_txn_type
        primary.source_txn_id event_id)
  remainder ←
      create_remainder c source (child_number base (next_suffix (taken ++ primary_suffix ∷ [])))
        (source.quantity -ℤ primary_qty) event_id
  update_receipt source.id (superseded c.now)
  pure (primary_row, remainder)
