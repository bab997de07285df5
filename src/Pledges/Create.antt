-- ===== src/Pledges/Create.antt =====
-- `createPledge` of src/pledges/pledges.service.ts: the guards, the hold of the volume, the row.
use secure_store_backend.Prelude.{
  ℕ, Text, codes, ◌+◌, ◌*◌, Bool, false, not, ◌&&◌, ◌||◌, Option, none, some, List, [], ◌∷◌, ◌++◌,
  ◌==◌, if◌then◌else◌,
}
use secure_store_backend.Prelude.Int.{ℤ, pos, leb_ℤ, ltb_ℤ}
use secure_store_backend.Receipt.{
  Receipt, ReceiptStatus, TxnType, Metadata, HeldStatus, status_eq, pending_approval, split,
}
use secure_store_backend.Ledger.Call.{Call}
use secure_store_backend.Ledger.Hold.{HoldInput, hold}
use secure_store_backend.Service.{ask, refuse_if, given, ◌>>=◌, ◌>>◌, write}
use secure_store_backend.Pledges.{
  Act, Pledge, PledgeStatus, Lookups, Link, on_ledger, user_not_found, receipt_not_pledgeable,
  receipt_not_found, quantity_invalid, insufficient_available_volume, financier_not_onboarded,
  row_clash, pledge_detail,
}
use secure_store_backend.Pledges.Encumbrance.{get_receipt_encumbrance}

pub record CreatePledge : Type 0 where
  pub receipt_id : ℕ
  pub financier_id : ℕ
  pub quantity : ℤ
  pub note : Option Text

-- the receipt of the caller in the tenant
unfoldable pub find_own : ℕ → ℕ → ℕ → List Receipt → Option Receipt
find_own id client_id tenant_id [] = none
find_own id client_id tenant_id (r ∷ rs) =
    if r.id == id && (r.client_id == client_id && r.tenant_id == tenant_id)
    then some r
    else find_own id client_id tenant_id rs

unfoldable pub find_receipt_of : ℕ → ℕ → ℕ → Act Receipt
unfolding find_own
find_receipt_of id client_id tenant_id = do
  row ← ask (λ w. find_own id client_id tenant_id w.ledger.receipts)
  given row receipt_not_found

-- the statuses that the guard lets pass
abbrev is_pledgeable : ReceiptStatus → Bool
is_pledgeable s = not (
    not (status_eq s ReceiptStatus.active)
    && (not (status_eq s split) && not (status_eq s pending_approval)))

-- a link whose organisation is active
abbrev active_link : Option Link → Option Link
active_link none = none
active_link (some link) = if link.org_is_active then some link else none

-- `link.financierOrg.pledgeTtlDays ?? DEFAULT_PLEDGE_TTL_DAYS`
abbrev or_days : Option ℕ → ℕ → ℕ
or_days none default_days = default_days
or_days (some days) default_days = days

abbrev value_of : Option (ℤ × Text) → Option ℤ
value_of none = none
value_of (some v) = some v.0

abbrev currency_of : Option (ℤ × Text) → Text
currency_of none = codes "NGN"
currency_of (some v) = v.1

abbrev pub key : Lookups → Text → ℕ → Text
key q prefix id = prefix ++ q.text_of id

abbrev pub hold_input : Lookups → CreatePledge → ℕ → HoldInput
hold_input q dto pledge_id = record {
  source_receipt_id = dto.receipt_id;
  quantity = dto.quantity;
  held_status = HeldStatus.pledge_pending;
  txn_type = TxnType.pledge;
  txn_id = pledge_id;
  metadata = some (Metadata.json (q.text_of dto.financier_id));
}

abbrev pub pledge_row :
    Lookups
    → CreatePledge
    → (caller_id tenant_id pledge_id now : ℕ) → Receipt
    → Receipt
    → Link
    → Pledge
pledge_row q dto caller_id tenant_id pledge_id now receipt held link = record {
  id = pledge_id;
  tenant_id = tenant_id;
  receipt_id = receipt.id;
  held_receipt_id = some held.id;
  client_id = caller_id;
  financier_org_id = dto.financier_id;
  warehouse_id = receipt.warehouse_id;
  quantity = dto.quantity;
  unit = q.unit_of_measure;
  valuation_at_pledge = value_of q.valuation;
  currency = currency_of q.valuation;
  status = PledgeStatus.pending;
  client_note = dto.note;
  decision_reason = none;
  decided_by_id = none;
  decided_at = none;
  expires_at = now + or_days link.pledge_ttl_days q.default_ttl_days * q.day;
}

-- `prisma.pledge.create`; the id and the held receipt are unique columns
unfoldable pub pledge_clashes : Pledge → List Pledge → Bool
pledge_clashes new [] = false
pledge_clashes new (p ∷ ps) =
    p.id == new.id || (same p.held_receipt_id new.held_receipt_id || pledge_clashes new ps)
  where
    same : Option ℕ → Option ℕ → Bool
    same none b = false
    same (some x) none = false
    same (some x) (some y) = x == y

unfoldable pub insert_pledge : Pledge → Act (Unit {0})
unfolding pledge_clashes
insert_pledge p = do
  taken ← ask (λ w. pledge_clashes p w.pledges)
  refuse_if taken row_clash
  write (λ w. record w { pledges = w.pledges ++ p ∷ [] })

-- `createPledge`
unfoldable pub create_pledge :
    Call → Lookups → (caller_id pledge_id : ℕ) → CreatePledge → Act Pledge
unfolding find_receipt_of get_receipt_encumbrance insert_pledge
create_pledge c q caller_id pledge_id dto = do
  tenant_id ← given q.caller_tenant user_not_found
  receipt ← find_receipt_of dto.receipt_id caller_id tenant_id
  refuse_if (not (is_pledgeable receipt.status)) (receipt_not_pledgeable receipt.status)
  refuse_if (leb_ℤ dto.quantity (pos 0)) quantity_invalid
  enc ← get_receipt_encumbrance caller_id receipt.id
  refuse_if (ltb_ℤ enc.available dto.quantity) (insufficient_available_volume enc.available)
  link ← given (active_link q.link) financier_not_onboarded
  held ← on_ledger (
      hold c
        (record {
          tenant_id = receipt.tenant_id;
          actor_user_id = some caller_id;
          idempotency_key = key q (codes "pledge:create:") pledge_id;
        })
        (record (hold_input q dto pledge_id) { source_receipt_id = receipt.id }))
  insert_pledge (pledge_row q dto caller_id tenant_id pledge_id c.now receipt held.held link)
  pledge_detail pledge_id
