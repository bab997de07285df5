-- ===== src/Pledges.antt =====
-- The pledges of src/pledges/pledges.service.ts: the tables it keeps beside the ledger's, the errors it
-- answers with, and its actions. What it reads from the tables of users, organisations, warehouse links
-- and prices, and the answer of the one-time code's check, are inputs (Lookups). The text of an id,
-- which the idempotency keys hold, is one too. Notifications, whose failures the source ignores, and
-- the projection of a pledge to its response are left out: an action returns the row.
pub mod Encumbrance
pub mod Create
pub mod Decide
pub mod Expiry
pub mod Steps
pub mod Decisions
pub mod Stale
pub mod Life
pub mod Sums
use secure_store_backend.Prelude.{
  ℕ, Text, Bool, true, false, ◌&&◌, ◌||◌, Option, none, some, List, [], ◌∷◌, ◌++◌, ◌==◌,
  if◌then◌else◌,
}
use secure_store_backend.Prelude.Int.{ℤ}
use secure_store_backend.Receipt.{ReceiptStatus}
use secure_store_backend.Store.{Db, Error, Result, ok, err, Tx}
use secure_store_backend.Service.{
  Outcome, done, failed, Action, answer, ask, refuse_if, given, ◌>>=◌, ◌>>◌,
}
use secure_store_backend.Service.Rows.{find_where, modify_where}

pub data PledgeStatus : Type 0 where
  pending accepted rejected expired cancelled : PledgeStatus

abbrev pub is_pending : PledgeStatus → Bool
is_pending pending = true
is_pending accepted = false
is_pending rejected = false
is_pending expired = false
is_pending cancelled = false

pub data LienStatus : Type 0 where
  active partially_released released force_released : LienStatus

pub record Pledge : Type 0 where
  pub id : ℕ
  pub tenant_id : ℕ
  pub receipt_id : ℕ
  pub held_receipt_id : Option ℕ
  pub client_id : ℕ
  pub financier_org_id : ℕ
  pub warehouse_id : ℕ
  pub quantity : ℤ
  pub unit : Text
  pub valuation_at_pledge : Option ℤ
  pub currency : Text
  pub status : PledgeStatus
  pub client_note : Option Text
  pub decision_reason : Option Text
  pub decided_by_id : Option ℕ
  pub decided_at : Option ℕ
  pub expires_at : ℕ

pub record Lien : Type 0 where
  pub id : ℕ
  pub tenant_id : ℕ
  pub pledge_id : ℕ
  pub receipt_id : ℕ
  pub client_id : ℕ
  pub financier_org_id : ℕ
  pub quantity : ℤ
  pub remaining_quantity : ℤ
  pub status : LienStatus
  pub released_at : Option ℕ

-- The tables: the ledger's, the pledges and the liens.
pub record World : Type 0 where
  pub ledger : Db
  pub pledges : List Pledge
  pub liens : List Lien

-- The errors of the service; those of the ledger pass through.
pub data Refusal : Type 0 where
  user_not_found receipt_not_found pledge_not_found forbidden org_suspended : Refusal
  receipt_not_pledgeable : ReceiptStatus → Refusal
  quantity_invalid financier_not_onboarded : Refusal
  insufficient_available_volume : ℤ → Refusal
  pledge_not_pending : PledgeStatus → Refusal
  pledge_expired pledge_internal_state otp_refused row_clash : Refusal
  of_ledger : Error → Refusal

abbrev pub Act : Type 0 → Type 0
Act A = Action World Refusal A

abbrev pub outcome_of : {A : Type 0} → Result A → Outcome Refusal A
outcome_of (ok a) = done a
outcome_of (err e) = failed (of_ledger e)

-- A call of the ledger: its transaction is over when it returns, and a later error does not undo it.
unfoldable pub on_ledger : {A : Type 0} → Tx A → Act A
on_ledger work w = let (r, d) = work w.ledger in (outcome_of r, record w { ledger = d })

pub record Link : Type 0 where
  pub org_id : ℕ
  pub org_is_active : Bool
  pub pledge_ttl_days : Option ℕ

pub record Org : Type 0 where
  pub id : ℕ
  pub is_suspended : Bool

-- What other tables and services answer.
pub record Lookups : Type 0 where
  pub caller_tenant : Option ℕ
  pub caller_org : Option Org
  pub unit_of_measure : Text
  pub link : Option Link
  pub valuation : Option (ℤ × Text)
  pub default_ttl_days : ℕ
  pub otp_is_valid : Bool
  pub text_of : ℕ → Text
  pub day : ℕ

-- the pledges with the id, changed
abbrev pub modify_pledge : ℕ → (Pledge → Pledge) → List Pledge → List Pledge
modify_pledge id f = modify_where (λ p. p.id == id) f

abbrev pub find_pledge : (Pledge → Bool) → List Pledge → Option Pledge
find_pledge test = find_where test

-- `prisma.pledge.update` on the id of a row that is there
abbrev pub update_pledge : ℕ → (Pledge → Pledge) → World → World
update_pledge id f w = record w { pledges = modify_pledge id f w.pledges }

-- `requireFinancierOrg`
unfoldable pub require_financier_org : Lookups → Act Org
require_financier_org q = do
  org ← given q.caller_org forbidden
  refuse_if org.is_suspended org_suspended
  answer org

-- `projectPledgeDetail`: the row
unfoldable pub pledge_detail : ℕ → Act Pledge
pledge_detail id = do
  row ← ask (λ w. find_pledge (λ p. p.id == id) w.pledges)
  given row pledge_not_found
