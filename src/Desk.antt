-- ===== src/Desk.antt =====
-- What the services of trades, loans, releases and liens work on (src/trades, src/loans,
-- src/release-requests, src/admin-liens): the ledger's tables, the accounts, and their own tables; their
-- refusals; what a call takes from outside. Amounts of money are JavaScript numbers, a type `N` whose
-- operations are a parameter (Floats). Notifications and the log of activities are left out.
pub mod Rules
use secure_store_backend.Prelude.{
  ℕ, Text, codes, Bool, true, false, ◌&&◌, Option, none, some, List, [], ◌∷◌, ◌++◌, ◌==◌,
  if◌then◌else◌,
}
use secure_store_backend.Prelude.Int.{ℤ}
use secure_store_backend.Receipt.{Receipt}
use secure_store_backend.Store.{Db, Error, Result, ok, err, Tx, TradeStatus, find_first}
use secure_store_backend.Ledger.Call.{Call, ActorCtx}
use secure_store_backend.Pledges.{Lien, LienStatus, Org}
use secure_store_backend.Security.{Accounts, Denial, Crypto}
use secure_store_backend.Service.{
  Outcome, done, failed, Action, answer, ask, given, refuse_if, ◌>>=◌, ◌>>◌,
}

pub data LoanStatus : Type 0 where
  pending approved active repaid defaulted rejected cancelled : LoanStatus

pub record Loan (N : Type 0) : Type 0 where
  pub id : ℕ
  pub reference : Text
  pub tenant_id : ℕ
  pub receipt_id : ℕ
  pub client_id : ℕ
  pub financier_id : ℕ
  pub amount : N
  pub interest_rate : N
  pub tenure_months : ℕ
  pub total_interest : N
  pub monthly_payment : N
  pub status : LoanStatus
  pub notes : Option Text
  pub approved_at : Option ℕ
  pub repaid_at : Option ℕ

pub data ReleaseStatus : Type 0 where
  pending approved rejected cancelled : ReleaseStatus

pub record ReleaseRequest : Type 0 where
  pub id : ℕ
  pub tenant_id : ℕ
  pub client_id : ℕ
  pub financier_org_id : ℕ
  pub requested_date : ℕ
  pub note : Option Text
  pub status : ReleaseStatus
  pub decision_reason : Option Text
  pub decided_by_id : Option ℕ
  pub decided_at : Option ℕ

pub record ReleaseRequestLine : Type 0 where
  pub id : ℕ
  pub release_request_id : ℕ
  pub lien_id : ℕ
  pub receipt_id : ℕ
  pub quantity : ℤ

pub record ForceRelease : Type 0 where
  pub tenant_id : ℕ
  pub lien_id : ℕ
  pub admin_id : ℕ
  pub reason : Text
  pub court_order_doc_url : Text

pub record Desk (N : Type 0) : Type 0 where
  pub ledger : Db
  pub accounts : Accounts
  pub loans : List (Loan N)
  pub liens : List Lien
  pub requests : List ReleaseRequest
  pub lines : List ReleaseRequestLine
  pub force_releases : List ForceRelease

-- The refusals, with the values that their messages show; those of the ledger and of the accounts pass
-- through.
pub data Refusal : Type 0 where
  user_not_found receipt_not_found trade_not_found buyer_not_found same_party : Refusal
  trade_not_available : TradeStatus → Refusal
  loan_not_found financier_not_found amount_invalid financier_invalid edit_forbidden fields_locked :
      Refusal
  loan_not_pending loan_not_active loan_closed loan_decided : LoanStatus → Refusal
  forbidden org_suspended release_request_not_found : Refusal
  lien_missing lien_not_owned lien_financier_mismatch quantity_invalid : ℕ → Refusal
  release_already_pending quantity_exceeds_lien : ℕ → ℤ → Refusal
  lien_not_active : ℕ → LienStatus → Refusal
  release_request_not_pending : ReleaseStatus → Refusal
  lien_not_found lien_already_released row_clash : Refusal
  of_ledger : Error → Refusal
  denied : Denial → Refusal

-- The arithmetic and the comparisons of JavaScript numbers.
pub record Floats (N : Type 0) : Type 0 where
  pub plus : N → N → N
  pub times : N → N → N
  pub over : N → N → N
  pub of_int : ℕ → N
  pub is_positive : N → Bool
  pub same : N → N → Bool

pub record Financier (N : Type 0) : Type 0 where
  pub id : ℕ
  pub interest_rate : N
  pub max_tenure : ℕ

-- What a call takes from outside: the ledger's part of it, whose clock is the call's, the hashes, the
-- text of an id, a new id and a new reference, the ids of new lines by their place, the calls of the
-- ledger for the lines of a request, and the tables of users, financiers and assignments.
pub record Outside (N : Type 0) : Type 0 where
  pub call : Call
  pub crypto : Crypto
  pub floats : Floats N
  -- `Number(d)` of a decimal, as a Float column holds it, in the unit of the decimals
  pub as_float : ℤ → ℤ
  pub text_of : ℕ → Text
  pub new_id : ℕ
  pub line_id : ℕ → ℕ
  pub line_call : ℕ → Call
  pub reference : Text
  pub tenant_of : ℕ → Option ℕ
  pub org_of : ℕ → Option Org
  pub financier : (tenant_id id : ℕ) → Option (Financier N)
  pub is_assigned : (tenant_id warehouse_id manager_id : ℕ) → Bool

abbrev pub Act : Type 0 → Type 0 → Type 0
Act N A = Action (Desk N) Refusal A

abbrev pub outcome_of : {A : Type 0} → Result A → Outcome Refusal A
outcome_of (ok a) = done a
outcome_of (err e) = failed (of_ledger e)

-- A call of the ledger: its transaction is over when it returns, and a later error does not undo it.
unfoldable pub on_ledger : {N A : Type 0} → Tx A → Act N A
on_ledger work w = let (r, d) = work w.ledger in (outcome_of r, record w { ledger = d })

abbrev pub allowed : {A : Type 0} → Outcome Denial A → Outcome Refusal A
allowed (done a) = done a
allowed (failed e) = failed (denied e)

-- a call of the security service
unfoldable pub on_accounts : {N A : Type 0} → Action Accounts Denial A → Act N A
on_accounts m w = let (r, s) = m w.accounts in (allowed r, record w { accounts = s })

-- an idempotency key: the text around an id
abbrev pub key : {N : Type 0} → Outside N → Text → ℕ → Text → Text
key o prefix id suffix = prefix ++ o.text_of id ++ suffix

-- the caller of a method of the ledger
abbrev pub caller : ℕ → Option ℕ → Text → ActorCtx
caller tenant_id actor idempotency_key = record {
  tenant_id = tenant_id;
  actor_user_id = actor;
  idempotency_key = idempotency_key;
}

-- `actorUserId ?? clientId`
abbrev pub or_self : Option ℕ → ℕ → ℕ
or_self none self = self
or_self (some actor) self = actor

-- `prisma.receipt.findFirst({ id, tenantId })`
unfoldable pub receipt_in_tenant : {N : Type 0} → (id tenant_id : ℕ) → Act N Receipt
receipt_in_tenant id tenant_id = do
  row ← ask (λ w. find_first id tenant_id w.ledger.receipts)
  given row receipt_not_found
