-- ===== src/Loans.antt =====
-- The loans of src/loans/loans.service.ts against a receipt: requested, approved or rejected, repaid.
pub mod Edit
pub mod Schedule
pub mod Steps
pub mod Life
pub mod Scheduled
use secure_store_backend.Prelude.{
  ℕ, Text, text_eq, codes, Bool, true, false, not, ◌&&◌, ◌||◌, Option, none, some, List, [], ◌∷◌,
  ◌++◌, ◌==◌, if◌then◌else◌,
}
use secure_store_backend.Receipt.{Receipt, TxnType, HeldStatus}
use secure_store_backend.Ledger.Rows.{release, approve_hold}
use secure_store_backend.Ledger.Hold.{HoldInput, hold}
use secure_store_backend.Security.{Purpose}
use secure_store_backend.Security.Gate.{assert_transaction_auth}
use secure_store_backend.Service.Rows.{find_where, any_where, modify_where}
use secure_store_backend.Service.{answer, ask, write, refuse_if, given, branch, ◌>>=◌, ◌>>◌}
use secure_store_backend.Desk.{
  Desk, Loan, LoanStatus, Financier, Floats, Outside, Act, on_ledger, on_accounts, key, caller,
  or_self, receipt_in_tenant, loan_not_found, financier_not_found, amount_invalid, loan_not_pending,
  loan_not_active, row_clash,
}

pub record CreateLoan (N : Type 0) : Type 0 where
  pub receipt_id : ℕ
  pub financier_id : ℕ
  pub amount : N
  pub notes : Option Text
  pub pin : Option Text
  pub otp : Option Text

-- what a loan costs
pub record Quote (N : Type 0) : Type 0 where
  pub total_interest : N
  pub monthly_payment : N

-- the interest of the whole amount, and the amount with it over the months
abbrev pub quote : {N : Type 0} → Floats N → (amount rate : N) → (months : ℕ) → Quote N
quote F amount rate months = record {
  total_interest = F.over (F.times amount rate) (F.of_int 100);
  monthly_payment =
      F.over (F.plus amount (F.over (F.times amount rate) (F.of_int 100))) (F.of_int months);
}

-- `calculateLoan`
unfoldable pub calculate_loan :
    {N : Type 0} → Outside N → (tenant_id financier_id : ℕ) → N → Act N (Quote N)
calculate_loan o tenant_id financier_id amount = do
  financier ← given (o.financier tenant_id financier_id) financier_not_found
  refuse_if (not (o.floats.is_positive amount)) amount_invalid
  answer (quote o.floats amount financier.interest_rate financier.max_tenure)

abbrev pub find_loan : {N : Type 0} → (id tenant_id : ℕ) → List (Loan N) → Option (Loan N)
find_loan id tenant_id = find_where (λ l. l.id == id && l.tenant_id == tenant_id)

abbrev pub modify_loan : {N : Type 0} → ℕ → (Loan N → Loan N) → List (Loan N) → List (Loan N)
modify_loan id = modify_where (λ l. l.id == id)

abbrev pub some_loan : {N : Type 0} → (Loan N → Bool) → List (Loan N) → Bool
some_loan = any_where

abbrev pub loan_row :
    {N : Type 0}
    → Outside N
    → (tenant_id client_id : ℕ) → CreateLoan N
    → Financier N
    → Receipt
    → Loan N
loan_row o tenant_id client_id dto financier held = record {
  id = o.new_id;
  reference = o.reference;
  tenant_id = tenant_id;
  receipt_id = held.id;
  client_id = client_id;
  financier_id = financier.id;
  amount = dto.amount;
  interest_rate = financier.interest_rate;
  tenure_months = financier.max_tenure;
  total_interest =
      (quote o.floats dto.amount financier.interest_rate financier.max_tenure).total_interest;
  monthly_payment =
      (quote o.floats dto.amount financier.interest_rate financier.max_tenure).monthly_payment;
  status = LoanStatus.pending;
  notes = dto.notes;
  approved_at = none;
  repaid_at = none;
}

-- `prisma.loan.upsert` with an empty update: a row that has the id stays, and references are unique
unfoldable pub upsert_loan : {N : Type 0} → Loan N → Act N (Unit {0})
upsert_loan l = do
  there ← ask (λ w. some_loan (λ x. x.id == l.id) w.loans)
  branch there (answer tt) (do
    taken ← ask (λ w. some_loan (λ x. text_eq x.reference l.reference) w.loans)
    refuse_if taken row_clash
    write (λ w. record w { loans = w.loans ++ l ∷ [] }))

abbrev pub loan_hold : {N : Type 0} → Outside N → Receipt → HoldInput
loan_hold o receipt = record {
  source_receipt_id = receipt.id;
  quantity = receipt.quantity;
  held_status = HeldStatus.loan;
  txn_type = TxnType.loan;
  txn_id = o.new_id;
  metadata = none;
}

-- `createLoan`
unfoldable pub create_loan :
    {N : Type 0}
    → Outside N
    → (tenant_id : ℕ) → CreateLoan N
    → (client_id : ℕ) → Option ℕ
    → (is_on_behalf : Bool) → Act N (Unit {0})
unfolding upsert_loan
create_loan o tenant_id dto client_id actor is_on_behalf = do
  on_accounts (
      assert_transaction_auth o.crypto o.call.now client_id Purpose.loan dto.pin dto.otp
        is_on_behalf)
  receipt ← receipt_in_tenant dto.receipt_id tenant_id
  financier ← given (o.financier tenant_id dto.financier_id) financier_not_found
  refuse_if (not (o.floats.is_positive dto.amount)) amount_invalid
  held ← on_ledger (
      hold o.call
        (caller tenant_id (some (or_self actor client_id))
          (key o (codes "LOAN:") o.new_id (codes ":hold")))
        (loan_hold o receipt))
  upsert_loan (loan_row o tenant_id client_id dto financier held.held)

abbrev pub is_pending : LoanStatus → Bool
is_pending LoanStatus.pending = true
is_pending _ = false

abbrev pub is_active : LoanStatus → Bool
is_active LoanStatus.active = true
is_active _ = false

-- `loadLoan`
unfoldable pub load_loan : {N : Type 0} → (tenant_id id : ℕ) → Act N (Loan N)
load_loan tenant_id id = do
  row ← ask (λ w. find_loan id tenant_id w.loans)
  given row loan_not_found

-- `prisma.loan.update` of a row that is there
abbrev pub update_loan : {N : Type 0} → ℕ → (Loan N → Loan N) → Desk N → Desk N
update_loan id f w = record w { loans = modify_loan id f w.loans }

-- `approveLoan`
unfoldable pub approve_loan :
    {N : Type 0} → Outside N → (tenant_id loan_id : ℕ) → Option ℕ → Act N (Unit {0})
unfolding load_loan
approve_loan o tenant_id loan_id actor = do
  loan ← load_loan tenant_id loan_id
  refuse_if (not (is_pending loan.status)) (loan_not_pending loan.status)
  on_ledger (
      approve_hold o.call
        (caller tenant_id actor (key o (codes "LOAN:") loan.id (codes ":approveHold")))
        loan.receipt_id)
  write (
      update_loan loan_id
        (λ l. record l { status = LoanStatus.active; approved_at = some o.call.now }))

-- `rejectLoan`
unfoldable pub reject_loan :
    {N : Type 0} → Outside N → (tenant_id loan_id : ℕ) → Option ℕ → Act N (Unit {0})
unfolding load_loan
reject_loan o tenant_id loan_id actor = do
  loan ← load_loan tenant_id loan_id
  refuse_if (not (is_pending loan.status)) (loan_not_pending loan.status)
  on_ledger (
      release o.call (caller tenant_id actor (key o (codes "LOAN:") loan.id (codes ":release")))
        loan.receipt_id none)
  write (update_loan loan_id (λ l. record l { status = LoanStatus.rejected }))

-- `repayLoan`
unfoldable pub repay_loan :
    {N : Type 0} → Outside N → (tenant_id loan_id : ℕ) → Option ℕ → Act N (Unit {0})
unfolding load_loan
repay_loan o tenant_id loan_id actor = do
  loan ← load_loan tenant_id loan_id
  refuse_if (not (is_active loan.status)) (loan_not_active loan.status)
  on_ledger (
      release o.call
        (caller tenant_id actor (key o (codes "LOAN:") loan.id (codes ":repay-release")))
        loan.receipt_id none)
  write (
      update_loan loan_id
        (λ l. record l { status = LoanStatus.repaid; repaid_at = some o.call.now }))
