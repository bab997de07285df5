-- ===== src/Loans/Edit.antt =====
-- `editLoan` of src/loans/loans.service.ts: who may edit which field in which status, and the payments
-- that are computed anew.
use secure_store_backend.Prelude.{
  ℕ, Text, text_eq, Bool, true, false, not, ◌&&◌, ◌||◌, Option, none, some, ◌==◌, if◌then◌else◌,
}
use secure_store_backend.Receipt.{Receipt}
use secure_store_backend.Store.{find_unique}
use secure_store_backend.Service.{answer, ask, write, refuse_if, given, ◌>>=◌, ◌>>◌}
use secure_store_backend.Desk.{
  Loan, LoanStatus, Financier, Floats, Outside, Act, loan_closed, loan_decided, edit_forbidden,
  fields_locked, financier_invalid,
}
use secure_store_backend.Loans.{load_loan, update_loan, quote, is_pending}

pub record EditLoan (N : Type 0) : Type 0 where
  pub amount : Option N
  pub financier_id : Option ℕ
  pub notes : Option Text

-- the roles of the caller that the method asks for
pub record Roles : Type 0 where
  pub is_admin : Bool
  pub is_manager : Bool

-- the statuses in which nothing is edited
abbrev pub is_terminal : LoanStatus → Bool
is_terminal LoanStatus.pending = false
is_terminal LoanStatus.approved = false
is_terminal LoanStatus.active = false
is_terminal LoanStatus.repaid = true
is_terminal LoanStatus.defaulted = true
is_terminal LoanStatus.rejected = true
is_terminal LoanStatus.cancelled = true

-- a manager of the warehouse in which the collateral lies
abbrev pub is_authorized_manager :
    {N : Type 0} → Outside N → (tenant_id actor : ℕ) → Option Receipt → Bool
is_authorized_manager o tenant_id actor none = false
is_authorized_manager o tenant_id actor (some r) = o.is_assigned tenant_id r.warehouse_id actor

abbrev is_given : {A : Type 0} → Option A → Bool
is_given none = false
is_given (some a) = true

-- a field that the caller gives and that differs
abbrev pub changed : {A : Type 0} → (A → Bool) → Option A → Option A
changed is_same none = none
changed is_same (some a) = if is_same a then none else some a

abbrev pub or_old : {A : Type 0} → Option A → A → A
or_old none old = old
or_old (some new) old = new

abbrev same_notes : Option Text → Text → Bool
same_notes none t = false
same_notes (some old) t = text_eq t old

abbrev notes_or_old : Option Text → Option Text → Option Text
notes_or_old none old = old
notes_or_old (some new) old = some new

-- a column is written when the value differs
abbrev pub unless_same : {N : Type 0} → Floats N → (old new : N) → N
unless_same F old new = if F.same new old then old else new

-- the fields of `updateData` that the caller gives, and the financier that replaces the loan's
pub record Changes (N : Type 0) : Type 0 where
  pub amount : Option N
  pub financier : Option (Financier N)
  pub notes : Option Text

abbrev pub rate_of : {N : Type 0} → Option (Financier N) → N → N
rate_of none old = old
rate_of (some f) old = f.interest_rate

abbrev pub tenure_of : {N : Type 0} → Option (Financier N) → ℕ → ℕ
tenure_of none old = old
tenure_of (some f) old = f.max_tenure

abbrev financier_of : {N : Type 0} → Option (Financier N) → ℕ → ℕ
financier_of none old = old
financier_of (some f) old = f.id

-- the schedule of payments, computed from the new amount, rate and months
unfoldable pub rescheduled : {N : Type 0} → Floats N → Changes N → Loan N → Loan N
rescheduled F x l =
    let rate = rate_of x.financier l.interest_rate in
    let months = tenure_of x.financier l.tenure_months in
    let q = quote F (or_old x.amount l.amount) rate months in
    record l {
      interest_rate = unless_same F l.interest_rate rate;
      tenure_months = months;
      total_interest = unless_same F l.total_interest q.total_interest;
      monthly_payment = unless_same F l.monthly_payment q.monthly_payment;
    }

-- the row with `updateData` written to it
unfoldable pub edited : {N : Type 0} → Floats N → Changes N → Loan N → Loan N
unfolding rescheduled
edited F x l =
    let paid = if is_given x.amount || is_given x.financier then rescheduled F x l else l in
    record paid {
      amount = or_old x.amount l.amount;
      financier_id = financier_of x.financier l.financier_id;
      notes = notes_or_old x.notes l.notes;
    }

-- the financier that replaces the loan's, when the caller names another one
unfoldable pub next_financier :
    {N : Type 0} → Outside N → ℕ → Option ℕ → Act N (Option (Financier N))
next_financier o tenant_id none = answer none
next_financier o tenant_id (some id) = do
  f ← given (o.financier tenant_id id) financier_invalid
  answer (some f)

-- `editLoan`
unfoldable pub edit_loan :
    {N : Type 0} → Outside N → (tenant_id loan_id actor : ℕ) → Roles → EditLoan N → Act N (Unit {0})
unfolding next_financier edited
edit_loan o tenant_id loan_id actor roles dto = do
  loan ← load_loan tenant_id loan_id
  refuse_if (is_terminal loan.status) (loan_closed loan.status)
  pledged ← ask (λ w. find_unique loan.receipt_id w.ledger.receipts)
  refuse_if
      (not roles.is_admin
        && (not (loan.client_id == actor)
            && not (roles.is_manager && is_authorized_manager o tenant_id actor pledged)))
      edit_forbidden
  refuse_if (not roles.is_admin && not (is_pending loan.status)) (loan_decided loan.status)
  refuse_if (not (is_pending loan.status) && (is_given dto.amount || is_given dto.financier_id))
      fields_locked
  financier ← next_financier o tenant_id (changed (λ id. id == loan.financier_id) dto.financier_id)
  write (
      update_loan loan.id (
        edited o.floats (record {
          amount = changed (λ n. o.floats.same n loan.amount) dto.amount;
          financier = financier;
          notes = changed (same_notes loan.notes) dto.notes;
        })))
