-- ===== src/Loans/Scheduled.antt =====
-- What the requests of src/loans/loans.service.ts keep of the payments of the loans.
use secure_store_backend.Prelude.{ℕ, refl, Bool, Option, none, some}
use secure_store_backend.Store.{Tx}
use secure_store_backend.Service.Rows.{Each, modify_where-Each, append-Each}
use secure_store_backend.Service.{write}
use secure_store_backend.Service.Keeps.{
  Keeps, bind-Keeps, refuse_if-Keeps, given-Keeps, ask-Keeps, answer-Keeps, branch-Keeps,
  write-Keeps,
}
use secure_store_backend.Desk.{Desk, Loan, Outside, Refusal, receipt_in_tenant}
use secure_store_backend.Desk.Rules.{on_ledger-Keeps, on_accounts-Keeps}
use secure_store_backend.Desk.{on_ledger}
use secure_store_backend.Loans.{
  CreateLoan, create_loan, upsert_loan, load_loan, update_loan, approve_loan, reject_loan,
  repay_loan,
}
use secure_store_backend.Loans.Edit.{Roles, EditLoan, edit_loan, next_financier}
use secure_store_backend.Loans.Schedule.{IsScheduled, SameIsEqual, edited-IsScheduled}

-- The requests on loans, each with its arguments.
pub data LoanRequest (N : Type 0) : Type 0 where
  borrow :
      (tenant_id : ℕ)
      → CreateLoan N
      → (client_id : ℕ) → Option ℕ
      → (is_on_behalf : Bool) → LoanRequest N
  approve reject repay : (tenant_id loan_id : ℕ) → Option ℕ → LoanRequest N
  edit : (tenant_id loan_id actor : ℕ) → Roles → EditLoan N → LoanRequest N

-- The tables after the request, whatever its outcome.
unfoldable pub serve_loan : {N : Type 0} → Outside N → LoanRequest N → Desk N → Desk N
serve_loan o (LoanRequest.borrow tenant dto client actor behalf) w =
    (create_loan o tenant dto client actor behalf w).1
serve_loan o (LoanRequest.approve tenant id actor) w = (approve_loan o tenant id actor w).1
serve_loan o (LoanRequest.reject tenant id actor) w = (reject_loan o tenant id actor w).1
serve_loan o (LoanRequest.repay tenant id actor) w = (repay_loan o tenant id actor w).1
serve_loan o (LoanRequest.edit tenant id actor roles dto) w =
    (edit_loan o tenant id actor roles dto w).1

module _ {N : Type 0} (P : Loan N → Type 0) where
  -- every loan on the desk has the property
  abbrev pub OfLoans : Desk N → Type 0
  OfLoans w = Each P w.loans

  load_loan-Keeps : (tenant_id id : ℕ) → Keeps OfLoans (load_loan tenant_id id)
  unfolding load_loan
  load_loan-Keeps tenant_id id = bind-Keeps _ _ _ (ask-Keeps _ _) λ row. given-Keeps _ _ _

  write_loan-Keeps :
      (id : ℕ) (f : Loan N → Loan N)
      → ((l : Loan N) → P l → P (f l))
      → Keeps {S = Desk N} {E = Refusal} OfLoans (write (update_loan id f))
  write_loan-Keeps id f h = write-Keeps _ _ λ w p. modify_where-Each P _ f w.loans h p

  receipt_in_tenant-Keeps : (id tenant_id : ℕ) → Keeps OfLoans (receipt_in_tenant id tenant_id)
  unfolding receipt_in_tenant
  receipt_in_tenant-Keeps id tenant_id = bind-Keeps _ _ _ (ask-Keeps _ _) λ row. given-Keeps _ _ _

  upsert_loan-Keeps : (l : Loan N) → P l → Keeps OfLoans (upsert_loan l)
  unfolding upsert_loan
  upsert_loan-Keeps l h = bind-Keeps _ _ _ (ask-Keeps _ _) λ there.
      branch-Keeps _ there _ _ (answer-Keeps _ _) (
        bind-Keeps _ _ _ (ask-Keeps _ _) λ taken.
          bind-Keeps _ _ _ (refuse_if-Keeps _ _ _)
            λ u. write-Keeps _ _ λ w p. append-Each P l w.loans h p)

  ledger_apart-Keeps : {A : Type 0} (work : Tx A) → Keeps OfLoans (on_ledger work)
  ledger_apart-Keeps work = on_ledger-Keeps OfLoans work λ w p. p

module _ {N : Type 0} (o : Outside N) (equal : SameIsEqual o.floats) where
  abbrev Kept : Desk N → Type 0
  Kept = OfLoans (IsScheduled o.floats)

  create_loan-Kept :
      (tenant : ℕ) (dto : CreateLoan N) (client : ℕ) (actor : Option ℕ) (behalf : Bool)
      → Keeps Kept (create_loan o tenant dto client actor behalf)
  unfolding create_loan
  create_loan-Kept tenant dto client actor behalf =
      bind-Keeps _ _ _ (on_accounts-Keeps Kept _ λ w p. p) λ u.
        bind-Keeps _ _ _ (receipt_in_tenant-Keeps _ _ _) λ r.
          bind-Keeps _ _ _ (given-Keeps _ _ _) λ f. bind-Keeps _ _ _ (refuse_if-Keeps _ _ _) λ v.
            bind-Keeps _ _ _ (ledger_apart-Keeps _ _)
              λ held. upsert_loan-Keeps _ _ (record { interest = refl; payment = refl })

  -- a write of the status and the times alone
  write_loan-Kept :
      (id : ℕ) (f : Loan N → Loan N)
      → ((l : Loan N) → IsScheduled o.floats l → IsScheduled o.floats (f l))
      → Keeps {S = Desk N} {E = Refusal} Kept (write (update_loan id f))
  write_loan-Kept = write_loan-Keeps (IsScheduled o.floats)

  approve_loan-Kept :
      (tenant id : ℕ) (actor : Option ℕ) → Keeps Kept (approve_loan o tenant id actor)
  unfolding approve_loan
  approve_loan-Kept tenant id actor = bind-Keeps _ _ _ (load_loan-Keeps _ _ _) λ l.
      bind-Keeps _ _ _ (refuse_if-Keeps _ _ _) λ u.
        bind-Keeps _ _ _ (ledger_apart-Keeps _ _)
          λ r. write_loan-Kept _ _ λ x h. record { interest = h.interest; payment = h.payment }

  reject_loan-Kept : (tenant id : ℕ) (actor : Option ℕ) → Keeps Kept (reject_loan o tenant id actor)
  unfolding reject_loan
  reject_loan-Kept tenant id actor = bind-Keeps _ _ _ (load_loan-Keeps _ _ _) λ l.
      bind-Keeps _ _ _ (refuse_if-Keeps _ _ _) λ u.
        bind-Keeps _ _ _ (ledger_apart-Keeps _ _)
          λ r. write_loan-Kept _ _ λ x h. record { interest = h.interest; payment = h.payment }

  repay_loan-Kept : (tenant id : ℕ) (actor : Option ℕ) → Keeps Kept (repay_loan o tenant id actor)
  unfolding repay_loan
  repay_loan-Kept tenant id actor = bind-Keeps _ _ _ (load_loan-Keeps _ _ _) λ l.
      bind-Keeps _ _ _ (refuse_if-Keeps _ _ _) λ u.
        bind-Keeps _ _ _ (ledger_apart-Keeps _ _)
          λ r. write_loan-Kept _ _ λ x h. record { interest = h.interest; payment = h.payment }

  next_financier-Kept : (tenant : ℕ) (id : Option ℕ) → Keeps Kept (next_financier o tenant id)
  unfolding next_financier
  next_financier-Kept tenant none = answer-Keeps _ _
  next_financier-Kept tenant (some id) = bind-Keeps _ _ _ (given-Keeps _ _ _) λ f. answer-Keeps _ _

  edit_loan-Kept :
      (tenant id actor : ℕ) (roles : Roles) (dto : EditLoan N)
      → Keeps Kept (edit_loan o tenant id actor roles dto)
  unfolding edit_loan
  edit_loan-Kept tenant id actor roles dto = bind-Keeps _ _ _ (load_loan-Keeps _ _ _) λ l.
      bind-Keeps _ _ _ (refuse_if-Keeps _ _ _) λ a. bind-Keeps _ _ _ (ask-Keeps _ _) λ pledged.
        bind-Keeps _ _ _ (refuse_if-Keeps _ _ _) λ b. bind-Keeps _ _ _ (refuse_if-Keeps _ _ _) λ c.
          bind-Keeps _ _ _ (refuse_if-Keeps _ _ _) λ d.
            bind-Keeps _ _ _ (next_financier-Kept tenant _)
              λ f. write_loan-Kept _ _ (edited-IsScheduled o.floats equal _)

-- When every loan has the interest and the monthly payment that the formula gives for its amount, rate
-- and months, the same holds after any request on loans (a loan is requested, approved, rejected, repaid
-- or edited), whatever its outcome, provided that numbers which strict equality identifies are equal.
pub serve_loan-IsScheduled :
    {N : Type 0} (o : Outside N) (r : LoanRequest N) (w : Desk N)
    → SameIsEqual o.floats
    → Each (IsScheduled o.floats) w.loans
    → Each (IsScheduled o.floats) (serve_loan o r w).loans
unfolding serve_loan
serve_loan-IsScheduled o (LoanRequest.borrow tenant dto client actor behalf) w equal h =
    (create_loan-Kept o equal tenant dto client actor behalf).kept w h
serve_loan-IsScheduled o (LoanRequest.approve tenant id actor) w equal h =
    (approve_loan-Kept o equal tenant id actor).kept w h
serve_loan-IsScheduled o (LoanRequest.reject tenant id actor) w equal h =
    (reject_loan-Kept o equal tenant id actor).kept w h
serve_loan-IsScheduled o (LoanRequest.repay tenant id actor) w equal h =
    (repay_loan-Kept o equal tenant id actor).kept w h
serve_loan-IsScheduled o (LoanRequest.edit tenant id actor roles dto) w equal h =
    (edit_loan-Kept o equal tenant id actor roles dto).kept w h
