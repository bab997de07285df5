-- ===== src/Loans/Steps.antt =====
-- The life of a loan over the requests of src/loans/loans.service.ts.
use secure_store_backend.Prelude.{
  ℕ, Text, ◌≡◌, refl, sym, Bool, false, not, Option, none, some, List, ◌==◌,
}
use mathlib.Core.Path.{subst}
use secure_store_backend.Store.{Tx}
use secure_store_backend.Service.{write, ask, ◌>>=◌}
use secure_store_backend.Service.Keeps.{
  Keeps, bind-Keeps, refuse_if-Keeps, given-Keeps, ask-Keeps, answer-Keeps, write-Keeps,
}
use secure_store_backend.Service.Ends.{
  Ends, step-Ends, ask-Ends, given-Ends, refuse_if-Ends, branch-Ends, answer-Ends, last_write-Ends,
  from_everywhere,
}
use secure_store_backend.Service.Evolves.{
  Reaches, Machine, Evolved, UniqueRows, Evolved-trans, Evolved-append, Evolved-found, Evolved-all,
  modified_unique, appended_unique,
}
use secure_store_backend.Desk.{
  Desk, Loan, LoanStatus, Floats, Financier, Outside, Act, Refusal, on_ledger, receipt_in_tenant,
}
use secure_store_backend.Desk.Rules.{on_ledger-Keeps, on_accounts-Keeps}
use secure_store_backend.Loans.{
  CreateLoan, create_loan, upsert_loan, load_loan, find_loan, modify_loan, update_loan,
  approve_loan, reject_loan, repay_loan, is_pending, is_active, loan_not_found,
}
use secure_store_backend.Loans.Edit.{
  Roles, EditLoan, Changes, edit_loan, next_financier, edited, rescheduled,
}

-- The changes of a loan's status that the program makes.
pub data LoanEdge : LoanStatus → LoanStatus → Type 0 where
  approval : LoanEdge LoanStatus.pending LoanStatus.active
  rejection : LoanEdge LoanStatus.pending LoanStatus.rejected
  repayment : LoanEdge LoanStatus.active LoanStatus.repaid

abbrev pub loans_machine : {N : Type 0} → Machine (Loan N) LoanStatus
loans_machine = record {
  id_of = λ l. l.id;
  status_of = λ l. l.status;
  initial = LoanStatus.pending;
  Edge = LoanEdge;
}

is_pending_iff : (s : LoanStatus) → not (is_pending s) ≡ false → s ≡ LoanStatus.pending
is_pending_iff LoanStatus.pending h = refl
is_pending_iff _ h = cc

is_active_iff : (s : LoanStatus) → not (is_active s) ≡ false → s ≡ LoanStatus.active
is_active_iff LoanStatus.active h = refl
is_active_iff _ h = cc

-- one change from the status that the guard has found
edge_from : {s t u : LoanStatus} → s ≡ t → LoanEdge t u → Reaches LoanEdge s u
edge_from {s} {t} {u} e edge =
    subst (λ x. Reaches LoanEdge x u) (sym e) (Reaches.change Reaches.stay edge)

edited_by :
    {N : Type 0} (F : Floats N) (a : Option N) (f : Option (Financier N)) (n : Option Text)
    (l : Loan N)
    → ((edited F (record { amount = a; financier = f; notes = n }) l).id ≡ l.id)
      × ((edited F (record { amount = a; financier = f; notes = n }) l).status ≡ l.status)
unfolding edited rescheduled
edited_by F none none n l = (refl, refl)
edited_by F (some a) f n l = (refl, refl)
edited_by F none (some f) n l = (refl, refl)

-- An edit leaves the id and the status.
edited_still :
    {N : Type 0} (F : Floats N) (x : Changes N) (l : Loan N)
    → ((edited F x l).id ≡ l.id) × ((edited F x l).status ≡ l.status)
edited_still F x l = edited_by F x.amount x.financier x.notes l

module _ {N : Type 0} (ls : List (Loan N)) where
  -- The ids stay unique, and the loans have evolved from those at the start.
  abbrev pub Later : List (Loan N) → Type 0
  Later now = UniqueRows loans_machine now × Evolved loans_machine ls now

  abbrev pub OnDesk : Desk N → Type 0
  OnDesk w = Later w.loans

  load_loan-Ends :
      (tenant id : ℕ) (f : Loan N → Act N (Unit {0})) (w : Desk N)
      → OnDesk w
      → ((l : Loan N) → find_loan id tenant w.loans ≡ some l → Ends OnDesk (f l) w)
      → Ends OnDesk (load_loan tenant id >>= f) w
  unfolding load_loan ask
  load_loan-Ends tenant id f w p h = record {
    ends = (given-Ends (find_loan id tenant w.loans) loan_not_found f w p h).ends;
  }

  -- The ledger leaves the loans alone.
  ledger-Ends :
      {A : Type 0} (work : Tx A) (f : A → Act N (Unit {0})) (w : Desk N)
      → OnDesk w
      → ((a : A) (w' : Desk N) → w'.loans ≡ w.loans → Ends OnDesk (f a) w')
      → Ends OnDesk (on_ledger work >>= f) w
  unfolding on_ledger
  ledger-Ends work f w p h = step-Ends _ f w (record { ends = p }) λ a e q. h a _ refl

  moved :
      (tenant id : ℕ) (f : Loan N → Loan N) (w w' : Desk N) {l : Loan N}
      → OnDesk w
      → find_loan id tenant w.loans ≡ some l
      → ((x : Loan N) → (f x).id ≡ x.id)
      → Reaches LoanEdge l.status (f l).status
      → w'.loans ≡ w.loans
      → Ends {E = Refusal} OnDesk (write (update_loan id f)) w'
  moved tenant id f w w' {l} p found keeps reaches same = last_write-Ends _ w' (
      subst (λ now. Later (modify_loan id f now)) (sym same)
        (
          modified_unique loans_machine id f w.loans keeps p.0,
          Evolved-trans loans_machine ls w.loans _ p.1 (
              Evolved-found loans_machine id (λ x. x.tenant_id == tenant) f w.loans p.0 found
                (sym (keeps l), reaches)),
        ))

  pub approve_loan-Ends :
      (o : Outside N) (tenant id : ℕ) (actor : Option ℕ) (w : Desk N)
      → OnDesk w
      → Ends OnDesk (approve_loan o tenant id actor) w
  unfolding approve_loan
  approve_loan-Ends o tenant id actor w p = load_loan-Ends tenant id _ w p λ l found.
      refuse_if-Ends _ _ _ w p λ pending. ledger-Ends _ _ w p λ r w' same.
        moved tenant id _ w w' p found (λ x. refl)
          (edge_from (is_pending_iff l.status pending) approval) same

  pub reject_loan-Ends :
      (o : Outside N) (tenant id : ℕ) (actor : Option ℕ) (w : Desk N)
      → OnDesk w
      → Ends OnDesk (reject_loan o tenant id actor) w
  unfolding reject_loan
  reject_loan-Ends o tenant id actor w p = load_loan-Ends tenant id _ w p λ l found.
      refuse_if-Ends _ _ _ w p λ pending. ledger-Ends _ _ w p λ r w' same.
        moved tenant id _ w w' p found (λ x. refl)
          (edge_from (is_pending_iff l.status pending) rejection) same

  pub repay_loan-Ends :
      (o : Outside N) (tenant id : ℕ) (actor : Option ℕ) (w : Desk N)
      → OnDesk w
      → Ends OnDesk (repay_loan o tenant id actor) w
  unfolding repay_loan
  repay_loan-Ends o tenant id actor w p = load_loan-Ends tenant id _ w p λ l found.
      refuse_if-Ends _ _ _ w p λ active. ledger-Ends _ _ w p λ r w' same.
        moved tenant id _ w w' p found (λ x. refl)
          (edge_from (is_active_iff l.status active) repayment) same

  upsert_loan-Keeps : (l : Loan N) → l.status ≡ LoanStatus.pending → Keeps OnDesk (upsert_loan l)
  unfolding upsert_loan
  upsert_loan-Keeps l pending = from_everywhere _ λ w p. ask-Ends _ _ w (
      branch-Ends _ _ _ w (λ there. answer-Ends tt w p)
        λ gone. ask-Ends _ _ w (
          refuse_if-Ends _ _ _ w p λ free. last_write-Ends _ w (
            appended_unique loans_machine l w.loans gone p.0,
            Evolved-trans loans_machine ls w.loans _ p.1
                (Evolved-append loans_machine w.loans l pending),
          )))

  pub create_loan-Keeps :
      (o : Outside N) (tenant : ℕ) (dto : CreateLoan N) (client : ℕ) (actor : Option ℕ)
      (behalf : Bool)
      → Keeps OnDesk (create_loan o tenant dto client actor behalf)
  unfolding create_loan receipt_in_tenant
  create_loan-Keeps o tenant dto client actor behalf =
      bind-Keeps _ _ _ (on_accounts-Keeps OnDesk _ λ w p. p) λ u.
        bind-Keeps _ _ _ (bind-Keeps _ _ _ (ask-Keeps _ _) λ row. given-Keeps _ _ _) λ r.
          bind-Keeps _ _ _ (given-Keeps _ _ _) λ f. bind-Keeps _ _ _ (refuse_if-Keeps _ _ _) λ v.
            bind-Keeps _ _ _ (on_ledger-Keeps OnDesk _ λ w p. p) λ held. upsert_loan-Keeps _ refl

  next_financier-Keeps :
      (o : Outside N) (tenant : ℕ) (id : Option ℕ) → Keeps OnDesk (next_financier o tenant id)
  unfolding next_financier
  next_financier-Keeps o tenant none = answer-Keeps _ _
  next_financier-Keeps o tenant (some id) =
      bind-Keeps _ _ _ (given-Keeps _ _ _) λ f. answer-Keeps _ _

  -- A write that leaves every status as it is.
  still-Keeps :
      (id : ℕ) (f : Loan N → Loan N)
      → ((x : Loan N) → ((f x).id ≡ x.id) × ((f x).status ≡ x.status))
      → Keeps {S = Desk N} {E = Refusal} OnDesk (write (update_loan id f))
  still-Keeps id f h = write-Keeps _ _ λ w p. (
    modified_unique loans_machine id f w.loans (λ x. (h x).0) p.0,
    Evolved-trans loans_machine ls w.loans _ p.1 (
        Evolved-all loans_machine _ f w.loans λ x.
          (sym ((h x).0), subst (λ s. Reaches LoanEdge x.status s) (sym ((h x).1)) Reaches.stay)),
  )

  edit_write-Keeps :
      (id : ℕ) (F : Floats N) (x : Changes N)
      → Keeps {S = Desk N} {E = Refusal} OnDesk (write (update_loan id (edited F x)))
  edit_write-Keeps id F x = still-Keeps id (edited F x) (edited_still F x)

  pub edit_loan-Keeps :
      (o : Outside N) (tenant id actor : ℕ) (roles : Roles) (dto : EditLoan N)
      → Keeps OnDesk (edit_loan o tenant id actor roles dto)
  unfolding edit_loan load_loan
  edit_loan-Keeps o tenant id actor roles dto =
      bind-Keeps _ _ _ (bind-Keeps _ _ _ (ask-Keeps _ _) λ row. given-Keeps _ _ _) λ l.
        bind-Keeps _ _ _ (refuse_if-Keeps _ _ _) λ a. bind-Keeps _ _ _ (ask-Keeps _ _) λ pledged.
          bind-Keeps _ _ _ (refuse_if-Keeps _ _ _) λ b.
            bind-Keeps _ _ _ (refuse_if-Keeps _ _ _) λ c.
              bind-Keeps _ _ _ (refuse_if-Keeps _ _ _) λ d.
                bind-Keeps _ _ _ (next_financier-Keeps o tenant _)
                  λ f. edit_write-Keeps _ o.floats _
