-- ===== src/Loans/Life.antt =====
-- The life of a loan over sequences of requests of src/loans/loans.service.ts.
use secure_store_backend.Prelude.{List, [], ◌∷◌}
use secure_store_backend.Service.Evolves.{Evolved, UniqueRows, Evolved-refl}
use secure_store_backend.Desk.{Desk, Loan, Outside}
use secure_store_backend.Loans.Scheduled.{LoanRequest, serve_loan}
use secure_store_backend.Loans.Steps.{
  loans_machine, Later, approve_loan-Ends, reject_loan-Ends, repay_loan-Ends, create_loan-Keeps,
  edit_loan-Keeps,
}

-- The tables after the requests, each with what it takes from outside, one after the other.
unfoldable pub serve_loans : {N : Type 0} → List (Outside N × LoanRequest N) → Desk N → Desk N
serve_loans [] w = w
serve_loans (r ∷ rs) w = serve_loans rs (serve_loan r.0 r.1 w)

one_request :
    {N : Type 0} (ls : List (Loan N)) (o : Outside N) (r : LoanRequest N) (w : Desk N)
    → Later ls w.loans
    → Later ls (serve_loan o r w).loans
unfolding serve_loan
one_request ls o (LoanRequest.borrow tenant dto client actor behalf) w h =
    (create_loan-Keeps ls o tenant dto client actor behalf).kept w h
one_request ls o (LoanRequest.approve tenant id actor) w h =
    (approve_loan-Ends ls o tenant id actor w h).ends
one_request ls o (LoanRequest.reject tenant id actor) w h =
    (reject_loan-Ends ls o tenant id actor w h).ends
one_request ls o (LoanRequest.repay tenant id actor) w h =
    (repay_loan-Ends ls o tenant id actor w h).ends
one_request ls o (LoanRequest.edit tenant id actor roles dto) w h =
    (edit_loan-Keeps ls o tenant id actor roles dto).kept w h

all_requests :
    {N : Type 0} (ls : List (Loan N)) (rs : List (Outside N × LoanRequest N)) (w : Desk N)
    → Later ls w.loans
    → Later ls (serve_loans rs w).loans
unfolding serve_loans
all_requests ls [] w h = h
all_requests ls (r ∷ rs) w h =
    all_requests ls rs (serve_loan r.0 r.1 w) (one_request ls r.0 r.1 w h)

-- When the ids of the loans are unique, they are unique after any requests on loans, whatever their
-- outcomes. Every loan is still there, at its place and with its id, and its status has only changed from
-- PENDING to ACTIVE or REJECTED and from ACTIVE to REPAID. The loans that have come in stand behind them,
-- in a status that such changes reach from PENDING.
pub serve_loans-Evolved :
    {N : Type 0} (rs : List (Outside N × LoanRequest N)) (w : Desk N)
    → UniqueRows loans_machine w.loans
    → UniqueRows loans_machine (serve_loans rs w).loans
      × Evolved loans_machine w.loans (serve_loans rs w).loans
serve_loans-Evolved rs w unique =
    all_requests w.loans rs w (unique, Evolved-refl loans_machine w.loans)
