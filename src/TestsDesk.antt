-- ===== src/TestsDesk.antt =====
-- Concrete runs of the services of trades, loans, release requests and liens, and the witnesses of what is
-- proved of them.
use secure_store_backend.Prelude.{
  ℕ, ◌+◌, ◌*◌, ◌/◌, ◌≡◌, refl, codes, true, false, none, some, List, [], ◌∷◌, ◌==◌, ==_iff, ltb,
  arith,
}
use secure_store_backend.Prelude.Int.{pos, ◌+ℤ◌, ◌-ℤ◌}
use secure_store_backend.Receipt.{ReceiptStatus}
use secure_store_backend.Store.{Db, Trade, TradeStatus, find_event, has_id}
use secure_store_backend.Pledges.{Lien, LienStatus}
use secure_store_backend.Samples.{call_at, released, stock}
use secure_store_backend.TestsSecurity.{marked, accounts}
use secure_store_backend.Service.{done, failed, answer, ask, given, refuse_if}
use secure_store_backend.Service.Rows.{Each, find_where}
use secure_store_backend.Service.Evolves.{Evolved, UniqueRows}
use secure_store_backend.Desk.{
  Desk, Loan, LoanStatus, Floats, Financier, Outside, ReleaseRequest, ReleaseRequestLine,
  ReleaseStatus, Refusal, key, release_already_pending,
}
use secure_store_backend.Trades.{find_trade, settle_trade}
use secure_store_backend.Trades.Settled.{IsSold, settle_trade_whole}
use secure_store_backend.Loans.{calculate_loan}
use secure_store_backend.Loans.Schedule.{IsScheduled}
use secure_store_backend.Loans.Scheduled.{LoanRequest, serve_loan, serve_loan-IsScheduled}
use secure_store_backend.Loans.Steps.{loans_machine}
use secure_store_backend.Loans.Life.{serve_loans, serve_loans-Evolved}
use secure_store_backend.Releases.{check_line, pending_for}
use secure_store_backend.Releases.Collateral.{IsCollateral}
use secure_store_backend.Releases.Life.{releases_machine, serve_liens-Evolved}
use secure_store_backend.Releases.Bounds.{LienRequest, serve_liens, serve_liens-IsCollateral}
use secure_store_backend.Prelude.{text_eq}
use secure_store_backend.Receipt.{includes, status_eq}
use secure_store_backend.Store.{
  find_first, find_unique, event_clashes, modify, load_or_throw, create_event, update_receipt,
}
use secure_store_backend.Transaction.{
  run_idempotent, with_serializable_tx, with_retries, transaction, settle,
}
use secure_store_backend.Ledger.Call.{lock_receipt_for_update, assert_held, event, event_row}
use secure_store_backend.Ledger.Rows.{release, rewrite_row}
use secure_store_backend.Security.{Purpose, is_numeric, all_digits, modify_otp}
use secure_store_backend.Security.Otp.{consume_otp, newest_unused}
use secure_store_backend.Service.{write, branch}
use secure_store_backend.Service.Rows.{modify_where}
use secure_store_backend.Desk.{on_accounts, on_ledger}
use secure_store_backend.Releases.{require_org, pending_request}
use secure_store_backend.Releases.Decide.{
  approve_release_request, lines_of, check_again, release_lines, release_line,
}
use secure_store_backend.Releases.Approved.{IsApproved, approve_release_request_shows}

-- whole numbers
abbrev wholes : Floats ℕ
wholes = record {
  plus = λ a b. a + b;
  times = λ a b. a * b;
  over = λ a b. a / b;
  of_int = λ n. n;
  is_positive = λ n. ltb 0 n;
  same = λ a b. a == b;
}

abbrev bank : Financier ℕ
bank = record { id = 5; interest_rate = 10; max_tenure = 12 }

-- what a call takes from outside at the time `n`
abbrev outside : ℕ → Outside ℕ
outside n = record {
  call = call_at n;
  crypto = marked;
  floats = wholes;
  as_float = λ d. d;
  text_of = λ id. id ∷ [];
  new_id = n;
  line_id = λ k. n + 1 + k;
  line_call = λ id. call_at (n + 5 + id);
  reference = codes "R-1";
  tenant_of = λ user. some 1;
  org_of = λ user. some (record { id = 5; is_suspended = false });
  financier = λ tenant id. some bank;
  is_assigned = λ tenant warehouse manager. false;
}

-- a trade of a receipt that is held for it
abbrev listed_trade : Trade
listed_trade = record {
  id = 70;
  reference = codes "T-1";
  tenant_id = 1;
  receipt_id = 12;
  seller_id = 7;
  buyer_id = none;
  quantity = pos 9500;
  price_per_unit = pos 0;
  total_price = pos 0;
  status = TradeStatus.listed;
  settled_at = none;
}

abbrev loan : Loan ℕ
loan = record {
  id = 80;
  reference = codes "L-1";
  tenant_id = 1;
  receipt_id = 32;
  client_id = 7;
  financier_id = 5;
  amount = 1200;
  interest_rate = 10;
  tenure_months = 12;
  total_interest = 120;
  monthly_payment = 110;
  status = LoanStatus.pending;
  notes = none;
  approved_at = none;
  repaid_at = none;
}

abbrev lien : Lien
lien = record {
  id = 90;
  tenant_id = 1;
  pledge_id = 100;
  receipt_id = 12;
  client_id = 7;
  financier_org_id = 5;
  quantity = pos 5000;
  remaining_quantity = pos 4000;
  status = LienStatus.partially_released;
  released_at = none;
}

abbrev pending_release : ReleaseRequest
pending_release = record {
  id = 95;
  tenant_id = 1;
  client_id = 7;
  financier_org_id = 5;
  requested_date = 3;
  note = none;
  status = ReleaseStatus.pending;
  decision_reason = none;
  decided_by_id = none;
  decided_at = none;
}

abbrev line : ReleaseRequestLine
line = record {
  id = 96;
  release_request_id = 95;
  lien_id = 90;
  receipt_id = 12;
  quantity = pos 1500;
}

abbrev desk : Db → Desk ℕ
desk d = record {
  ledger = d;
  accounts = accounts;
  loans = loan ∷ [];
  liens = lien ∷ [];
  requests = pending_release ∷ [];
  lines = line ∷ [];
  force_releases = [];
}

-- Of the 4 000 that remain of the lien, 1 500 are pending, so that 3 000 more are refused.
second_line_refused :
    (check_line 7 5 (record { lien_id = 90; quantity = pos 3000 }) (desk released)).0
    ≡ failed (release_already_pending 90 (pos 2500))
unfolding check_line find_where ask given refuse_if pending_for ◌+ℤ◌ ◌-ℤ◌
second_line_refused = refl

-- The interest of 1 200 at 10 % is 120, and 110 are due in each of the 12 months.
quote_computes :
    (calculate_loan (outside 50) 1 5 1200 (desk released)).0
    ≡ done (record { total_interest = 120; monthly_payment = 110 })
unfolding calculate_loan given refuse_if answer
quote_computes = refl

-- the receipt of the trade, held for it
abbrev for_sale : Db
for_sale = record {
  receipts = record stock { status = ReceiptStatus.held_trade } ∷ [];
  events = [];
  trades = listed_trade ∷ [];
}

found_trade : find_trade 70 1 for_sale.trades ≡ some listed_trade
unfolding find_where
found_trade = refl

no_event :
    find_event (key (outside 50) (codes "TRADE:") 70 (codes ":transfer")) for_sale.events ≡ none
unfolding find_event
no_event = refl

settle_trade_whole_example :
    ((x : Trade) (after : Desk ℕ)
      → settle_trade (outside 50) 1 70 8 (desk for_sale) ≡ (done x, after)
      → IsSold 1 12 70 8 50 listed_trade after.ledger
        × (7 == 8 ≡ false)
        × (has_id 1 (some 1) ≡ true))
    × ((e : Refusal)
        → (settle_trade (outside 50) 1 70 8 (desk for_sale)).0 ≡ failed e
        → (settle_trade (outside 50) 1 70 8 (desk for_sale)).1 ≡ desk for_sale)
settle_trade_whole_example =
    settle_trade_whole (outside 50) 1 70 8 (desk for_sale) listed_trade found_trade refl no_event
      refl

wholes_equal : (a b : ℕ) → (a == b) ≡ true → a ≡ b
wholes_equal a b = (==_iff a b).0

-- a client lowers the amount
abbrev lower : LoanRequest ℕ
lower =
    LoanRequest.edit 1 80 7 (record { is_admin = false; is_manager = false })
      (record { amount = some 600; financier_id = none; notes = none })

serve_loan-IsScheduled_example :
    Each (IsScheduled wholes) (serve_loan (outside 50) lower (desk released)).loans
serve_loan-IsScheduled_example =
    serve_loan-IsScheduled (outside 50) lower (desk released) wholes_equal
      (record { interest = refl; payment = refl }, tt)

-- the loan is approved and repaid, and a second repayment is refused
abbrev loan_session : List (Outside ℕ × LoanRequest ℕ)
loan_session =
    (outside 50, LoanRequest.approve 1 80 (some 2))
    ∷ (outside 60, LoanRequest.repay 1 80 (some 2))
    ∷ (outside 70, LoanRequest.repay 1 80 (some 2))
    ∷ []

serve_loans-Evolved_example :
    UniqueRows loans_machine (serve_loans loan_session (desk released)).loans
    × Evolved loans_machine (loan ∷ []) (serve_loans loan_session (desk released)).loans
serve_loans-Evolved_example = serve_loans-Evolved loan_session (desk released) (tt, tt)

-- a second request, and the approval of the first
abbrev lien_session : List (Outside ℕ × LienRequest)
lien_session =
    (
      outside 50,
      LienRequest.ask_release 7 (record {
        financier_id = 5;
        requested_date = 9;
        note = none;
        lines = record { lien_id = 90; quantity = pos 2500 } ∷ [];
      }),
    )
    ∷ (outside 60, LienRequest.approve_release 2 95 (codes "123456"))
    ∷ []

desk-IsCollateral : IsCollateral (desk released)
desk-IsCollateral = record {
  liens = (record { held = λ h. omega arith; ended = λ h. cc }, tt);
  lines = (omega arith, tt);
}

serve_liens-IsCollateral_example : IsCollateral (serve_liens lien_session (desk released))
serve_liens-IsCollateral_example =
    serve_liens-IsCollateral lien_session (desk released) desk-IsCollateral

serve_liens-Evolved_example :
    UniqueRows releases_machine (serve_liens lien_session (desk released)).requests
    × Evolved releases_machine
        (pending_release ∷ [])
        (serve_liens lien_session (desk released)).requests
serve_liens-Evolved_example = serve_liens-Evolved lien_session (desk released) (tt, tt)

-- a request for all that remains of the lien, and a code for its approval
abbrev full_desk : Desk ℕ
full_desk =
    record (desk (record for_sale {
      receipts = record stock { status = ReceiptStatus.held_lien; quantity = pos 4000 } ∷ [];
    })) {
      lines = record line { quantity = pos 4000 } ∷ [];
      accounts = record {
        users = [];
        otps =
            record {
              id = 1;
              user_id = 2;
              purpose = Purpose.release_approve;
              code_hash = codes "123456";
              expires_at = 900;
              used_at = none;
              attempts = 0;
            }
            ∷ [];
        outbox = [];
      };
    }

abbrev full_release : Desk ℕ
full_release = (approve_release_request (outside 60) 2 95 (codes "123456") full_desk).1

approval_runs :
    approve_release_request (outside 60) 2 95 (codes "123456") full_desk ≡ (done tt, full_release)
unfolding approve_release_request require_org pending_request lines_of check_again release_lines
    release_line on_accounts consume_otp newest_unused is_numeric all_digits text_eq modify_otp
    find_where modify_where ask given refuse_if branch write answer on_ledger release run_idempotent
    with_serializable_tx with_retries transaction settle rewrite_row lock_receipt_for_update
    load_or_throw assert_held event event_row create_event update_receipt find_first find_unique
    find_event event_clashes modify includes status_eq
approval_runs = refl

approve_release_request_shows_example :
    IsApproved (outside 60) 2 95 (codes "123456") full_desk full_release
approve_release_request_shows_example =
    approve_release_request_shows (outside 60) 2 95 (codes "123456") full_desk full_release tt
      approval_runs
