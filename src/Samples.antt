-- ===== src/Samples.antt =====
-- Concrete calls, rows and tables, which the tests run on.
use secure_store_backend.Prelude.{
  ℕ, ◌+◌, ◌≡◌, refl, String, Text, codes, true, false, none, some, List, [], ◌∷◌, map,
}
use secure_store_backend.Prelude.Int.{ℤ, pos, ◌-ℤ◌}
use secure_store_backend.Receipt.{
  Receipt, ReceiptStatus, ApprovalStatus, TxnType, HeldStatus, status_eq, approval_eq, held_status,
}
use secure_store_backend.Store.{find_first, find_event, modify, Db, empty}
use secure_store_backend.Balance.{IsColumn}
use secure_store_backend.Suffix.{base_receipt_number, next_suffix, existing_child_suffixes}
use secure_store_backend.Ledger.Call.{Call, ActorCtx}
use secure_store_backend.Ledger.Partition.{child_of}
use secure_store_backend.Ledger.Deposit.{DepositInput}
use secure_store_backend.Ledger.Hold.{HoldInput}
use secure_store_backend.Ledger.HoldCase.{IsReady, held_tables}
use secure_store_backend.Ledger.History.{Command, execute, Reachable, AllReachable}

-- quantities in thousandths, which the column holds as they are
abbrev pub exact : ℤ → ℤ
exact q = q

pub exact-IsColumn : IsColumn exact
exact-IsColumn = record { sub_stored = λ a b ha hb. refl }

-- the call whose ids start at `n`
abbrev pub call_at : ℕ → Call
call_at n = record {
  column = exact;
  event_id = n;
  second_event_id = n + 1;
  receipt_id = n + 2;
  remainder_id = n + 3;
  now = n;
  default_number = λ id. codes "RCP-X";
  aborted = [];
}

abbrev pub actor : String → ActorCtx
actor key = record { tenant_id = 1; actor_user_id = some 7; idempotency_key = codes key }

abbrev maize : DepositInput
maize = record {
  client_id = 7;
  commodity_id = 3;
  warehouse_id = 4;
  quantity = pos 9500;
  grade = none;
  date_of_deposit = 1;
  expiry_date = none;
  receipt_number = some (codes "RCP-2026-AB12");
  grading_scores = none;
}

-- a withdrawal of 3 500 thousandths
abbrev pub withdrawal : HoldInput
withdrawal = record {
  source_receipt_id = 12;
  quantity = pos 3500;
  held_status = HeldStatus.withdrawal;
  txn_type = TxnType.withdrawal;
  txn_id = 90;
  metadata = none;
}

abbrev deposited : Db
deposited = execute (call_at 10) (actor "d") (Command.deposit maize) empty

abbrev pub approved : Db
approved = execute (call_at 20) (actor "a") (Command.approve_receipt 12 none none) deposited

abbrev pub held : Db
held = execute (call_at 30) (actor "h") (Command.hold withdrawal) approved

abbrev pub released : Db
released = execute (call_at 40) (actor "r") (Command.release 32 none) held

pub released-Reachable : Reachable exact released
released-Reachable =
    Reachable.call
      (Reachable.call
        (Reachable.call
          (Reachable.call Reachable.start (call_at 10) (actor "d") (Command.deposit maize) refl refl
            AllReachable.nobody)
          (call_at 20) (actor "a") (Command.approve_receipt 12 none none) refl tt
          AllReachable.nobody)
        (call_at 30) (actor "h") (Command.hold withdrawal) refl refl AllReachable.nobody)
      (call_at 40) (actor "r") (Command.release 32 none) refl tt AllReachable.nobody

-- an ACTIVE, APPROVED root with 9 500 thousandths
abbrev pub stock : Receipt
stock = record {
  id = 12;
  receipt_number = codes "RCP-2026-AB12";
  status = ReceiptStatus.active;
  tenant_id = 1;
  commodity_id = 3;
  quantity = pos 9500;
  grade = none;
  warehouse_id = 4;
  client_id = 7;
  approval_status = ApprovalStatus.approved;
  approved_by_id = some 2;
  approved_at = some 5;
  rejection_reason = none;
  grading_scores = none;
  computed_grade = none;
  parent_receipt_id = none;
  root_receipt_id = 12;
  is_parent = false;
  superseded_at = none;
  source_txn_type = some TxnType.deposit;
  source_txn_id = none;
  source_event_id = none;
  date_of_deposit = 1;
  expiry_date = none;
}

abbrev pub stocked : Db
stocked = record { receipts = stock ∷ []; events = []; trades = [] }

-- `stock` after it is split, and the two children of it
abbrev pub split_stock : List Receipt
split_stock =
    record stock { status = ReceiptStatus.split; is_parent = true }
    ∷ record stock {
      id = 32;
      receipt_number = codes "RCP-2026-AB12-A";
      quantity = pos 3500;
      parent_receipt_id = some 12;
    }
    ∷ record stock {
      id = 33;
      receipt_number = codes "RCP-2026-AB12-B";
      quantity = pos 6000;
      parent_receipt_id = some 12;
    }
    ∷ []

pub stocked-IsReady : IsReady (call_at 30) (actor "h") withdrawal stocked stock
unfolding find_first status_eq approval_eq find_event
stocked-IsReady = record {
  found = refl;
  active = refl;
  approved = refl;
  leaf = refl;
  positive = refl;
  fits = refl;
  new_key = refl;
  new_event = tt;
  new_held = (refl, tt);
  new_remainder = (refl, tt);
  two_ids = refl;
  unique = (tt, tt);
  calm = refl;
}

held_rows :
    map {B = ReceiptStatus × Text × ℤ}
      (λ r. (r.status, r.receipt_number, r.quantity))
      (held_tables (call_at 30) (actor "h") withdrawal stock stocked).receipts
    ≡ (ReceiptStatus.split, codes "RCP-2026-AB12", pos 9500)
      ∷ (ReceiptStatus.held_withdrawal, codes "RCP-2026-AB12-A", pos 3500)
      ∷ (ReceiptStatus.active, codes "RCP-2026-AB12-B", pos 6000)
      ∷ []
unfolding modify child_of ◌-ℤ◌ base_receipt_number next_suffix existing_child_suffixes held_status
held_rows = refl
