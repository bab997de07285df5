-- ===== src/TestsPledges.antt =====
-- Concrete pledges, and the theorems on them and on a repeated hold applied to these.
use secure_store_backend.Prelude.{
  ℕ, ◌+◌, ◌*◌, ◌≡◌, refl, codes, true, false, none, some, List, [], ◌∷◌, arith, ◌==◌, Bool-cases,
  inl, inr,
}
use secure_store_backend.Prelude.Int.{pos, ◌+ℤ◌}
use secure_store_backend.Receipt.{Receipt, ReceiptStatus, held_pledge_pending, includes, status_eq}
use secure_store_backend.Store.{find_unique}
use secure_store_backend.Store.Totals.{All, total}
use secure_store_backend.Balance.{IsBalanced}
use secure_store_backend.Ledger.Call.{Call}
use secure_store_backend.Pledges.{Pledge, PledgeStatus, Lookups, Org}
use secure_store_backend.Pledges.Encumbrance.{encumbrance_of}
use secure_store_backend.Pledges.Sums.{is_covered, encumbrance_of-total}
use secure_store_backend.Pledges.Steps.{pledges_machine}
use secure_store_backend.Pledges.Life.{Request, serve_pledges, serve_pledges-Evolved}
use secure_store_backend.Service.Evolves.{Evolved, UniqueRows}
use secure_store_backend.Samples.{exact, call_at, stock, released}

abbrev bank : Org
bank = record { id = 5; is_suspended = false }

abbrev answers : Lookups
answers = record {
  caller_tenant = some 1;
  caller_org = some bank;
  unit_of_measure = codes "kg";
  link = some (record { org_id = 5; org_is_active = true; pledge_ttl_days = none });
  valuation = none;
  default_ttl_days = 7;
  otp_is_valid = true;
  text_of = λ id. id ∷ [];
  day = 86400;
}

-- for each pledge, its call of the ledger
abbrev answers_calls : ℕ → Call
answers_calls n = call_at (100 + n * 10)

abbrev accepted_pledge : Pledge
accepted_pledge = record {
  id = 3;
  tenant_id = 1;
  receipt_id = 12;
  held_receipt_id = some 32;
  client_id = 7;
  financier_org_id = 5;
  warehouse_id = 4;
  quantity = pos 3500;
  unit = codes "kg";
  valuation_at_pledge = none;
  currency = codes "NGN";
  status = PledgeStatus.accepted;
  client_note = none;
  decision_reason = none;
  decided_by_id = some 8;
  decided_at = some 50;
  expires_at = 900;
}

-- the row `stock` split, with a part under a pending pledge
abbrev pledged_table : List Receipt
pledged_table =
    record stock { status = ReceiptStatus.split; is_parent = true }
    ∷ record stock {
      id = 32;
      receipt_number = codes "RCP-2026-AB12-A";
      quantity = pos 3500;
      status = held_pledge_pending;
      parent_receipt_id = some 12;
    }
    ∷ record stock {
      id = 33;
      receipt_number = codes "RCP-2026-AB12-B";
      quantity = pos 6000;
      parent_receipt_id = some 12;
    }
    ∷ []

pledged_table-IsBalanced : IsBalanced exact pledged_table
unfolding total status_eq ◌+ℤ◌
pledged_table-IsBalanced = record {
  unique = ((refl, (refl, tt)), ((refl, tt), (tt, tt)));
  rows = (
    record { flag = refl; positive = omega arith; stored = refl },
    (
      record { flag = refl; positive = omega arith; stored = refl },
      (record { flag = refl; positive = omega arith; stored = refl }, tt),
    ),
  );
  leaves =
      λ root. elim (Bool-cases (12 == root)) [ inl is ↦ rw is refl | inr other ↦ rw other refl ];
  children = λ id. elim (Bool-cases (12 == id)) [ inl is ↦ rw is refl | inr other ↦ rw other refl ];
}

encumbrance_of-total_example :
    (encumbrance_of
        (record stock { status = ReceiptStatus.split; is_parent = true })
        pledged_table).available
      +ℤ (encumbrance_of
          (record stock { status = ReceiptStatus.split; is_parent = true })
          pledged_table).pledge_pending
      +ℤ (encumbrance_of
          (record stock { status = ReceiptStatus.split; is_parent = true })
          pledged_table).liened
    ≡ (encumbrance_of
        (record stock { status = ReceiptStatus.split; is_parent = true })
        pledged_table).total_quantity
encumbrance_of-total_example =
    encumbrance_of-total exact pledged_table
      (record stock { status = ReceiptStatus.split; is_parent = true }) pledged_table-IsBalanced
      source_is_found refl covered
  where
    source_is_found :
        find_unique 12 pledged_table
        ≡ some (record stock { status = ReceiptStatus.split; is_parent = true })
    source_is_found = unfold find_unique in refl

    covered :
        All
          (λ r.
            is_covered (record stock { status = ReceiptStatus.split; is_parent = true }) r ≡ true)
          pledged_table
    covered = unfold includes in (refl, (refl, (refl, tt)))

-- A pledge is made, a second decision on it is refused after the first, and the stale ones are expired.
abbrev pledge_session : List ((ℕ → Call) × Lookups × Request)
pledge_session =
    (
      answers_calls,
      answers,
      Request.create 7 100
          (record { receipt_id = 33; financier_id = 5; quantity = pos 1000; note = none }),
    )
    ∷ (answers_calls, answers, Request.cancel 7 100)
    ∷ (answers_calls, answers, Request.accept 8 100 40 none)
    ∷ (answers_calls, answers, Request.expire_stale 5000)
    ∷ []

serve_pledges-Evolved_example :
    UniqueRows pledges_machine
      (serve_pledges pledge_session
        (record { ledger = released; pledges = accepted_pledge ∷ []; liens = [] })).pledges
    × Evolved pledges_machine
        (accepted_pledge ∷ [])
        (serve_pledges pledge_session
          (record { ledger = released; pledges = accepted_pledge ∷ []; liens = [] })).pledges
serve_pledges-Evolved_example =
    serve_pledges-Evolved pledge_session
      (record { ledger = released; pledges = accepted_pledge ∷ []; liens = [] }) (tt, tt)
