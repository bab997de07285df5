-- ===== src/Ledger/HoldReplay.antt =====
-- A second call of `hold` with the key of a call that succeeded.
use secure_store_backend.Prelude.{
  ℕ, Text, text_eq_iff, ◌≡◌, refl, sym, ap, ◌∙◌, true, false, none, some, List, [], ◌∷◌, ◌++◌,
  arith, inl, inr, Bool-cases, ◌==◌, ==_iff, if◌then◌else◌,
}
use mathlib.Core.Path.{subst}
use secure_store_backend.Receipt.{
  Receipt, InventoryEvent, ReceiptStatus, status_eq, includes, held_statuses, held_status-held,
}
use secure_store_backend.Store.{
  Db, Tx, ok, find_first, modify, find_event, with_source_event, has_id,
}
use secure_store_backend.Store.Totals.{IsFresh, modify_fresh}
use secure_store_backend.Store.Modify.{find_first_id, All-find_unique}
use secure_store_backend.Store.Runs.{load_runs}
use secure_store_backend.Transaction.{run_idempotent}
use secure_store_backend.Ledger.Call.{Call, ActorCtx, by_event, affected, event_row}
use secure_store_backend.Ledger.Partition.{superseded, child_of}
use secure_store_backend.Ledger.Hold.{HoldInput, HoldResult, hold, reconstruct_hold, find_receipt}
use secure_store_backend.Ledger.HoldCase.{
  IsReady, hold_event, held_row, remainder_row, takes_all, children_of, held_tables,
}
use secure_store_backend.Ledger.HoldRuns.{source_found}

-- The event that was added last is found by its key.
find_event_last :
    (e : InventoryEvent) (es : List InventoryEvent)
    → find_event e.idempotency_key es ≡ none
    → find_event e.idempotency_key (es ++ e ∷ []) ≡ some e
unfolding find_event
find_event_last e [] h = rw ((text_eq_iff e.idempotency_key e.idempotency_key).1 refl) refl
find_event_last e (x ∷ es) h = ground (arith, h, find_event_last e es)

with_source_event-append :
    (id : ℕ) (rs more : List Receipt)
    → with_source_event id rs ≡ []
    → with_source_event id (rs ++ more) ≡ with_source_event id more
unfolding with_source_event
with_source_event-append id [] more h = refl
with_source_event-append id (r ∷ rs) more h = elim (Bool-cases (has_id id r.source_event_id)) [
  | inl is ↦ cc (ap (λ b. if b then r ∷ with_source_event id rs else with_source_event id rs) is, h)
  | inr other ↦ rw other (
      with_source_event-append id rs more (
        ap (λ b. if b then r ∷ with_source_event id rs else with_source_event id rs) (sym other)
        ∙ h))
]

-- The mark on the source leaves the events of the rows as they are.
with_source_event-superseded :
    (id now k : ℕ) (rs : List Receipt)
    → with_source_event id rs ≡ []
    → with_source_event id (modify k (superseded now) rs) ≡ []
unfolding with_source_event modify
with_source_event-superseded id now k [] h = refl
with_source_event-superseded id now k (r ∷ rs) h = elim (Bool-cases (has_id id r.source_event_id)) [
  | inl is ↦ cc (ap (λ b. if b then r ∷ with_source_event id rs else with_source_event id rs) is, h)
  | inr other ↦
      let rest = with_source_event-superseded id now k rs (
        ap (λ b. if b then r ∷ with_source_event id rs else with_source_event id rs) (sym other)
        ∙ h) in
      elim (Bool-cases (r.id == k)) [
        | inl here ↦ rw (here, other) rest
        | inr there ↦ rw (there, other) rest
      ]
]

modify-append :
    (k : ℕ) (f : Receipt → Receipt) (rs more : List Receipt)
    → modify k f (rs ++ more) ≡ modify k f rs ++ modify k f more
unfolding modify
modify-append k f [] more = refl
modify-append k f (r ∷ rs) more =
    ap (λ t. (if r.id == k then f r else r) ∷ t) (modify-append k f rs more)

-- The row that is found is found again, with its mark.
find_first-superseded :
    (k tenant now : ℕ) (rs more : List Receipt) {r : Receipt}
    → find_first k tenant rs ≡ some r
    → find_first k tenant (modify k (superseded now) (rs ++ more)) ≡ some (superseded now r)
unfolding find_first modify
find_first-superseded k t now [] more h = cc
find_first-superseded k t now (x ∷ rs) more {r} h = elim (Bool-cases (x.id == k)) [
  | inl same ↦ elim (Bool-cases (x.tenant_id == t)) [
    | inl ten ↦
        let is : x ≡ r = ground (arith, h) in
        rw (same, same, ten) (ap (λ y. some (superseded now y)) is)
    | inr away ↦
        rw (same, same, away) (find_first-superseded k t now rs more {r = r} (ground (arith, h)))
  ]
  | inr other ↦
      rw (other, other) (find_first-superseded k t now rs more {r = r} (ground (arith, h)))
]

prior_runs :
    {A : Type 0} (key : Text) (reconstruct : InventoryEvent → Tx A) (work : Tx A) (d : Db)
    (e : InventoryEvent)
    → find_event key d.events ≡ some e
    → run_idempotent key reconstruct work d ≡ reconstruct e d
unfolding run_idempotent
prior_runs key reconstruct work d e found = rw (found, run_idempotent)

==_sym : (a b : ℕ) → (a == b) ≡ false → (b == a) ≡ false
==_sym a b h = ground arith

module _ (c : Call) (a : ActorCtx) (input : HoldInput) (d : Db) (s : Receipt)
    (h : IsReady c a input d s) (new : with_source_event c.event_id d.receipts ≡ []) where
  abbrev kids : List Receipt
  kids = children_of c a input s d.receipts

  abbrev after : Db
  after = held_tables c a input s d

  kids-IsFresh : IsFresh s.id kids
  unfolding child_of
  kids-IsFresh =
      let first = ==_sym s.id c.receipt_id (
        All-find_unique (λ r. (r.id == c.receipt_id) ≡ false) s.id d.receipts h.new_held
          (source_found c a input d s h)) in
      let second = ==_sym s.id c.remainder_id (
        All-find_unique (λ r. (r.id == c.remainder_id) ≡ false) s.id d.receipts h.new_remainder
          (source_found c a input d s h)) in
      elim (Bool-cases (takes_all c a input s)) [
        | inl all ↦ rw all (first, tt)
        | inr part ↦ rw part (first, (second, tt))
      ]

  kids_of_event : with_source_event c.event_id kids ≡ kids
  unfolding with_source_event child_of
  kids_of_event =
      let is : (c.event_id == c.event_id) ≡ true = (==_iff c.event_id c.event_id).1 refl in
      elim (Bool-cases (takes_all c a input s)) [
        | inl all ↦ rw (all, is)
        | inr part ↦ rw (part, is)
      ]

  kids_found : with_source_event c.event_id after.receipts ≡ kids
  kids_found =
      ap (with_source_event c.event_id) (
        modify-append s.id (superseded c.now) d.receipts kids
        ∙ ap (λ l. modify s.id (superseded c.now) d.receipts ++ l)
            (modify_fresh s.id (superseded c.now) kids kids-IsFresh))
      ∙ with_source_event-append c.event_id (modify s.id (superseded c.now) d.receipts) kids
          (with_source_event-superseded c.event_id c.now s.id d.receipts new)
      ∙ kids_of_event

  event_found : find_event a.idempotency_key after.events ≡ some (hold_event c a input s)
  unfolding event_row
  event_found = find_event_last (hold_event c a input s) d.events h.new_key

  affected_found : affected (hold_event c a input s) after ≡ (ok (superseded c.now s), after)
  unfolding affected event_row
  affected_found = load_runs s.id a.tenant_id after (
      find_first-superseded s.id a.tenant_id c.now d.receipts kids (
        subst (λ k. find_first k a.tenant_id d.receipts ≡ some s)
          (sym (find_first_id input.source_receipt_id a.tenant_id d.receipts h.found)) h.found))

  by_event_found : by_event (hold_event c a input s) after ≡ (ok kids, after)
  unfolding by_event event_row
  by_event_found = ap (λ l. (ok l, after)) kids_found

  held_found :
      find_receipt (λ k. includes held_statuses k.status) kids
      ≡ some (held_row c a input s d.receipts)
  unfolding find_receipt child_of
  held_found = rw ((held_status-held input.held_status).0) refl

  remainder_found :
      find_receipt (λ k. status_eq k.status ReceiptStatus.active) kids
      ≡ (if takes_all c a input s then none else some (remainder_row c a input s d.receipts))
  unfolding find_receipt child_of
  remainder_found =
      let active : status_eq ReceiptStatus.active ReceiptStatus.active ≡ true =
        unfold status_eq in refl in
      elim (Bool-cases (takes_all c a input s)) [
        | inl all ↦ rw (all, (held_status-held input.held_status).2)
        | inr part ↦ rw (part, (held_status-held input.held_status).2, active)
      ]

  abbrev pub replayed : HoldResult
  replayed = record {
    source = superseded c.now s;
    held = held_row c a input s d.receipts;
    remainder = if takes_all c a input s then none else some (remainder_row c a input s d.receipts);
  }

  reconstruct_runs : reconstruct_hold (hold_event c a input s) after ≡ (ok replayed, after)
  unfolding reconstruct_hold
  reconstruct_runs = rw (by_event_found, affected_found, held_found, remainder_found)

-- After a `hold` that meets the conditions of IsReady, on tables where no receipt names the new event
-- as its source, a second `hold` with the same key and tenant returns, for any input and whatever it
-- takes from outside, the held child and the remainder that the first call created and the source's
-- row as the first call left it, and changes nothing.
pub hold_replays :
    (c : Call) (a : ActorCtx) (input : HoldInput) (d : Db) (s : Receipt)
    → IsReady c a input d s
    → with_source_event c.event_id d.receipts ≡ []
    → (c2 : Call) (input2 : HoldInput)
    → hold c2 a input2 (held_tables c a input s d) ≡ (
      ok (record {
        source = superseded c.now s;
        held = held_row c a input s d.receipts;
        remainder =
            if takes_all c a input s then none else some (remainder_row c a input s d.receipts);
      }),
      held_tables c a input s d,
    )
unfolding hold
hold_replays c a input d s h new c2 input2 =
    prior_runs a.idempotency_key reconstruct_hold _ (held_tables c a input s d)
      (hold_event c a input s) (event_found c a input d s h new)
    ∙ reconstruct_runs c a input d s h new
