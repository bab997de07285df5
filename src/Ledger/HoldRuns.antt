-- ===== src/Ledger/HoldRuns.antt =====
-- What `hold` returns and writes when its conditions are met.
use secure_store_backend.Prelude.{
  Text, text_eq, ◌≡◌, refl, sym, ap, ◌∙◌, true, false, none, some, List, [], ◌∷◌, ◌++◌, inl, inr,
  Bool-cases, ◌==◌, if◌then◌else◌,
}
use mathlib.Core.Path.{subst}
use secure_store_backend.Prelude.Int.{◌-ℤ◌}
use secure_store_backend.Receipt.{Receipt, InventoryEvent, InventoryEventType}
use secure_store_backend.Store.{
  create_receipt, Db, Tx, ok, pure, find_unique, modify, find_event, event_clashes, clashes,
}
use secure_store_backend.Store.Totals.{find_unique_of_first, find_unique-append}
use secure_store_backend.Store.Modify.{find_first_id, All-append}
use secure_store_backend.Store.Runs.{
  runs_next, load_runs, clashes_of_free, create_runs, create_event_runs, update_runs,
}
use secure_store_backend.Suffix.{
  base_receipt_number, next_suffix, existing_child_suffixes, child_number,
}
use secure_store_backend.Suffix.Fresh.{child_number-NumberIsFree, second_child_number-NumberIsFree}
use secure_store_backend.Transaction.{
  with_serializable_tx, run_idempotent, with_retries, transaction, settle, on_failure,
}
use secure_store_backend.Ledger.Call.{Call, ActorCtx, event, event_row, lock_receipt_for_update}
use secure_store_backend.Ledger.Rows.{event_of}
use secure_store_backend.Ledger.Partition.{
  child_of, superseded, partition, create_remainder, read_suffixes,
}
use secure_store_backend.Ledger.Hold.{
  HoldInput, check_transactable, hold_primary, hold_work, hold, reconstruct_hold,
}
use secure_store_backend.Ledger.HoldCase.{
  EventIsFree, IsReady, hold_event, first_suffix, held_row, remainder_row, takes_all, children_of,
  held_result, held_tables,
}

event_clashes_of_free :
    (e : InventoryEvent) (es : List InventoryEvent)
    → EventIsFree e.id es
    → find_event e.idempotency_key es ≡ none
    → event_clashes e es ≡ false
unfolding event_clashes find_event
event_clashes_of_free e [] f k = refl
event_clashes_of_free e (x ∷ es) f k =
    elim (Bool-cases (text_eq x.idempotency_key e.idempotency_key)) [
      | inl same ↦ cc (ap (λ b. if b then some x else find_event e.idempotency_key es) same, k)
      | inr other ↦
          rw (f.0, other)
            (event_clashes_of_free e es f.1
              (ap (λ b. if b then some x else find_event e.idempotency_key es) (sym other) ∙ k))
    ]

read_suffixes_runs :
    (base : Text) (d : Db)
    → read_suffixes base d ≡ (ok (existing_child_suffixes base d.receipts), d)
unfolding read_suffixes
read_suffixes_runs base d = refl

append_assoc : (xs ys zs : List Receipt) → (xs ++ ys) ++ zs ≡ xs ++ (ys ++ zs)
append_assoc [] ys zs = refl
append_assoc (x ∷ xs) ys zs = ap (λ t. x ∷ t) (append_assoc xs ys zs)

module _ (c : Call) (a : ActorCtx) (input : HoldInput) (d : Db) (s : Receipt)
    (h : IsReady c a input d s) where
  check_runs : (x : Db) → check_transactable s input.quantity x ≡ (ok tt, x)
  unfolding check_transactable
  check_runs x = rw (h.active, h.approved, h.leaf, h.positive, h.fits)

  lock_runs : lock_receipt_for_update input.source_receipt_id a.tenant_id d ≡ (ok true, d)
  unfolding lock_receipt_for_update
  lock_runs = rw (h.found, lock_receipt_for_update)

  pub source_found : find_unique s.id d.receipts ≡ some s
  source_found =
      let found =
        find_unique_of_first input.source_receipt_id a.tenant_id d.receipts h.unique h.found in
      subst (λ k. find_unique k d.receipts ≡ some s)
        (sym (find_first_id input.source_receipt_id a.tenant_id d.receipts h.found)) found

  held_free : clashes (held_row c a input s d.receipts) d.receipts ≡ false
  unfolding child_of
  held_free =
      clashes_of_free (held_row c a input s d.receipts) d.receipts h.new_held
        (child_number-NumberIsFree (base_receipt_number s.receipt_number) d.receipts)

  remainder_free :
      clashes
        (remainder_row c a input s d.receipts)
        (d.receipts ++ held_row c a input s d.receipts ∷ [])
      ≡ false
  unfolding child_of
  remainder_free =
      clashes_of_free (remainder_row c a input s d.receipts)
        (d.receipts ++ held_row c a input s d.receipts ∷ [])
        (All-append (λ r. (r.id == c.remainder_id) ≡ false) d.receipts _ h.new_remainder
          (h.two_ids, tt))
        (second_child_number-NumberIsFree (base_receipt_number s.receipt_number) d.receipts
          (held_row c a input s d.receipts) refl)

  -- the step of the remainder, on the tables that the first child was added to
  abbrev after_held : List InventoryEvent → Db
  after_held events = record d {
    receipts = d.receipts ++ held_row c a input s d.receipts ∷ [];
    events = events;
  }

  remainder_runs :
      (events : List InventoryEvent)
      → create_remainder c s
          (child_number (base_receipt_number s.receipt_number) (
            next_suffix (
              existing_child_suffixes (base_receipt_number s.receipt_number) d.receipts
              ++ first_suffix c a input s d.receipts ∷ [])))
          (s.quantity -ℤ input.quantity)
          c.event_id
          (after_held events)
        ≡ (
          ok (if takes_all c a input s then none else some (remainder_row c a input s d.receipts)),
          record d { receipts = d.receipts ++ children_of c a input s d.receipts; events = events },
        )
  unfolding create_remainder
  remainder_runs events = elim (Bool-cases (takes_all c a input s)) [
    | inl all ↦ rw all
    | inr part ↦ rw part (
        runs_next (create_receipt (remainder_row c a input s d.receipts)) (λ row. pure (some row))
          (after_held events) (remainder_row c a input s d.receipts)
          (record (after_held events) {
            receipts = (after_held events).receipts ++ remainder_row c a input s d.receipts ∷ [];
          })
          (create_runs (remainder_row c a input s d.receipts) (after_held events) remainder_free)
          (ap
            (λ rs. (
              ok (some (remainder_row c a input s d.receipts)),
              record d { receipts = rs; events = events },
            ))
            (append_assoc d.receipts (held_row c a input s d.receipts ∷ [])
              (remainder_row c a input s d.receipts ∷ []))))
  ]

  partition_runs :
      (events : List InventoryEvent)
      → partition c s input.quantity
          (hold_primary input s)
          c.event_id
          (record d { events = events })
        ≡ (
          ok (
            held_row c a input s d.receipts,
            if takes_all c a input s then none else some (remainder_row c a input s d.receipts),
          ),
          record d {
            receipts =
                modify s.id (superseded c.now) (d.receipts ++ children_of c a input s d.receipts);
            events = events;
          },
        )
  unfolding partition read_suffixes
  partition_runs events = rw (
    create_runs (held_row c a input s d.receipts) (record d { events = events }) held_free,
    remainder_runs events,
    update_runs s.id (superseded c.now)
        (record d { receipts = d.receipts ++ children_of c a input s d.receipts; events = events })
        (find_unique-append s.id d.receipts (children_of c a input s d.receipts) source_found),
  )

  event_runs :
      event c c.event_id
        (record (event_of a s InventoryEventType.hold_placed
          (some input.txn_type)
          (some input.txn_id)
          none
          input.metadata) { quantity = input.quantity })
        d
      ≡ (ok (hold_event c a input s), record d { events = d.events ++ hold_event c a input s ∷ [] })
  unfolding event event_row event_of
  event_runs =
      create_event_runs (hold_event c a input s) d
        (event_clashes_of_free (hold_event c a input s) d.events h.new_event h.new_key)

  hold_work_runs :
      hold_work c a input d ≡ (ok (held_result c a input s d.receipts), held_tables c a input s d)
  unfolding hold_work event_row
  hold_work_runs = rw (
    lock_runs,
    load_runs input.source_receipt_id a.tenant_id d h.found,
    check_runs d,
    event_runs,
    partition_runs (d.events ++ hold_event c a input s ∷ []),
  )

calm_runs :
    {A : Type 0} (aborted : List Db) (work : Tx A) (d d' : Db) (r : A)
    → aborted ≡ []
    → work d ≡ (ok r, d')
    → with_serializable_tx aborted work d ≡ (ok r, d')
unfolding with_serializable_tx with_retries transaction settle
calm_runs aborted work d d' r calm e = rw (calm, e)

new_key_runs :
    {A : Type 0} (key : Text) (reconstruct : InventoryEvent → Tx A) (work : Tx A) (d d' : Db)
    (r : A)
    → find_event key d.events ≡ none
    → work d ≡ (ok r, d')
    → run_idempotent key reconstruct work d ≡ (ok r, d')
unfolding run_idempotent on_failure
new_key_runs key reconstruct work d d' r fresh e = rw (fresh, run_idempotent, e)

-- When the conditions of IsReady hold (an ACTIVE, APPROVED leaf of the tenant with at least the
-- quantity asked for, which is positive; a key and ids that are new; unique row ids; no aborted
-- attempt), `hold` succeeds: it returns the source as SPLIT, the held child and the remainder, if
-- any, and the tables it leaves are those from before with the event added, the children added and
-- the source's row marked as SPLIT.
pub hold_runs :
    (c : Call) (a : ActorCtx) (input : HoldInput) (d : Db) (s : Receipt)
    → IsReady c a input d s
    → hold c a input d ≡ (ok (held_result c a input s d.receipts), held_tables c a input s d)
unfolding hold
hold_runs c a input d s h =
    new_key_runs a.idempotency_key reconstruct_hold _ d (held_tables c a input s d)
      (held_result c a input s d.receipts) h.new_key
      (calm_runs c.aborted (hold_work c a input) d (held_tables c a input s d)
        (held_result c a input s d.receipts) h.calm (hold_work_runs c a input d s h))
