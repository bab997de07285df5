-- ===== src/Transaction/Fresh.antt =====
-- `runIdempotent` of inventory-ledger.service.ts under a key that no event has, over a transaction of which
-- no attempt is aborted: the work takes effect as a whole, or not at all.
use secure_store_backend.Prelude.{◌≡◌, refl, sym, ◌∙◌, Text, none, []}
use mathlib.Core.Path.{subst}
use secure_store_backend.Receipt.{InventoryEvent}
use secure_store_backend.Store.{Db, Error, Result, ok, err, Tx, find_event, unique_violation}
use secure_store_backend.Store.Ensures.{Ensures}
use secure_store_backend.Transaction.{
  settle, transaction, with_retries, with_serializable_tx, on_failure, run_idempotent,
}

module _ {A : Type 0} (key : Text) (reconstruct : InventoryEvent → Tx A) (d : Db)
    (fresh : find_event key d.events ≡ none) where
  settled : (p : Result A × Db) → on_failure key reconstruct (settle d p) ≡ settle d p
  unfolding on_failure settle
  settled (ok a, after) = refl
  settled (err unique_violation, after) = rw (fresh, on_failure) refl
  settled (err _, after) = refl

  pub run_fresh :
      (work : Tx A)
      → run_idempotent key reconstruct (with_serializable_tx [] work) d ≡ settle d (work d)
  unfolding run_idempotent with_serializable_tx with_retries transaction
  run_fresh work = rw (fresh, run_idempotent) (settled (work d))

  ok_of_settled :
      (p : Result A × Db) (a : A) (after : Db) → settle d p ≡ (ok a, after) → p ≡ (ok a, after)
  unfolding settle
  ok_of_settled (ok b, x) a after h = h
  ok_of_settled (err e, x) a after h = cc

  same_of_settled : (p : Result A × Db) (e : Error) → (settle d p).0 ≡ err e → (settle d p).1 ≡ d
  unfolding settle
  same_of_settled (ok b, x) e h = cc
  same_of_settled (err f, x) e h = refl

  -- What the work ensures, the method ensures.
  pub run_fresh-Ensures :
      {Q : A → Db → Type 0} (work : Tx A)
      → Ensures Q work d
      → Ensures Q (run_idempotent key reconstruct (with_serializable_tx [] work)) d
  run_fresh-Ensures work h = record {
    holds =
        λ a after e. h.holds a after (ok_of_settled (work d) a after (sym (run_fresh work) ∙ e));
  }

  -- An error leaves the tables as they were.
  pub run_fresh_restores :
      (work : Tx A) (e : Error)
      → (run_idempotent key reconstruct (with_serializable_tx [] work) d).0 ≡ err e
      → (run_idempotent key reconstruct (with_serializable_tx [] work) d).1 ≡ d
  run_fresh_restores work e =
      subst (λ (p : Result A × Db). p.0 ≡ err e → p.1 ≡ d) (sym (run_fresh work))
        (same_of_settled (work d) e)
