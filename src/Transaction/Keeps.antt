-- ===== src/Transaction/Keeps.antt =====
-- An invariant of the tables that the work keeps when it succeeds is kept by the method that runs it,
-- whatever the outcome.
use secure_store_backend.Prelude.{
  ℕ, zero, suc, Text, ◌≡◌, refl, List, [], ◌∷◌, inl, inr, Option-cases,
}
use secure_store_backend.Receipt.{InventoryEvent}
use secure_store_backend.Store.{Db, unique_violation, Result, ok, err, Tx, find_event}
use secure_store_backend.Store.Ensures.{Ensures}
use secure_store_backend.Transaction.{
  settle, transaction, with_retries, with_serializable_tx, on_failure, run_idempotent,
}

abbrev pub AllDb : (Db → Type 0) → List Db → Type 0
AllDb P [] = Unit
AllDb P (d ∷ ds) = P d × AllDb P ds

module _ {A : Type 0} (P : Db → Type 0) where
  settle_keeps :
      (before : Db) (p : Result A × Db)
      → P before
      → ((a : A) (after : Db) → p ≡ (ok a, after) → P after)
      → P (settle before p).1
  unfolding settle
  settle_keeps before (ok a, after) h k = k a after refl
  settle_keeps before (err e, after) h k = h

  transaction_keeps :
      (fn : Tx A) (d : Db) → P d → Ensures (λ a after. P after) fn d → P (transaction fn d).1
  unfolding transaction
  transaction_keeps fn d h k = settle_keeps d (fn d) h k.holds

  with_retries_keeps :
      (left : ℕ) (aborted : List Db) (fn : Tx A) (d : Db)
      → ((x : Db) → P x → Ensures (λ a after. P after) fn x)
      → AllDb P aborted
      → P d
      → P (with_retries left aborted fn d).1
  unfolding with_retries
  with_retries_keeps left [] fn d k others h = transaction_keeps fn d h (k d h)
  with_retries_keeps zero (found ∷ aborted) fn d k others h = others.0
  with_retries_keeps (suc left) (found ∷ aborted) fn d k others h =
      with_retries_keeps left aborted fn found k others.1 others.0

  pub with_serializable_tx_keeps :
      (aborted : List Db) (fn : Tx A) (d : Db)
      → ((x : Db) → P x → Ensures (λ a after. P after) fn x)
      → AllDb P aborted
      → P d
      → P (with_serializable_tx aborted fn d).1
  unfolding with_serializable_tx
  with_serializable_tx_keeps aborted fn d k others h = with_retries_keeps 3 aborted fn d k others h

  on_failure_keeps :
      (key : Text) (reconstruct : InventoryEvent → Tx A)
      → ((e : InventoryEvent) (d : Db) → (reconstruct e d).1 ≡ d)
      → (p : Result A × Db) → P p.1
      → P (on_failure key reconstruct p).1
  unfolding on_failure
  on_failure_keeps key re reads (ok a, d) h = h
  on_failure_keeps key re reads (err unique_violation, d) h =
      elim (Option-cases (find_event key d.events)) [
        | inl missing ↦ rw (missing, on_failure) h
        | inr (e, found) ↦ rw (found, on_failure) (rw (reads e d) h)
      ]
  on_failure_keeps key re reads (err _, d) h = h

  -- A replay reads; a first run keeps the invariant if the work does.
  pub run_idempotent_keeps :
      (key : Text) (reconstruct : InventoryEvent → Tx A) (work : Tx A) (d : Db)
      → ((e : InventoryEvent) (x : Db) → (reconstruct e x).1 ≡ x)
      → P (work d).1
      → P d
      → P (run_idempotent key reconstruct work d).1
  unfolding run_idempotent
  run_idempotent_keeps key re work d reads worked h =
      elim (Option-cases (find_event key d.events)) [
        | inl first ↦ rw (first, run_idempotent) (on_failure_keeps key re reads (work d) worked)
        | inr (e, found) ↦ rw (found, run_idempotent) (rw (reads e d) h)
      ]
