-- ===== src/Transaction.antt =====
-- `withSerializableTx` of src/inventory/inventory.tx.ts and `runIdempotent` of
-- src/inventory/inventory-ledger.service.ts.
--
-- The database may abort an attempt for a serialization failure, and other transactions may commit
-- before the next attempt. `aborted` lists, for each attempt that is aborted, the tables as the
-- next attempt finds them. `isRetryableTxError` looks for the codes of such a failure in the text
-- of an error; that the text of a domain error holds their digits by chance is not modelled.
pub mod Retry
pub mod Keeps
pub mod Fresh
use secure_store_backend.Prelude.{
  ℕ, zero, suc, Text, Bool, true, false, Option, none, some, List, [], ◌∷◌, ◌≡◌, refl,
}
use secure_store_backend.Receipt.{InventoryEvent}
use secure_store_backend.Store.{
  Db, Error, unique_violation, serialization_failure, Result, ok, err, Tx, find_event,
}

-- `opts.retries ?? 3`
abbrev pub default_retries : ℕ
default_retries = 3

-- An error rolls the transaction back: the tables are those from before.
unfoldable pub settle {ℓ} : {A : Type ℓ} → Db → Result A × Db → Result A × Db
settle before (ok a, after) = (ok a, after)
settle before (err e, after) = (err e, before)

-- `prisma.$transaction(fn, …)`: one attempt that the database does not abort.
unfoldable pub transaction {ℓ} : {A : Type ℓ} → Tx A → Tx A
unfolding settle
transaction fn d = settle d (fn d)

-- The loop of `withSerializableTx`, with the retries that are left.
unfoldable pub with_retries {ℓ} : {A : Type ℓ} → ℕ → List Db → Tx A → Tx A
unfolding transaction
with_retries left [] fn d = transaction fn d
with_retries zero (found ∷ aborted) fn d = (err serialization_failure, found)
with_retries (suc left) (found ∷ aborted) fn d = with_retries left aborted fn found

unfoldable pub with_serializable_tx {ℓ} : {A : Type ℓ} → List Db → Tx A → Tx A
unfolding with_retries
with_serializable_tx = with_retries default_retries

-- the handler of `runIdempotent`
unfoldable pub on_failure {ℓ} :
    {A : Type ℓ} → Text → (InventoryEvent → Tx A) → Result A × Db → Result A × Db
on_failure key reconstruct (ok a, d) = (ok a, d)
on_failure key reconstruct (err unique_violation, d) = elim (find_event key d.events) [
  | none ↦ (err unique_violation, d)
  | some e ↦ reconstruct e d
]
on_failure key reconstruct (err e, d) = (err e, d)

-- `runIdempotent`
unfoldable pub run_idempotent {ℓ} : {A : Type ℓ} → Text → (InventoryEvent → Tx A) → Tx A → Tx A
unfolding on_failure
run_idempotent key reconstruct work d = elim (find_event key d.events) [
  | some prior ↦ reconstruct prior d
  | none ↦ on_failure key reconstruct (work d)
]
