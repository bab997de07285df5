-- ===== src/Transaction/Retry.antt =====
-- What the retry loop of src/inventory/inventory.tx.ts guarantees of any work that it runs.
use secure_store_backend.Prelude.{ℕ, zero, suc, ◌≤◌, ◌<◌, ◌≡◌, refl, List, [], ◌∷◌, length, arith}
use secure_store_backend.Store.{Db, serialization_failure, err, Tx}
use secure_store_backend.Transaction.{transaction, with_retries, with_serializable_tx}

-- The tables that the last attempt finds.
abbrev pub found_last : Db → List Db → Db
found_last d [] = d
found_last d (found ∷ aborted) = found_last found aborted

with_retries_enough {ℓ} :
    {A : Type ℓ} (left : ℕ) (aborted : List Db) (fn : Tx A) (d : Db)
    → length aborted ≤ left
    → with_retries left aborted fn d ≡ transaction fn (found_last d aborted)
unfolding with_retries
with_retries_enough left [] fn d h = refl
with_retries_enough zero (x ∷ aborted) fn d h = absurd (omega arith)
with_retries_enough (suc left) (x ∷ aborted) fn d h =
    with_retries_enough left aborted fn x (omega arith)

-- Up to three aborted attempts are made good: the work runs once, on the tables that the last attempt
-- finds.
pub with_serializable_tx_retries :
    {A : Type 0} (aborted : List Db) (fn : Tx A) (d : Db)
    → length aborted ≤ 3
    → with_serializable_tx aborted fn d ≡ transaction fn (found_last d aborted)
unfolding with_serializable_tx
with_serializable_tx_retries aborted fn d h = with_retries_enough 3 aborted fn d h

with_retries_spent {ℓ} :
    {A : Type ℓ} (left : ℕ) (aborted : List Db) (fn : Tx A) (d : Db)
    → left < length aborted
    → (with_retries left aborted fn d).0 ≡ err serialization_failure
unfolding with_retries
with_retries_spent left [] fn d h = absurd (omega arith)
with_retries_spent zero (x ∷ aborted) fn d h = refl
with_retries_spent (suc left) (x ∷ aborted) fn d h =
    with_retries_spent left aborted fn x (omega arith)

-- After a fourth aborted attempt the failure of the database is thrown, whatever the work is.
pub with_serializable_tx_gives_up :
    {A : Type 0} (aborted : List Db) (fn : Tx A) (d : Db)
    → 3 < length aborted
    → (with_serializable_tx aborted fn d).0 ≡ err serialization_failure
unfolding with_serializable_tx
with_serializable_tx_gives_up aborted fn d h = with_retries_spent 3 aborted fn d h
