-- ===== src/Ledger/History.antt =====
-- A run of the service: calls of the ledger's methods, one after the other. Every table that such a
-- run can reach from the empty one is balanced.
use secure_store_backend.Prelude.{ℕ, Text, ◌≡◌, refl, sym, Option, some, List, [], ◌∷◌}
use mathlib.Core.Path.{subst}
use secure_store_backend.Prelude.Int.{ℤ}
use secure_store_backend.Receipt.{TxnType, Metadata}
use secure_store_backend.Store.{Db, ok, empty}
use secure_store_backend.Store.Ensures.{Ensures-pure}
use secure_store_backend.Store.Totals.{total}
use secure_store_backend.Balance.{IsColumn}
use secure_store_backend.Transaction.Keeps.{AllDb}
use secure_store_backend.Ledger.Call.{Call, ActorCtx}
use secure_store_backend.Ledger.Rows
use secure_store_backend.Ledger.Deposit
use secure_store_backend.Ledger.Deposit.{DepositInput}
use secure_store_backend.Ledger.Hold
use secure_store_backend.Ledger.Hold.{HoldInput}
use secure_store_backend.Ledger.Collateral
use secure_store_backend.Ledger.Keeps
use secure_store_backend.Ledger.Keeps.{IsBalancedDb}
use secure_store_backend.Ledger.KeepsHold.{deposit-IsBalanced, hold-IsBalanced}
use secure_store_backend.Ledger.KeepsCollateral.{
  release_partial-IsBalanced, seize-IsBalanced, transfer_and_release-IsBalanced,
}

-- A call of a public method, with its arguments. `transferAndRelease` is called without `withinTx`,
-- whose work is on tables of other services.
pub data Command : Type 0 where
  deposit : DepositInput → Command
  approve_receipt : ℕ → Option Text → Option Text → Command
  reject_receipt : ℕ → Text → Command
  hold : HoldInput → Command
  approve_hold : ℕ → Command
  release : ℕ → Option Text → Command
  consume : ℕ → Command
  release_partial : ℕ → ℤ → ℕ → Option Metadata → Command
  transition_pledge_to_lien : ℕ → ℕ → Option Metadata → Command
  seize : ℕ → ℕ → Option ℤ → Command
  transfer_ownership : ℕ → ℕ → TxnType → ℕ → Command
  transfer_and_release : ℕ → ℕ → TxnType → ℕ → Command
  expire : ℕ → Command

-- The tables after the call.
unfoldable pub execute : Call → ActorCtx → Command → Db → Db
execute c a (Command.deposit input) d = (Deposit.deposit c a input d).1
execute c a (Command.approve_receipt id grade scores) d =
    (Rows.approve_receipt c a id grade scores d).1
execute c a (Command.reject_receipt id why) d = (Rows.reject_receipt c a id why d).1
execute c a (Command.hold input) d = (Hold.hold c a input d).1
execute c a (Command.approve_hold id) d = (Rows.approve_hold c a id d).1
execute c a (Command.release id why) d = (Rows.release c a id why d).1
execute c a (Command.consume id) d = (Rows.consume c a id d).1
execute c a (Command.release_partial id qty request metadata) d =
    (Collateral.release_partial c a id qty request metadata d).1
execute c a (Command.transition_pledge_to_lien id pledge metadata) d =
    (Rows.transition_pledge_to_lien c a id pledge metadata d).1
execute c a (Command.seize id financier part) d = (Collateral.seize c a id financier part d).1
execute c a (Command.transfer_ownership id owner txn_type txn_id) d =
    (Rows.transfer_ownership c a id owner txn_type txn_id d).1
execute c a (Command.transfer_and_release id owner txn_type txn_id) d =
    (Collateral.transfer_and_release c a id owner txn_type txn_id (λ r x. (ok tt, x)) d).1
execute c a (Command.expire id) d = (Rows.expire c a id d).1

-- The quantity that a command names is one that the column holds without rounding.
abbrev pub FitsColumn : (ℤ → ℤ) → Command → Type 0
FitsColumn column (Command.deposit input) = column input.quantity ≡ input.quantity
FitsColumn column (Command.hold input) = column input.quantity ≡ input.quantity
FitsColumn column (Command.release_partial id qty request metadata) = column qty ≡ qty
FitsColumn column (Command.seize id financier part) = (q : ℤ) → part ≡ some q → column q ≡ q
FitsColumn column _ = Unit

-- A call of any method of the ledger keeps a balanced receipt table balanced, whatever its outcome, when
-- the quantity it names is one that the column holds without rounding and every table that an aborted
-- attempt of it found is balanced.
pub execute-IsBalanced :
    (c : Call) (a : ActorCtx) (command : Command) (d : Db)
    → IsColumn c.column
    → FitsColumn c.column command
    → AllDb (IsBalancedDb c.column) c.aborted
    → IsBalancedDb c.column d
    → IsBalancedDb c.column (execute c a command d)
unfolding execute
execute-IsBalanced c a (Command.deposit input) d k fits o b =
    deposit-IsBalanced c k a input fits o d b
execute-IsBalanced c a (Command.approve_receipt id grade scores) d k fits o b =
    Keeps.approve_receipt-IsBalanced c a o d b id grade scores
execute-IsBalanced c a (Command.reject_receipt id why) d k fits o b =
    Keeps.reject_receipt-IsBalanced c a o d b id why
execute-IsBalanced c a (Command.hold input) d k fits o b = hold-IsBalanced c k a input fits o d b
execute-IsBalanced c a (Command.approve_hold id) d k fits o b =
    Keeps.approve_hold-IsBalanced c a o d b id
execute-IsBalanced c a (Command.release id why) d k fits o b =
    Keeps.release-IsBalanced c a o d b id why
execute-IsBalanced c a (Command.consume id) d k fits o b = Keeps.consume-IsBalanced c a o d b id
execute-IsBalanced c a (Command.release_partial id qty request metadata) d k fits o b =
    release_partial-IsBalanced c k a id qty request metadata fits o d b
execute-IsBalanced c a (Command.transition_pledge_to_lien id pledge metadata) d k fits o b =
    Keeps.transition_pledge_to_lien-IsBalanced c a o d b id pledge metadata
execute-IsBalanced c a (Command.seize id financier part) d k fits o b =
    seize-IsBalanced c k a id financier part fits o d b
execute-IsBalanced c a (Command.transfer_ownership id owner txn_type txn_id) d k fits o b =
    Keeps.transfer_ownership-IsBalanced c a o d b id owner txn_type txn_id
execute-IsBalanced c a (Command.transfer_and_release id owner txn_type txn_id) d k fits o b =
    transfer_and_release-IsBalanced c k a id owner txn_type txn_id _ (λ r x h. Ensures-pure tt x h)
      o d b
execute-IsBalanced c a (Command.expire id) d k fits o b = Keeps.expire-IsBalanced c a o d b id

-- The states that the service can reach. Each aborted attempt of a call found a state that the service
-- can reach too.
mutual
  pub data Reachable (column : ℤ → ℤ) : Db → Type 0 where
    start : Reachable column empty
    call :
        {d : Db}
        → Reachable column d
        → (c : Call) (a : ActorCtx) (command : Command) → c.column ≡ column
        → FitsColumn column command
        → AllReachable column c.aborted
        → Reachable column (execute c a command d)

  pub data AllReachable (column : ℤ → ℤ) : List Db → Type 0 where
    nobody : AllReachable column []
    another :
        {d : Db} {ds : List Db}
        → Reachable column d
        → AllReachable column ds
        → AllReachable column (d ∷ ds)

empty-IsBalanced : (column : ℤ → ℤ) → IsBalancedDb column empty
unfolding total
empty-IsBalanced column = record {
  unique = tt;
  rows = tt;
  leaves = λ root. refl;
  children = λ id. refl;
}

mutual
  Reachable-balanced :
      {column : ℤ → ℤ} {d : Db} → IsColumn column → Reachable column d → IsBalancedDb column d
  Reachable-balanced {column} k start = empty-IsBalanced column
  Reachable-balanced k (call {d = before} r c a command same fits others) =
      subst (λ f. IsBalancedDb f (execute c a command before)) same
        (execute-IsBalanced c a command before (subst IsColumn (sym same) k)
          (subst (λ f. FitsColumn f command) (sym same) fits)
          (subst (λ f. AllDb (IsBalancedDb f) c.aborted) (sym same)
            (AllReachable-balanced k others))
          (subst (λ f. IsBalancedDb f before) (sym same) (Reachable-balanced k r)))

  AllReachable-balanced :
      {column : ℤ → ℤ} {ds : List Db}
      → IsColumn column
      → AllReachable column ds
      → AllDb (IsBalancedDb column) ds
  AllReachable-balanced k nobody = tt
  AllReachable-balanced k (another r rs) = (Reachable-balanced k r, AllReachable-balanced k rs)

-- In every state that the ledger can reach from empty tables by calls of its methods, with any outcomes
-- and any aborted attempts, and with quantities that the column holds without rounding, the receipt
-- table is balanced: ids are unique, a row is a parent exactly when it is SPLIT, quantities are positive,
-- the children of a split row sum up to it, and the leaves of a tree sum up to its root.
pub Reachable-IsBalanced :
    (column : ℤ → ℤ) (d : Db) → IsColumn column → Reachable column d → IsBalancedDb column d
Reachable-IsBalanced column d k r = Reachable-balanced k r
