-- ===== src/Ledger/KeepsHold.antt =====
-- `deposit` and `hold` keep the receipt table balanced, if the quantity fits the column.
use secure_store_backend.Prelude.{
  ◌≡◌, refl, false, not, ◌||◌, List, [], ◌∷◌, ◌++◌, arith, inl, inr, Bool-cases,
}
use secure_store_backend.Prelude.Int.{ℤ, pos, leb_ℤ, ltb_ℤ}
use secure_store_backend.Receipt.{
  Receipt, InventoryEvent, ReceiptStatus, ApprovalStatus, approval_eq, status_eq, held_status-held,
}
use secure_store_backend.Store.{Db, clashes, load_or_throw}
use secure_store_backend.Store.Modify.{All-find_unique}
use secure_store_backend.Store.Ensures.{
  Ensures, Ensures-load, Ensures-pure, Ensures-bind, Ensures-create,
}
use secure_store_backend.Balance.{IsBalanced, IsGoodRow, IsColumn}
use secure_store_backend.Balance.Write.{modify-IsBalanced}
use secure_store_backend.Balance.Grow.{append_root-IsBalanced}
use secure_store_backend.Transaction.Keeps.{AllDb, run_idempotent_keeps, with_serializable_tx_keeps}
use secure_store_backend.Ledger.Call.{Call, ActorCtx, affected, by_event}
use secure_store_backend.Ledger.Deposit.{DepositInput, root_row, deposit_work, deposit}
use secure_store_backend.Ledger.Hold.{
  HoldInput, check_transactable, hold_work, hold, reconstruct_hold,
}
use secure_store_backend.Ledger.Keeps.{IsBalancedDb, find_first-IsFound, method_keeps, written}
use secure_store_backend.Ledger.KeepsPartition.{leb_ℤ_false, ltb_ℤ_false, partition_keeps}
use secure_store_backend.Ledger.Rules.{
  Checks, throw_if-Checks, then-Checks, Ensures-check, Ensures-lock, Ensures-event,
  Ensures-last_update,
}

-- `check_transactable` passes for an ACTIVE row that is no parent, and a positive quantity up to its own.
check_transactable-Checks :
    (s : Receipt) (q : ℤ)
    → Checks
        ((not (status_eq s.status ReceiptStatus.active)
              || not (approval_eq s.approval_status ApprovalStatus.approved)
            ≡ false)
          × ((s.is_parent ≡ false) × ((leb_ℤ q (pos 0) ≡ false) × (ltb_ℤ s.quantity q ≡ false))))
        (check_transactable s q)
unfolding check_transactable
check_transactable-Checks s q = then-Checks _ _ (throw_if-Checks _ _) (
    then-Checks _ _ (throw_if-Checks _ _)
      (then-Checks _ _ (throw_if-Checks _ _) (throw_if-Checks _ _)))

reconstruct_hold_reads : (e : InventoryEvent) (d : Db) → (reconstruct_hold e d).1 ≡ d
unfolding reconstruct_hold by_event affected load_or_throw
reconstruct_hold_reads e d = ground arith

module _ (c : Call) (is_column : IsColumn c.column) (a : ActorCtx) where
  hold_work_keeps :
      (input : HoldInput) (d : Db)
      → c.column input.quantity ≡ input.quantity
      → IsBalancedDb c.column d
      → Ensures (λ r after. IsBalancedDb c.column after) (hold_work c a input) d
  unfolding hold_work
  hold_work_keeps input d stored b = Ensures-lock _ _ _ d λ locked. Ensures-load _ _ _ d λ s found.
      let row = find_first-IsFound input.source_receipt_id a.tenant_id d.receipts b found in
      Ensures-check (check_transactable s input.quantity) _ d
        (check_transactable-Checks s input.quantity)
        λ ok_. Ensures-event c c.event_id _ _ d (
          Ensures-bind _ _ _
            (partition_keeps c is_column s input.quantity _ _ _ b
              (record { id = refl; good = row.good; unique = row.unique }) ok_.1.0
              (held_status-held input.held_status).1 stored
              (leb_ℤ_false input.quantity (pos 0) ok_.1.1.0)
              (ltb_ℤ_false s.quantity input.quantity ok_.1.1.1))
            λ r after b'. Ensures-pure _ after b')

  pub hold-IsBalanced :
      (input : HoldInput)
      → c.column input.quantity ≡ input.quantity
      → AllDb (IsBalancedDb c.column) c.aborted
      → (d : Db) → IsBalancedDb c.column d
      → IsBalancedDb c.column (hold c a input d).1
  unfolding hold
  hold-IsBalanced input stored others d b =
      run_idempotent_keeps (IsBalancedDb c.column) a.idempotency_key reconstruct_hold _ d
        reconstruct_hold_reads
        (with_serializable_tx_keeps (IsBalancedDb c.column) c.aborted (hold_work c a input) d
          (λ x. hold_work_keeps input x stored) others b)
        b

  root_row-IsGoodRow :
      (input : DepositInput)
      → c.column input.quantity ≡ input.quantity
      → leb_ℤ input.quantity (pos 0) ≡ false
      → IsGoodRow c.column (root_row c a input)
  unfolding root_row status_eq
  root_row-IsGoodRow input stored positive = record {
    flag = refl;
    positive = rw stored (leb_ℤ_false input.quantity (pos 0) positive);
    stored = rw stored stored;
  }

  root_row_grows :
      (input : DepositInput) (rs : List Receipt)
      → IsBalanced c.column rs
      → clashes (root_row c a input) rs ≡ false
      → IsGoodRow c.column (root_row c a input)
      → IsBalanced c.column (rs ++ root_row c a input ∷ [])
  unfolding root_row
  root_row_grows input rs b free good =
      append_root-IsBalanced rs (root_row c a input) b free good refl refl refl

  deposit_work_keeps :
      (input : DepositInput) (d : Db)
      → c.column input.quantity ≡ input.quantity
      → leb_ℤ input.quantity (pos 0) ≡ false
      → IsBalancedDb c.column d
      → Ensures (λ r after. IsBalancedDb c.column after) (deposit_work c a input) d
  unfolding deposit_work
  deposit_work_keeps input d stored positive b = Ensures-create (root_row c a input) _ d λ free.
      Ensures-event c c.event_id _ _ _ (
        Ensures-last_update c.receipt_id _ _ λ x found.
          let grown =
            root_row_grows input d.receipts b free (root_row-IsGoodRow input stored positive) in
          let good = All-find_unique (IsGoodRow c.column) c.receipt_id _ grown.rows found in
          modify-IsBalanced c.receipt_id _ _ (λ r. (search)) grown found
            (written x (search) good good.flag))

  pub deposit-IsBalanced :
      (input : DepositInput)
      → c.column input.quantity ≡ input.quantity
      → AllDb (IsBalancedDb c.column) c.aborted
      → (d : Db) → IsBalancedDb c.column d
      → IsBalancedDb c.column (deposit c a input d).1
  unfolding deposit
  deposit-IsBalanced input stored others d b = elim (Bool-cases (leb_ℤ input.quantity (pos 0))) [
    | inl bad ↦ rw bad b
    | inr positive ↦ rw positive (
        method_keeps c a (deposit_work c a input) (λ x. deposit_work_keeps input x stored positive)
          others d b)
  ]
