-- ===== src/Ledger/KeepsCollateral.antt =====
-- `releasePartial`, `seize` and `transferAndRelease` keep the receipt table balanced, if the quantity
-- that they are given fits the column.
use secure_store_backend.Prelude.{
  ℕ, ◌≡◌, refl, Bool, true, false, ◌||◌, Option, none, some, sym, ◌∙◌, arith,
}
use secure_store_backend.Prelude.Int.{ℤ, pos, ◌+ℤ◌, ◌-ℤ◌, ◌<ℤ◌, ◌≤ℤ◌, leb_ℤ, int_laws}
use secure_store_backend.Receipt.{
  Receipt, InventoryEvent, ReceiptStatus, Metadata, TxnType, status_eq, split, held_lien, held_loan,
  status_eq-exclusive, held-ne-split,
}
use secure_store_backend.Store.{Db, Tx, load_or_throw}
use secure_store_backend.Store.Ensures.{
  Ensures, Ensures-load, Ensures-pure, Ensures-bind, Ensures-create, Ensures-update,
}
use secure_store_backend.Balance.{IsColumn}
use secure_store_backend.Balance.Write.{modify-IsBalanced}
use secure_store_backend.Balance.Grow.{split_in_two-IsBalanced}
use secure_store_backend.Transaction.Keeps.{AllDb, run_idempotent_keeps, with_serializable_tx_keeps}
use secure_store_backend.Ledger.Call.{Call, ActorCtx, affected, by_event}
use secure_store_backend.Ledger.Collateral.{
  release_partial_work, release_partial, reconstruct_release_partial, seize_row, seize_work, seize,
  reconstruct_seize, transfer_and_release_work, transfer_and_release,
}
use secure_store_backend.Ledger.Keeps.{
  IsBalancedDb, IsFound, find_first-IsFound, method_keeps, written,
}
use secure_store_backend.Ledger.KeepsPartition.{
  leb_ℤ_false, Ensures-read_suffixes, child_of-IsChildOf, child_of-quantity, child_of-IsGoodRow,
  superseded-IsSplitOf, partition_keeps,
}
use secure_store_backend.Ledger.Rules.{
  require_status-Checks, assert_held-Checks, throw_if-Checks, Ensures-check, Ensures-lock,
  Ensures-event,
}

above : (s q : ℤ) → q <ℤ s → pos 0 <ℤ s -ℤ q
above s q h = omega int_laws

both : (s q : ℤ) {x y : ℤ} → x ≡ q → y ≡ s -ℤ q → x +ℤ y ≡ s
both s q ex ey = omega int_laws

lien_open : status_eq held_lien split ≡ false
unfolding status_eq
lien_open = refl

loan_open : status_eq held_loan split ≡ false
unfolding status_eq
loan_open = refl

seized_open : status_eq ReceiptStatus.seized split ≡ false
unfolding status_eq
seized_open = refl

||_false : (a b : Bool) → a || b ≡ false → (a ≡ false) × (b ≡ false)
||_false false b h = (refl, h)
||_false true b h = cc

weaken : (q s : ℤ) → q <ℤ s → q ≤ℤ s
weaken q s h = omega arith

active_open : status_eq ReceiptStatus.active split ≡ false
unfolding status_eq
active_open = refl

reconstruct_release_partial_reads :
    (e : InventoryEvent) (d : Db) → (reconstruct_release_partial e d).1 ≡ d
unfolding reconstruct_release_partial by_event
reconstruct_release_partial_reads e d = ground arith

reconstruct_seize_reads : (e : InventoryEvent) (d : Db) → (reconstruct_seize e d).1 ≡ d
unfolding reconstruct_seize by_event affected load_or_throw
reconstruct_seize_reads e d = ground arith

module _ (c : Call) (is_column : IsColumn c.column) (a : ActorCtx) where
  release_partial_work_keeps :
      (id : ℕ) (qty : ℤ) (request_id : ℕ) (metadata : Option Metadata) (d : Db)
      → c.column qty ≡ qty
      → IsBalancedDb c.column d
      → Ensures
          (λ r after. IsBalancedDb c.column after)
          (release_partial_work c a id qty request_id metadata)
          d
  unfolding release_partial_work
  release_partial_work_keeps id qty request_id metadata d stored b = Ensures-lock _ _ _ d λ locked.
      Ensures-load _ _ _ d λ s found.
        let row = find_first-IsFound id a.tenant_id d.receipts b found in
        let rem_stored = is_column.sub_stored s.quantity qty row.good.stored stored in
        Ensures-check _ _ d (require_status-Checks held_lien s) λ is.
          Ensures-check _ _ d (throw_if-Checks (leb_ℤ qty (pos 0)) _) λ positive.
            Ensures-check _ _ d (throw_if-Checks (leb_ℤ s.quantity qty) _) λ below.
              Ensures-event c c.event_id _ _ d (
                Ensures-read_suffixes _ _ _ λ taken. Ensures-create _ _ _ λ free.
                  Ensures-create _ _ _ λ free_m. Ensures-update s.id _ _ _ λ x again.
                    Ensures-pure _ _ (
                      split_in_two-IsBalanced d.receipts s _ _ _ b row.unique
                        (row.good.flag ∙ status_eq-exclusive s.status held_lien split is lien_open)
                        (superseded-IsSplitOf c.now) free free_m
                        (child_of-IsChildOf s _ _ _ _ _ _ _ _ _)
                        (child_of-IsChildOf s _ _ _ _ _ _ _ _ _)
                        (child_of-IsGoodRow s _ _ _ qty _ _ _ _ _ _ active_open stored
                          (leb_ℤ_false qty (pos 0) positive) stored)
                        (child_of-IsGoodRow s _ _ _ (s.quantity -ℤ qty) _ _ _ _ _ _ lien_open
                          rem_stored (above s.quantity qty (leb_ℤ_false s.quantity qty below))
                          rem_stored)
                        (both s.quantity qty (child_of-quantity s _ _ _ _ _ _ _ _ _ ∙ stored)
                          (child_of-quantity s _ _ _ _ _ _ _ _ _ ∙ rem_stored))))

  pub release_partial-IsBalanced :
      (id : ℕ) (qty : ℤ) (request_id : ℕ) (metadata : Option Metadata)
      → c.column qty ≡ qty
      → AllDb (IsBalancedDb c.column) c.aborted
      → (d : Db) → IsBalancedDb c.column d
      → IsBalancedDb c.column (release_partial c a id qty request_id metadata d).1
  unfolding release_partial
  release_partial-IsBalanced id qty request_id metadata stored others d b =
      run_idempotent_keeps (IsBalancedDb c.column) a.idempotency_key reconstruct_release_partial _ d
        reconstruct_release_partial_reads
        (with_serializable_tx_keeps (IsBalancedDb c.column) c.aborted
          (release_partial_work c a id qty request_id metadata) d
          (λ x. release_partial_work_keeps id qty request_id metadata x stored) others b)
        b

  seize_row_keeps :
      (r : Receipt) (financier event_id : ℕ) (part : Option ℤ) (d : Db)
      → ((q : ℤ) → part ≡ some q → c.column q ≡ q)
      → IsBalancedDb c.column d
      → IsFound c.column d.receipts r.id r
      → r.is_parent ≡ false
      → Ensures (λ x after. IsBalancedDb c.column after) (seize_row c r financier event_id part) d
  unfolding seize_row
  seize_row_keeps r financier event_id none d stored b row leaf =
      Ensures-update r.id _ _ d λ x again. Ensures-pure _ _ (
        modify-IsBalanced r.id _ d.receipts (λ y. (search)) b row.unique
          (written r (search) row.good (leaf ∙ sym seized_open)))
  seize_row_keeps r financier event_id (some q) d stored b row leaf =
      Ensures-check _ _ d (throw_if-Checks (leb_ℤ q (pos 0) || leb_ℤ r.quantity q) _) λ fits.
        partition_keeps c is_column r q _ event_id d b row leaf seized_open (stored q refl)
          (leb_ℤ_false q (pos 0) (||_false _ _ fits).0)
          (weaken q r.quantity (leb_ℤ_false r.quantity q (||_false _ _ fits).1))

  seize_work_keeps :
      (id financier : ℕ) (part : Option ℤ) (d : Db)
      → ((q : ℤ) → part ≡ some q → c.column q ≡ q)
      → IsBalancedDb c.column d
      → Ensures (λ x after. IsBalancedDb c.column after) (seize_work c a id financier part) d
  unfolding seize_work
  seize_work_keeps id financier part d stored b = Ensures-lock _ _ _ d λ locked.
      Ensures-load _ _ _ d λ r found.
        let row = find_first-IsFound id a.tenant_id d.receipts b found in
        Ensures-check _ _ d (require_status-Checks held_loan r) λ is.
          Ensures-event c c.event_id _ _ d (
            seize_row_keeps r financier _ part _ stored b
              (record { id = refl; good = row.good; unique = row.unique })
              (row.good.flag ∙ status_eq-exclusive r.status held_loan split is loan_open))

  pub seize-IsBalanced :
      (id financier : ℕ) (part : Option ℤ)
      → ((q : ℤ) → part ≡ some q → c.column q ≡ q)
      → AllDb (IsBalancedDb c.column) c.aborted
      → (d : Db) → IsBalancedDb c.column d
      → IsBalancedDb c.column (seize c a id financier part d).1
  unfolding seize
  seize-IsBalanced id financier part stored others d b =
      run_idempotent_keeps (IsBalancedDb c.column) a.idempotency_key reconstruct_seize _ d
        reconstruct_seize_reads
        (with_serializable_tx_keeps (IsBalancedDb c.column) c.aborted
          (seize_work c a id financier part) d (λ x. seize_work_keeps id financier part x stored)
          others b)
        b

  transfer_and_release_work_keeps :
      (id new_owner : ℕ) (txn_type : TxnType) (txn_id : ℕ) (within_tx : Receipt → Tx (Unit {0}))
      → ((r : Receipt) (d : Db)
          → IsBalancedDb c.column d
          → Ensures (λ x after. IsBalancedDb c.column after) (within_tx r) d)
      → (d : Db) → IsBalancedDb c.column d
      → Ensures
          (λ x after. IsBalancedDb c.column after)
          (transfer_and_release_work c a id new_owner txn_type txn_id within_tx)
          d
  unfolding transfer_and_release_work
  transfer_and_release_work_keeps id new_owner txn_type txn_id within_tx keeps d b =
      Ensures-lock _ _ _ d λ locked. Ensures-load _ _ _ d λ r found.
        let row = find_first-IsFound id a.tenant_id d.receipts b found in
        Ensures-check _ _ d (assert_held-Checks r) λ held. Ensures-event c c.event_id _ _ d (
          Ensures-event c c.second_event_id _ _ _ (
            Ensures-update r.id _ _ _ λ x again.
              Ensures-bind _ _ _
                (keeps _ _ (
                  modify-IsBalanced r.id _ d.receipts (λ y. (search)) b row.unique
                    (written r (search) row.good
                      (row.good.flag ∙ held-ne-split r.status held ∙ sym active_open))))
                λ u after b'. Ensures-pure _ after b'))

  pub transfer_and_release-IsBalanced :
      (id new_owner : ℕ) (txn_type : TxnType) (txn_id : ℕ) (within_tx : Receipt → Tx (Unit {0}))
      → ((r : Receipt) (d : Db)
          → IsBalancedDb c.column d
          → Ensures (λ x after. IsBalancedDb c.column after) (within_tx r) d)
      → AllDb (IsBalancedDb c.column) c.aborted
      → (d : Db) → IsBalancedDb c.column d
      → IsBalancedDb c.column (transfer_and_release c a id new_owner txn_type txn_id within_tx d).1
  unfolding transfer_and_release
  transfer_and_release-IsBalanced id new_owner txn_type txn_id within_tx keeps others d b =
      method_keeps c a _
        (transfer_and_release_work_keeps id new_owner txn_type txn_id within_tx keeps) others d b
