-- ===== src/Ledger/Keeps.antt =====
-- Every method that logs an event and rewrites one row keeps the receipt table balanced.
use secure_store_backend.Prelude.{ℕ, Text, ◌≡◌, refl, Option, some, List, sym, ◌∙◌}
use mathlib.Core.Path.{subst}
use secure_store_backend.Prelude.Int.{ℤ}
use secure_store_backend.Receipt.{
  Receipt, ReceiptStatus, Metadata, TxnType, status_eq, split, pending_approval,
  held_pledge_pending, status_eq-exclusive, held-ne-split,
}
use secure_store_backend.Store.{Db, Tx, find_unique, find_first}
use secure_store_backend.Store.Totals.{find_unique_of_first}
use secure_store_backend.Store.Modify.{find_first_id, All-find_unique}
use secure_store_backend.Store.Ensures.{Ensures, Ensures-load}
use secure_store_backend.Balance.{IsBalanced, IsGoodRow}
use secure_store_backend.Balance.Write.{SameNode, modify-IsBalanced}
use secure_store_backend.Transaction.Keeps.{AllDb, run_idempotent_keeps, with_serializable_tx_keeps}
use secure_store_backend.Ledger.Call.{Call, ActorCtx, EventData, affected}
use secure_store_backend.Ledger.Rows.{
  rewrite_row, method, approve_receipt, reject_receipt, approve_hold, release, consume,
  transition_pledge_to_lien, transfer_ownership, expire,
}
use secure_store_backend.Ledger.Rules.{
  Checks, require_status-Checks, assert_held-Checks, pending_hold-Checks, no_check-Checks,
  Ensures-check, Ensures-lock, Ensures-event, Ensures-last_update, affected_reads,
}

-- The receipt table of a database is balanced.
abbrev pub IsBalancedDb : (ℤ → ℤ) → Db → Type 0
IsBalancedDb column d = IsBalanced column d.receipts

-- The row that is found has the id, is good, and is the row with its id.
pub record IsFound (column : ℤ → ℤ) (rs : List Receipt) (k : ℕ) (r : Receipt) : Type 0 where
  pub id : r.id ≡ k
  pub good : IsGoodRow column r
  pub unique : find_unique r.id rs ≡ some r

pub find_first-IsFound :
    {column : ℤ → ℤ} (id tenant_id : ℕ) (rs : List Receipt) {r : Receipt}
    → IsBalanced column rs
    → find_first id tenant_id rs ≡ some r
    → IsFound column rs id r
find_first-IsFound {column} id t rs {r} b h =
    let found : find_unique id rs ≡ some r = find_unique_of_first id t rs b.unique h in
    let same : r.id ≡ id = find_first_id id t rs h in
    record {
      id = same;
      good = All-find_unique (IsGoodRow column) id rs b.rows found;
      unique = subst (λ k. find_unique k rs ≡ some r) (sym same) found;
    }

pub written :
    {column : ℤ → ℤ} {s : Receipt} (r : Receipt)
    → SameNode r s
    → IsGoodRow column r
    → s.is_parent ≡ status_eq s.status split
    → IsGoodRow column s
written r node good flag = record {
  flag = flag;
  positive = rw node.quantity good.positive;
  stored = rw node.quantity good.stored;
}

module _ (c : Call) where
  -- The shared body keeps the table balanced if the row it writes has the same node, and is a parent
  -- exactly when its status is SPLIT.
  rewrite_row_keeps :
      (id t : ℕ) (check : Receipt → Tx (Unit {0})) (data_of : Receipt → EventData)
      (write : Receipt → Receipt) (P : Receipt → Type 0)
      → ((r : Receipt) → Checks (P r) (check r))
      → ((r : Receipt) → SameNode r (write r))
      → ((r : Receipt)
          → P r
          → r.is_parent ≡ status_eq r.status split
          → (write r).is_parent ≡ status_eq (write r).status split)
      → (d : Db) → IsBalancedDb c.column d
      → Ensures (λ a after. IsBalancedDb c.column after) (rewrite_row c id t check data_of write) d
  unfolding rewrite_row
  rewrite_row_keeps id t check data_of write P checks node flag d b =
      Ensures-lock id t _ d λ locked. Ensures-load id t _ d λ r found.
        let row = find_first-IsFound id t d.receipts b found in
        Ensures-check (check r) _ d (checks r) λ passed.
          Ensures-event c c.event_id (data_of r) _ d (
            Ensures-last_update r.id write _ λ x again.
              modify-IsBalanced r.id write d.receipts node b row.unique
                (written r (node r) row.good (flag r passed row.good.flag)))

  -- A method that reads on a replay keeps what its work keeps.
  pub method_keeps :
      (a : ActorCtx) (work : Tx Receipt)
      → ((d : Db)
          → IsBalancedDb c.column d
          → Ensures (λ x after. IsBalancedDb c.column after) work d)
      → AllDb (IsBalancedDb c.column) c.aborted
      → (d : Db) → IsBalancedDb c.column d
      → IsBalancedDb c.column (method c a work d).1
  method_keeps a work keeps others d b =
      run_idempotent_keeps (IsBalancedDb c.column) a.idempotency_key affected _ d affected_reads
        (with_serializable_tx_keeps (IsBalancedDb c.column) c.aborted work d keeps others b) b

  module _ (a : ActorCtx) (others : AllDb (IsBalancedDb c.column) c.aborted) (d : Db)
      (b : IsBalancedDb c.column d) where
    pub approve_receipt-IsBalanced :
        (id : ℕ) (grade scores : Option Text)
        → IsBalancedDb c.column (approve_receipt c a id grade scores d).1
    unfolding approve_receipt status_eq
    approve_receipt-IsBalanced id grade scores =
        method_keeps a _
          (rewrite_row_keeps id a.tenant_id _ _ _ _ (require_status-Checks pending_approval)
            (λ r. (search))
            (λ r is flag. flag ∙ status_eq-exclusive r.status pending_approval split is refl))
          others d b

    pub reject_receipt-IsBalanced :
        (id : ℕ) (why : Text) → IsBalancedDb c.column (reject_receipt c a id why d).1
    unfolding reject_receipt status_eq
    reject_receipt-IsBalanced id why =
        method_keeps a _
          (rewrite_row_keeps id a.tenant_id _ _ _ _ (require_status-Checks pending_approval)
            (λ r. (search))
            (λ r is flag. flag ∙ status_eq-exclusive r.status pending_approval split is refl))
          others d b

    pub approve_hold-IsBalanced : (id : ℕ) → IsBalancedDb c.column (approve_hold c a id d).1
    unfolding approve_hold status_eq
    approve_hold-IsBalanced id =
        method_keeps a _
          (rewrite_row_keeps id a.tenant_id _ _ _ _ (pending_hold-Checks) (λ r. (search))
            (λ r is flag. flag))
          others d b

    pub release-IsBalanced :
        (id : ℕ) (why : Option Text) → IsBalancedDb c.column (release c a id why d).1
    unfolding release status_eq
    release-IsBalanced id why =
        method_keeps a _
          (rewrite_row_keeps id a.tenant_id _ _ _ _ (assert_held-Checks) (λ r. (search))
            (λ r is flag. flag ∙ held-ne-split r.status is))
          others d b

    pub consume-IsBalanced : (id : ℕ) → IsBalancedDb c.column (consume c a id d).1
    unfolding consume status_eq
    consume-IsBalanced id =
        method_keeps a _
          (rewrite_row_keeps id a.tenant_id _ _ _ _ (assert_held-Checks) (λ r. (search))
            (λ r is flag. flag ∙ held-ne-split r.status is))
          others d b

    pub transition_pledge_to_lien-IsBalanced :
        (id pledge_id : ℕ) (metadata : Option Metadata)
        → IsBalancedDb c.column (transition_pledge_to_lien c a id pledge_id metadata d).1
    unfolding transition_pledge_to_lien status_eq
    transition_pledge_to_lien-IsBalanced id pledge_id metadata =
        method_keeps a _
          (rewrite_row_keeps id a.tenant_id _ _ _ _ (require_status-Checks held_pledge_pending)
            (λ r. (search))
            (λ r is flag. flag ∙ status_eq-exclusive r.status held_pledge_pending split is refl))
          others d b

    pub transfer_ownership-IsBalanced :
        (id new_owner : ℕ) (txn_type : TxnType) (txn_id : ℕ)
        → IsBalancedDb c.column (transfer_ownership c a id new_owner txn_type txn_id d).1
    unfolding transfer_ownership status_eq
    transfer_ownership-IsBalanced id new_owner txn_type txn_id =
        method_keeps a _
          (rewrite_row_keeps id a.tenant_id _ _ _ _ (λ r. no_check-Checks) (λ r. (search))
            (λ r is flag. flag))
          others d b

    pub expire-IsBalanced : (id : ℕ) → IsBalancedDb c.column (expire c a id d).1
    unfolding expire status_eq
    expire-IsBalanced id =
        method_keeps a _
          (rewrite_row_keeps id a.tenant_id _ _ _ _ (require_status-Checks ReceiptStatus.active)
            (λ r. (search))
            (λ r is flag. flag ∙ status_eq-exclusive r.status ReceiptStatus.active split is refl))
          others d b
