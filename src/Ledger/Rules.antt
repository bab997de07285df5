-- ===== src/Ledger/Rules.antt =====
-- The rules of Store.Ensures for the steps that the methods of the ledger share, and what their
-- readers leave alone.
use secure_store_backend.Prelude.{
  ℕ, ◌≡◌, refl, Bool, true, false, not, none, some, [], ◌∷◌, ◌++◌, ◌⊎◌, inl, inr, arith, ap, sym,
  ◌∙◌, Option-cases, Bool-cases,
}
use secure_store_backend.Receipt.{
  Receipt, InventoryEvent, ReceiptStatus, ApprovalStatus, approval_eq, status_eq, includes,
  held_statuses,
}
use secure_store_backend.Store.{
  Db, Error, continue, ok, err, Tx, ◌>>=◌, ◌>>◌, throw_if, invalid_state_transition, find_first,
  find_unique, modify, load_or_throw, update_receipt, record_missing,
}
use secure_store_backend.Store.Ensures.{
  Ensures, Ensures-next, Ensures-stop, Ensures-create_event, Ensures-pure,
}
use secure_store_backend.Ledger.Call.{
  Call, EventData, event, event_row, lock_receipt_for_update, affected, assert_held,
}
use secure_store_backend.Ledger.Rows.{require_status, require_pending_hold}

-- A check reads nothing of the tables: it passes, and then the property holds, or it throws.
pub record Checks (P : Type 0) (m : Tx (Unit {0})) : Type 0 where
  pub outcome : (d : Db) → ((m d ≡ (ok tt, d)) × P) ⊎ ((e : Error) × (m d ≡ (err e, d)))

pub require_status-Checks :
    (s : ReceiptStatus) (r : Receipt) → Checks (status_eq r.status s ≡ true) (require_status s r)
require_status-Checks s r = elim (Bool-cases (status_eq r.status s)) [
  | inl same ↦ record { outcome = λ d. inl (rw same refl, same) }
  | inr other ↦ record {
    outcome = λ d. inr (invalid_state_transition r.id r.status, rw other refl);
  }
]

pub assert_held-Checks :
    (r : Receipt) → Checks (includes held_statuses r.status ≡ true) (assert_held r)
unfolding assert_held
assert_held-Checks r = elim (Bool-cases (includes held_statuses r.status)) [
  | inl held ↦ record { outcome = λ d. inl (rw (held, assert_held) refl, held) }
  | inr other ↦ record {
    outcome = λ d. inr (invalid_state_transition r.id r.status, rw (other, assert_held) refl);
  }
]

-- no check
pub no_check-Checks : Checks (Unit {0}) (λ d. (ok tt, d))
no_check-Checks = record { outcome = λ d. inl (refl, tt) }

pub throw_if-Checks : (b : Bool) (e : Error) → Checks (b ≡ false) (throw_if b e)
throw_if-Checks true e = record { outcome = λ d. inr (e, refl) }
throw_if-Checks false e = record { outcome = λ d. inl (refl, refl) }

-- One check after another.
pub then-Checks :
    {P R : Type 0} (m n : Tx (Unit {0})) → Checks P m → Checks R n → Checks (P × R) (m >> n)
then-Checks m n c k = record {
  outcome = λ d. elim (c.outcome d) [
    | inr (e, throws) ↦ inr (e, ap (λ p. continue p.0 (λ _. n) p.1) throws)
    | inl (passes, p) ↦ elim (k.outcome d) [
      | inl (ends, r) ↦ inl (ap (λ x. continue x.0 (λ _. n) x.1) passes ∙ ends, (p, r))
      | inr (e, throws) ↦ inr (e, ap (λ x. continue x.0 (λ _. n) x.1) passes ∙ throws)
    ]
  ];
}

pub pending_hold-Checks :
    (r : Receipt)
    → Checks
        ((includes held_statuses r.status ≡ true)
          × (not (approval_eq r.approval_status ApprovalStatus.pending) ≡ false))
        (require_pending_hold r)
pending_hold-Checks r = then-Checks _ _ (assert_held-Checks r) (throw_if-Checks _ _)

module _ {A : Type 0} {Q : A → Db → Type 0} where
  pub Ensures-check :
      {P : Type 0} (m : Tx (Unit {0})) (f : Unit {0} → Tx A) (d : Db)
      → Checks P m
      → (P → Ensures Q (f tt) d)
      → Ensures Q (m >>= f) d
  Ensures-check m f d c h = elim (c.outcome d) [
    | inl (passes, p) ↦ Ensures-next m f d tt d passes (h p)
    | inr (e, throws) ↦ Ensures-stop m f d e d throws
  ]

  pub Ensures-lock :
      (id tenant_id : ℕ) (f : Bool → Tx A) (d : Db)
      → ((b : Bool) → Ensures Q (f b) d)
      → Ensures Q (lock_receipt_for_update id tenant_id >>= f) d
  unfolding lock_receipt_for_update
  Ensures-lock id t f d h = elim (Option-cases (find_first id t d.receipts)) [
    | inl missing ↦ Ensures-next _ f d false d (rw (missing, lock_receipt_for_update)) (h false)
    | inr (r, found) ↦ Ensures-next _ f d true d (rw (found, lock_receipt_for_update)) (h true)
  ]

  pub Ensures-event :
      (c : Call) (id : ℕ) (e : EventData) (f : InventoryEvent → Tx A) (d : Db)
      → Ensures Q
          (f (event_row c.column id e))
          (record d { events = d.events ++ event_row c.column id e ∷ [] })
      → Ensures Q (event c id e >>= f) d
  unfolding event
  Ensures-event c id e f d h = Ensures-create_event (event_row c.column id e) f d (λ free. h)

-- An update that ends the work.
pub Ensures-last_update :
    {Q : Receipt → Db → Type 0} (id : ℕ) (g : Receipt → Receipt) (d : Db)
    → ((r : Receipt)
        → find_unique id d.receipts ≡ some r
        → Q (g r) (record d { receipts = modify id g d.receipts }))
    → Ensures Q (update_receipt id g) d
unfolding update_receipt
Ensures-last_update {Q} id g d h = elim (Option-cases (find_unique id d.receipts)) [
  | inl missing ↦ record { holds = λ x after same. cc (sym (ensures_missing missing) ∙ same) }
  | inr (r, found) ↦ record {
    holds = λ x after same.
        (Ensures-pure {Q = Q} (g r) _ (h r found)).holds x after
          (sym (ensures_found r found) ∙ same);
  }
]
  where
    ensures_missing :
        find_unique id d.receipts ≡ none → update_receipt id g d ≡ (err record_missing, d)
    ensures_missing missing = rw (missing, update_receipt)

    ensures_found :
        (r : Receipt)
        → find_unique id d.receipts ≡ some r
        → update_receipt id g d ≡ (ok (g r), record d { receipts = modify id g d.receipts })
    ensures_found r found = rw (found, update_receipt)

pub affected_reads : (e : InventoryEvent) (d : Db) → (affected e d).1 ≡ d
unfolding affected load_or_throw
affected_reads e d = ground arith
