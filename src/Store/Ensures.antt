-- ===== src/Store/Ensures.antt =====
-- What holds of the result and the tables when an action succeeds: one rule for each action with
-- which a transaction begins.
use secure_store_backend.Prelude.{
  ℕ, ◌≡◌, refl, sym, ◌∙◌, Bool, true, false, some, [], ◌∷◌, ◌++◌, ap, inl, inr, Option-cases,
  Bool-cases,
}
use mathlib.Core.Path.{subst}
use secure_store_backend.Receipt.{Receipt, InventoryEvent}
use secure_store_backend.Store.{
  Db, Error, continue, receipt_not_found, unique_violation, record_missing, Result, ok, err, Tx,
  pure, throw, throw_if, ◌>>=◌, find_first, find_unique, modify, clashes, event_clashes,
  load_or_throw, create_receipt, create_event, update_receipt,
}

pub record Ensures {A : Type 0} (Q : A → Db → Type 0) (m : Tx A) (d : Db) : Type 0 where
  pub holds : (a : A) (after : Db) → m d ≡ (ok a, after) → Q a after

module _ {A : Type 0} {Q : A → Db → Type 0} where
  pub Ensures-pure : (a : A) (d : Db) → Q a d → Ensures Q (pure a) d
  Ensures-pure a d h = record {
    holds =
        λ x after e. subst (λ (p : Result A × Db). elim p.0 [ ok y ↦ Q y p.1 | err _ ↦ Unit ]) e h;
  }

  pub Ensures-throw : (e : Error) (d : Db) → Ensures Q (throw e) d
  Ensures-throw e d = record { holds = λ x after same. cc }

  pub Ensures-throw_if :
      (b : Bool) (e : Error) (f : Unit {0} → Tx A) (d : Db)
      → (b ≡ false → Ensures Q (f tt) d)
      → Ensures Q (throw_if b e >>= f) d
  Ensures-throw_if true e f d h = record { holds = λ x after same. cc }
  Ensures-throw_if false e f d h = record { holds = λ x after same. (h refl).holds x after same }

  -- The first action succeeds: the rest runs on its result and its tables.
  pub Ensures-next :
      {B : Type 0} (m : Tx B) (f : B → Tx A) (d : Db) (b : B) (d' : Db)
      → m d ≡ (ok b, d')
      → Ensures Q (f b) d'
      → Ensures Q (m >>= f) d
  Ensures-next m f d b d' e h = record {
    holds = λ x after same. h.holds x after (sym (ap (λ p. continue p.0 f p.1) e) ∙ same);
  }

  -- The first action throws: nothing is to be shown.
  pub Ensures-stop :
      {B : Type 0} (m : Tx B) (f : B → Tx A) (d : Db) (e : Error) (d' : Db)
      → m d ≡ (err e, d')
      → Ensures Q (m >>= f) d
  Ensures-stop m f d e d' same = record {
    holds = λ x after ok_. cc (sym (ap (λ p. continue p.0 f p.1) same) ∙ ok_);
  }

  pub Ensures-load :
      (id tenant_id : ℕ) (f : Receipt → Tx A) (d : Db)
      → ((r : Receipt) → find_first id tenant_id d.receipts ≡ some r → Ensures Q (f r) d)
      → Ensures Q (load_or_throw id tenant_id >>= f) d
  unfolding load_or_throw
  Ensures-load id t f d h = elim (Option-cases (find_first id t d.receipts)) [
    | inl missing ↦ Ensures-stop _ f d (receipt_not_found id) d (rw (missing, load_or_throw))
    | inr (r, found) ↦ Ensures-next _ f d r d (rw (found, load_or_throw)) (h r found)
  ]

  pub Ensures-create :
      (r : Receipt) (f : Receipt → Tx A) (d : Db)
      → (clashes r d.receipts ≡ false
          → Ensures Q (f r) (record d { receipts = d.receipts ++ r ∷ [] }))
      → Ensures Q (create_receipt r >>= f) d
  unfolding create_receipt
  Ensures-create r f d h = elim (Bool-cases (clashes r d.receipts)) [
    | inl clash ↦ Ensures-stop _ f d unique_violation d (rw clash)
    | inr free ↦ Ensures-next _ f d r _ (rw free) (h free)
  ]

  pub Ensures-create_event :
      (e : InventoryEvent) (f : InventoryEvent → Tx A) (d : Db)
      → (event_clashes e d.events ≡ false
          → Ensures Q (f e) (record d { events = d.events ++ e ∷ [] }))
      → Ensures Q (create_event e >>= f) d
  unfolding create_event
  Ensures-create_event e f d h = elim (Bool-cases (event_clashes e d.events)) [
    | inl clash ↦ Ensures-stop _ f d unique_violation d (rw clash)
    | inr free ↦ Ensures-next _ f d e _ (rw free) (h free)
  ]

  pub Ensures-update :
      (id : ℕ) (g : Receipt → Receipt) (f : Receipt → Tx A) (d : Db)
      → ((r : Receipt)
          → find_unique id d.receipts ≡ some r
          → Ensures Q (f (g r)) (record d { receipts = modify id g d.receipts }))
      → Ensures Q (update_receipt id g >>= f) d
  unfolding update_receipt
  Ensures-update id g f d h = elim (Option-cases (find_unique id d.receipts)) [
    | inl missing ↦ Ensures-stop _ f d record_missing d (rw (missing, update_receipt))
    | inr (r, found) ↦ Ensures-next _ f d (g r) _ (rw (found, update_receipt)) (h r found)
  ]

-- What the first action ensures is what the rest starts from.
pub Ensures-bind :
    {A B : Type 0} {P : B → Db → Type 0} {Q : A → Db → Type 0} (m : Tx B) (f : B → Tx A) (d : Db)
    → Ensures P m d
    → ((b : B) (d' : Db) → P b d' → Ensures Q (f b) d')
    → Ensures Q (m >>= f) d
Ensures-bind {A} {B} {P} {Q} m f d first rest = go (m d) refl
  where
    go : (p : Result B × Db) → m d ≡ p → Ensures Q (m >>= f) d
    go (ok b, d') e = Ensures-next m f d b d' e (rest b d' (first.holds b d' e))
    go (err x, d') e = Ensures-stop m f d x d' e
