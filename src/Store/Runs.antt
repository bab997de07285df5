-- ===== src/Store/Runs.antt =====
-- How an action runs when its parts succeed, as equations.
use secure_store_backend.Prelude.{ℕ, ◌≡◌, refl, ap, ◌∙◌, false, some, List, [], ◌∷◌, ◌++◌}
use secure_store_backend.Receipt.{Receipt, InventoryEvent}
use secure_store_backend.Store.{
  Db, Result, ok, Tx, continue, ◌>>=◌, find_first, find_unique, modify, clashes, event_clashes,
  load_or_throw, create_receipt, create_event, update_receipt,
}
use secure_store_backend.Store.Totals.{IsFresh}
use secure_store_backend.Suffix.Fresh.{NumberIsFree}

pub runs_next :
    {A B : Type 0} (m : Tx B) (f : B → Tx A) (d : Db) (b : B) (d' : Db) {p : Result A × Db}
    → m d ≡ (ok b, d')
    → f b d' ≡ p
    → (m >>= f) d ≡ p
runs_next m f d b d' e h = ap (λ q. continue q.0 f q.1) e ∙ h

pub load_runs :
    (id tenant_id : ℕ) (d : Db) {r : Receipt}
    → find_first id tenant_id d.receipts ≡ some r
    → load_or_throw id tenant_id d ≡ (ok r, d)
unfolding load_or_throw
load_runs id t d h = rw (h, load_or_throw)

-- A row with a free id and a free number clashes with none.
pub clashes_of_free :
    (new : Receipt) (rs : List Receipt)
    → IsFresh new.id rs
    → NumberIsFree new.receipt_number rs
    → clashes new rs ≡ false
unfolding clashes
clashes_of_free new [] f n = refl
clashes_of_free new (r ∷ rs) f n = rw (f.0, n.0, clashes_of_free new rs f.1 n.1)

pub create_runs :
    (r : Receipt) (d : Db)
    → clashes r d.receipts ≡ false
    → create_receipt r d ≡ (ok r, record d { receipts = d.receipts ++ r ∷ [] })
unfolding create_receipt
create_runs r d h = rw h

pub create_event_runs :
    (e : InventoryEvent) (d : Db)
    → event_clashes e d.events ≡ false
    → create_event e d ≡ (ok e, record d { events = d.events ++ e ∷ [] })
unfolding create_event
create_event_runs e d h = rw h

pub update_runs :
    (id : ℕ) (g : Receipt → Receipt) (d : Db) {r : Receipt}
    → find_unique id d.receipts ≡ some r
    → update_receipt id g d ≡ (ok (g r), record d { receipts = modify id g d.receipts })
unfolding update_receipt
update_runs id g d h = rw (h, update_receipt)
