-- ===== src/Desk/Rules.antt =====
-- Calls of the ledger and of the accounts, as steps of an action on the desk: what they keep of the
-- tables, what holds after them and what they show.
use secure_store_backend.Prelude.{◌≡◌, refl, ap}
use secure_store_backend.Store.{Db, Error, Result, ok, err, Tx}
use secure_store_backend.Store.Ensures.{Ensures}
use secure_store_backend.Security.{Accounts, Denial}
use secure_store_backend.Service.{Outcome, done, failed, Action, resume, ◌>>=◌}
use secure_store_backend.Service.Keeps.{Keeps}
use secure_store_backend.Desk.{Desk, Act, Refusal, on_ledger, outcome_of, on_accounts, allowed}
use secure_store_backend.Service.Grants.{Grants}
use secure_store_backend.Service.Undone.{Undone}

module _ {N : Type 0} (P : Desk N → Type 0) where
  pub on_ledger-Keeps :
      {A : Type 0} (work : Tx A)
      → ((w : Desk N) → P w → P (record w { ledger = (work w.ledger).1 }))
      → Keeps P (on_ledger work)
  unfolding on_ledger
  on_ledger-Keeps work h = record { kept = h }

  pub on_accounts-Keeps :
      {A : Type 0} (m : Action Accounts Denial A)
      → ((w : Desk N) → P w → P (record w { accounts = (m w.accounts).1 }))
      → Keeps P (on_accounts m)
  unfolding on_accounts
  on_accounts-Keeps m h = record { kept = h }

module _ {N A B : Type 0} {Q : A → Db → Type 0} {R : B → Desk N → Type 0} (f : A → Act N B)
    (w : Desk N) (rest : (a : A) (d : Db) → Q a d → Grants R (f a) (record w { ledger = d })) where
  after_work :
      (p : Result A × Db)
      → ((a : A) (d : Db) → p ≡ (ok a, d) → Q a d)
      → (x : B) (after : Desk N)
      → resume (outcome_of p.0) f (record w { ledger = p.1 }) ≡ (done x, after)
      → R x after
  after_work (ok a, d) h x after e = (rest a d (h a d refl)).granted x after e
  after_work (err u, d) h x after e = cc

  -- What the work ensures, the rest starts from.
  pub on_ledger-Grants : (work : Tx A) → Ensures Q work w.ledger → Grants R (on_ledger work >>= f) w
  unfolding on_ledger
  on_ledger-Grants work h = record { granted = after_work (work w.ledger) h.holds }

module _ {N A B : Type 0} (f : A → Act N B) (w : Desk N)
    (never : (a : A) (w' : Desk N) (e : Refusal) → (f a w').0 ≡ failed e → ⊥) where
  refused_work :
      (p : Result A × Db)
      → ((e : Error) → p.0 ≡ err e → p.1 ≡ w.ledger)
      → (e : Refusal) → (resume (outcome_of p.0) f (record w { ledger = p.1 })).0 ≡ failed e
      → (resume (outcome_of p.0) f (record w { ledger = p.1 })).1 ≡ w
  refused_work (ok a, d) h e same = absurd (never a _ e same)
  refused_work (err u, d) h e same = ap (λ x. record w { ledger = x }) (h u refl)

  -- Work that is undone when it throws, with a rest that cannot refuse.
  pub on_ledger-Undone :
      (work : Tx A)
      → ((e : Error) → (work w.ledger).0 ≡ err e → (work w.ledger).1 ≡ w.ledger)
      → Undone (on_ledger work >>= f) w
  unfolding on_ledger
  on_ledger-Undone work h = record { undone = refused_work (work w.ledger) h }

module _ {N A B : Type 0} {Q : A → Accounts → Type 0} {R : B → Desk N → Type 0} (f : A → Act N B)
    (w : Desk N)
    (rest : (a : A) (s : Accounts) → Q a s → Grants R (f a) (record w { accounts = s })) where
  after_check :
      (p : Outcome Denial A × Accounts)
      → ((a : A) (s : Accounts) → p ≡ (done a, s) → Q a s)
      → (x : B) (after : Desk N)
      → resume (allowed p.0) f (record w { accounts = p.1 }) ≡ (done x, after)
      → R x after
  after_check (done a, s) h x after e = (rest a s (h a s refl)).granted x after e
  after_check (failed u, s) h x after e = cc

  -- What the security service grants, the rest starts from.
  pub on_accounts-Grants :
      (m : Action Accounts Denial A) → Grants Q m w.accounts → Grants R (on_accounts m >>= f) w
  unfolding on_accounts
  on_accounts-Grants m h = record { granted = after_check (m w.accounts) h.granted }
