-- ===== src/Pledges/Steps.antt =====
-- What the steps of src/pledges/pledges.service.ts leave of the pledges: their ids and their statuses.
use secure_store_backend.Prelude.{
  ℕ, Text, ◌≡◌, refl, sym, Bool, true, false, ◌&&◌, Option, some, List, [], ◌∷◌, ◌==◌, arith, inl,
  inr, Bool-cases, Option-cases,
}
use mathlib.Core.Path.{subst}
use secure_store_backend.Store.{Db, Result, ok, err, Tx}
use secure_store_backend.Ledger.Call.{Call}
use secure_store_backend.Ledger.Rows.{release}
use secure_store_backend.Service.{answer, ask, refuse_if, given, resume, ◌>>=◌}
use secure_store_backend.Service.Keeps.{Keeps, bind-Keeps, given-Keeps, ask-Keeps}
use secure_store_backend.Service.Ends.{
  Ends, step-Ends, ask-Ends, refuse_if-Ends, last_write-Ends, from_everywhere,
}
use secure_store_backend.Service.Rows.{find_where, any_where}
use secure_store_backend.Service.Evolves.{Machine, Later, Later-found, Later-append}
use secure_store_backend.Pledges.{
  Act, World, Pledge, PledgeStatus, Lookups, Org, Lien, on_ledger, outcome_of, modify_pledge,
  require_financier_org, pledge_detail, is_pending, org_suspended,
}
use secure_store_backend.Pledges.Create.{insert_pledge, pledge_clashes}
use secure_store_backend.Pledges.Decide.{release_held, pending_pledge, create_lien, ctx}

-- The changes of a pledge's status that the program makes.
pub data PledgeEdge : PledgeStatus → PledgeStatus → Type 0 where
  acceptance : PledgeEdge PledgeStatus.pending PledgeStatus.accepted
  rejection : PledgeEdge PledgeStatus.pending PledgeStatus.rejected
  cancellation : PledgeEdge PledgeStatus.pending PledgeStatus.cancelled
  expiry : PledgeEdge PledgeStatus.pending PledgeStatus.expired

abbrev pub pledges_machine : Machine Pledge PledgeStatus
pledges_machine = record {
  id_of = λ p. p.id;
  status_of = λ p. p.status;
  initial = PledgeStatus.pending;
  Edge = PledgeEdge;
}

pub is_pending_iff : (s : PledgeStatus) → is_pending s ≡ true → s ≡ PledgeStatus.pending
is_pending_iff PledgeStatus.pending h = refl
is_pending_iff _ h = cc

pledge_clashes-any :
    (p : Pledge) (ps : List Pledge)
    → pledge_clashes p ps ≡ false
    → any_where (λ x. x.id == p.id) ps ≡ false
unfolding pledge_clashes any_where
pledge_clashes-any p [] h = refl
pledge_clashes-any p (x ∷ xs) h = ground (arith, pledge_clashes-any p xs)

-- What the ledger does leaves the pledges alone.
module _ (c : Call) (q : Lookups) (p : Pledge) (actor : Option ℕ) (prefix why : Text) where
  release_held_apart : (w : World) → (release_held c q p actor prefix why w).1.pledges ≡ w.pledges
  unfolding release_held on_ledger answer
  release_held_apart w = elim (Option-cases p.held_receipt_id) [
    | inl missing ↦ rw (missing, release_held) refl
    | inr (held, found) ↦
        rw (found, release_held) (after (release c (ctx q p actor prefix) held (some why) w.ledger))
  ]
    where
      after :
          {B : Type 0} (r : Result B × Db)
          → (resume (outcome_of r.0) (λ b. answer tt) (record w { ledger = r.1 })).1.pledges
            ≡ w.pledges
      after (ok b, d) = unfold answer in refl
      after (err e, d) = refl

  pub release_held-Ends :
      {A : Type 0} {P : World → Type 0} (f : Unit {0} → Act A) (w : World)
      → ((w' : World) → w'.pledges ≡ w.pledges → P w')
      → ((w' : World) → w'.pledges ≡ w.pledges → Ends P (f tt) w')
      → Ends P (release_held c q p actor prefix why >>= f) w
  release_held-Ends f w refused rest =
      step-Ends (release_held c q p actor prefix why) f w
        (record { ends = refused _ (release_held_apart w) })
        λ u e kept. rest _ (release_held_apart w)

pub ledger-Ends :
    {A B : Type 0} {P : World → Type 0} (work : Tx B) (f : B → Act A) (w : World)
    → ((w' : World) → w'.pledges ≡ w.pledges → P w')
    → ((b : B) (w' : World) → w'.pledges ≡ w.pledges → Ends P (f b) w')
    → Ends P (on_ledger work >>= f) w
unfolding on_ledger
ledger-Ends work f w refused rest =
    step-Ends (on_ledger work) f w (record { ends = refused _ refl }) λ b e kept. rest b _ refl

module _ {A : Type 0} {P : World → Type 0} where
  -- A pledge that is found and PENDING, or a refusal.
  pub pending-Ends :
      (test : Pledge → Bool) (f : Pledge → Act A) (w : World)
      → P w
      → ((p : Pledge)
          → find_where test w.pledges ≡ some p
          → p.status ≡ PledgeStatus.pending
          → Ends P (f p) w)
      → Ends P (pending_pledge test >>= f) w
  unfolding pending_pledge ask given refuse_if answer
  pending-Ends test f w p h = elim (Option-cases (find_where test w.pledges)) [
    | inl missing ↦ record { ends = rw (missing, given) p }
    | inr (l, found) ↦ elim (Bool-cases (is_pending l.status)) [
      | inl yes_ ↦ record {
        ends = rw (found, given, yes_) (h l found (is_pending_iff l.status yes_)).ends;
      }
      | inr no_ ↦ record { ends = rw (found, given, no_) p }
    ]
  ]

  not_suspended :
      (b : Bool) (org : Org) (f : Org → Act A) (w : World)
      → P w
      → Ends P (f org) w
      → P (((refuse_if b org_suspended >>= λ u. answer org) >>= f) w).1
  unfolding refuse_if answer
  not_suspended true org f w p h = p
  not_suspended false org f w p h = h.ends

  pub org-Ends :
      (q : Lookups) (f : Org → Act A) (w : World)
      → P w
      → ((org : Org) → Ends P (f org) w)
      → Ends P (require_financier_org q >>= f) w
  unfolding require_financier_org given refuse_if answer
  org-Ends q f w p h = elim (Option-cases q.caller_org) [
    | inl missing ↦ record { ends = rw (missing, given) p }
    | inr (org, found) ↦ record {
      ends = rw (found, given) (not_suspended org.is_suspended org f w p (h org));
    }
  ]

pub detail-Keeps : (P : World → Type 0) (id : ℕ) → Keeps P (pledge_detail id)
unfolding pledge_detail
detail-Keeps P id = bind-Keeps _ _ _ (ask-Keeps _ _) λ row. given-Keeps _ _ _

module _ (ps : List Pledge) where
  -- The ids stay unique, and the pledges have evolved from those at the start.
  abbrev pub OnPledges : World → Type 0
  OnPledges w = Later pledges_machine ps w.pledges

  pub same_pledges : (w w' : World) → OnPledges w → w'.pledges ≡ w.pledges → OnPledges w'
  same_pledges w w' h e = subst (Later pledges_machine ps) (sym e) h

  -- The write of a pledge that was found PENDING.
  pub decided :
      (id : ℕ) (also : Pledge → Bool) (f : Pledge → Pledge) (w w' : World) {p : Pledge}
      → OnPledges w
      → find_where (λ x. x.id == id && also x) w.pledges ≡ some p
      → p.status ≡ PledgeStatus.pending
      → ((x : Pledge) → (f x).id ≡ x.id)
      → PledgeEdge PledgeStatus.pending (f p).status
      → w'.pledges ≡ w.pledges
      → Later pledges_machine ps (modify_pledge p.id f w'.pledges)
  decided id also f w w' h found pending keeps edge same =
      Later-found pledges_machine id also f ps w.pledges w'.pledges h found pending keeps edge same

  pub insert-Keeps :
      (p : Pledge) → p.status ≡ PledgeStatus.pending → Keeps OnPledges (insert_pledge p)
  unfolding insert_pledge
  insert-Keeps p pending = from_everywhere _ λ w h. ask-Ends _ _ w (
      refuse_if-Ends _ _ _ w h λ free. last_write-Ends _ w (
        Later-append pledges_machine p ps w.pledges pending (pledge_clashes-any p w.pledges free)
          h))

  pub on_ledger_apart-Keeps : {A : Type 0} (work : Tx A) → Keeps OnPledges (on_ledger work)
  unfolding on_ledger
  on_ledger_apart-Keeps work = record { kept = λ w h. h }

  -- The lien is created and the pledge, which was found PENDING, is written.
  pub create_lien-Ends :
      (l : Lien) (id : ℕ) (also : Pledge → Bool) (f : Pledge → Pledge) (w w' : World) {p : Pledge}
      → l.pledge_id ≡ p.id
      → OnPledges w
      → find_where (λ x. x.id == id && also x) w.pledges ≡ some p
      → p.status ≡ PledgeStatus.pending
      → ((x : Pledge) → (f x).id ≡ x.id)
      → PledgeEdge PledgeStatus.pending (f p).status
      → w'.pledges ≡ w.pledges
      → Ends OnPledges (create_lien l f) w'
  unfolding create_lien
  create_lien-Ends l id also f w w' {p} for h found pending keeps edge e = ask-Ends _ _ w' (
      refuse_if-Ends _ _ _ w' (same_pledges w w' h e) λ free. last_write-Ends _ w' (
        subst (λ k. Later pledges_machine ps (modify_pledge k f w'.pledges)) (sym for)
          (decided id also f w w' h found pending keeps edge e)))
