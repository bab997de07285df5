-- ===== src/Pledges/Decisions.antt =====
-- What createPledge, cancelPledge, acceptPledge and rejectPledge of src/pledges/pledges.service.ts leave
-- of the pledges.
use secure_store_backend.Prelude.{
  ℕ, Text, codes, ◌≡◌, refl, Bool, ◌&&◌, Option, some, List, ◌==◌, ◌++◌,
}
use secure_store_backend.Ledger.Call.{Call}
use secure_store_backend.Service.{write, ◌>>=◌, ◌>>◌}
use secure_store_backend.Service.Keeps.{Keeps, bind-Keeps, refuse_if-Keeps, given-Keeps, ask-Keeps}
use secure_store_backend.Service.Ends.{
  Ends, step-Ends, given-Ends, refuse_if-Ends, write-Ends, by-Keeps,
}
use secure_store_backend.Service.Rows.{find_where}
use secure_store_backend.Pledges.{
  World, Pledge, PledgeStatus, Lookups, update_pledge, pledge_detail,
}
use secure_store_backend.Pledges.Encumbrance.{get_receipt_encumbrance}
use secure_store_backend.Pledges.Create.{CreatePledge, create_pledge, find_receipt_of}
use secure_store_backend.Pledges.Decide.{
  cancel_pledge, accept_pledge, reject_pledge, release_held, lien_row,
}
use secure_store_backend.Pledges.Steps.{
  create_lien-Ends, PledgeEdge, release_held-Ends, ledger-Ends, pending-Ends, org-Ends,
  detail-Keeps, OnPledges, same_pledges, decided, insert-Keeps, on_ledger_apart-Keeps,
}

module _ (ps : List Pledge) (c : Call) (q : Lookups) where
  -- The volume is released and the pledge, which was found PENDING, is written.
  let_go-Ends :
      (id : ℕ) (also : Pledge → Bool) (actor : Option ℕ) (prefix why : Text) (f : Pledge → Pledge)
      (w : World) {p : Pledge}
      → OnPledges ps w
      → find_where (λ x. x.id == id && also x) w.pledges ≡ some p
      → p.status ≡ PledgeStatus.pending
      → ((x : Pledge) → (f x).id ≡ x.id)
      → PledgeEdge PledgeStatus.pending (f p).status
      → Ends
          (OnPledges ps)
          (release_held c q p actor prefix why >>= λ u.
            write (update_pledge p.id f) >> pledge_detail p.id)
          w
  let_go-Ends id also actor prefix why f w {p} h found pending keeps edge =
      release_held-Ends c q p actor prefix why
        (λ u. write (update_pledge p.id f) >> pledge_detail p.id) w
        (λ w' e. same_pledges ps w w' h e)
        λ w' e.
          write-Ends (update_pledge p.id f) (λ u. pledge_detail p.id) w'
            (by-Keeps _ _ (detail-Keeps _ p.id)
              (decided ps id also f w w' h found pending keeps edge e))

  pub cancel-Ends :
      (caller id : ℕ) (w : World)
      → OnPledges ps w
      → Ends (OnPledges ps) (cancel_pledge c q caller id) w
  unfolding cancel_pledge
  cancel-Ends caller id w h = pending-Ends _ _ w h λ p found pending.
      let_go-Ends id (λ x. x.client_id == caller) (some caller) (codes "pledge:cancel:")
        (codes "Pledge cancelled by client") (λ x. record x { status = PledgeStatus.cancelled }) w h
        found pending (λ x. refl) PledgeEdge.cancellation

  pub reject-Ends :
      (caller id : ℕ) (why : Text) (w : World)
      → OnPledges ps w
      → Ends (OnPledges ps) (reject_pledge c q caller id why) w
  unfolding reject_pledge
  reject-Ends caller id why w h = org-Ends q _ w h λ org. pending-Ends _ _ w h λ p found pending.
      let_go-Ends id (λ x. x.financier_org_id == org.id) (some caller) (codes "pledge:reject:")
        (codes "Pledge rejected: " ++ why)
        (λ x. record x {
          status = PledgeStatus.rejected;
          decision_reason = some why;
          decided_by_id = some caller;
          decided_at = some c.now;
        })
        w h found pending (λ x. refl) PledgeEdge.rejection

  pub accept-Ends :
      (caller id lien : ℕ) (message : Option Text) (w : World)
      → OnPledges ps w
      → Ends (OnPledges ps) (accept_pledge c q caller id lien message) w
  unfolding accept_pledge
  accept-Ends caller id lien message w h = org-Ends q _ w h λ org.
      pending-Ends _ _ w h λ p found pending. refuse_if-Ends _ _ _ w h λ early.
        given-Ends _ _ _ w h λ held is. refuse_if-Ends _ _ _ w h λ valid.
          ledger-Ends _ _ w (λ w' e. same_pledges ps w w' h e)
            λ r w' e.
              step-Ends _ _ w'
                (create_lien-Ends ps (lien_row lien p held) id (λ x. x.financier_org_id == org.id)
                  (λ x. record x {
                    status = PledgeStatus.accepted;
                    decided_by_id = some caller;
                    decided_at = some c.now;
                    decision_reason = message;
                  })
                  w w' refl h found pending (λ x. refl) PledgeEdge.acceptance e)
                λ u e' kept. by-Keeps _ _ (detail-Keeps _ p.id) kept

  pub create-Keeps :
      (caller id : ℕ) (dto : CreatePledge) → Keeps (OnPledges ps) (create_pledge c q caller id dto)
  unfolding create_pledge find_receipt_of get_receipt_encumbrance
  create-Keeps caller id dto = bind-Keeps _ _ _ (given-Keeps _ _ _) λ tenant.
      bind-Keeps _ _ _ (bind-Keeps _ _ _ (ask-Keeps _ _) λ row. given-Keeps _ _ _) λ receipt.
        bind-Keeps _ _ _ (refuse_if-Keeps _ _ _) λ a. bind-Keeps _ _ _ (refuse_if-Keeps _ _ _) λ b.
          bind-Keeps _ _ _
            (bind-Keeps _ _ _ (ask-Keeps _ _) λ row.
              bind-Keeps _ _ _ (given-Keeps _ _ _)
                λ root. bind-Keeps _ _ _ (refuse_if-Keeps _ _ _) λ own. ask-Keeps _ _)
            λ enc. bind-Keeps _ _ _ (refuse_if-Keeps _ _ _) λ d.
              bind-Keeps _ _ _ (given-Keeps _ _ _) λ link.
                bind-Keeps _ _ _ (on_ledger_apart-Keeps ps _)
                  λ held. bind-Keeps _ _ _ (insert-Keeps ps _ refl) λ u. detail-Keeps _ id
