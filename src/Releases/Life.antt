-- ===== src/Releases/Life.antt =====
-- The life of a release request over the requests of src/release-requests/release-requests.service.ts
-- and src/admin-liens/admin-liens.service.ts.
use secure_store_backend.Prelude.{
  ℕ, Text, ◌≡◌, refl, sym, ◌∙◌, Bool, true, false, not, ◌&&◌, some, List, [], ◌∷◌, ◌==◌, inl, inr,
  Bool-cases, Option-cases,
}
use mathlib.Core.Path.{subst}
use secure_store_backend.Service.{answer, ask, write, refuse_if, given, ◌>>=◌}
use secure_store_backend.Service.Keeps.{Keeps, bind-Keeps, given-Keeps, ask-Keeps, atomically-Keeps}
use secure_store_backend.Service.Ends.{
  Ends, step-Ends, ask-Ends, refuse_if-Ends, last_write-Ends, from_everywhere,
}
use secure_store_backend.Service.Rows.{find_where, any_where}
use secure_store_backend.Service.Evolves.{
  Machine, Later, Later-found, Later-append, Evolved, UniqueRows, Evolved-refl,
}
use secure_store_backend.Desk.{Desk, ReleaseRequest, ReleaseStatus, Outside, Act, Refusal}
use secure_store_backend.Desk.Rules.{on_accounts-Keeps}
use secure_store_backend.Releases.{
  CreateReleaseRequest, create_release_request, insert_request, cancel_release_request,
  pending_request, update_request, find_request, has_request, is_pending,
}
use secure_store_backend.Releases.Decide.{approve_release_request, reject_release_request}
use secure_store_backend.Releases.Keeps.{check_lines-Keeps, require_org-Keeps, check_again-Keeps}
use secure_store_backend.Releases.Quiet.{
  OfRequests, insert_lines-Keeps, release_lines-Keeps, force_release_lien-Keeps,
}
use secure_store_backend.Releases.Bounds.{LienRequest, serve_lien, serve_liens}

-- The changes of a request's status that the program makes.
pub data ReleaseEdge : ReleaseStatus → ReleaseStatus → Type 0 where
  approval : ReleaseEdge ReleaseStatus.pending ReleaseStatus.approved
  rejection : ReleaseEdge ReleaseStatus.pending ReleaseStatus.rejected
  cancellation : ReleaseEdge ReleaseStatus.pending ReleaseStatus.cancelled

abbrev pub releases_machine : Machine ReleaseRequest ReleaseStatus
releases_machine = record {
  id_of = λ r. r.id;
  status_of = λ r. r.status;
  initial = ReleaseStatus.pending;
  Edge = ReleaseEdge;
}

is_pending_iff : (s : ReleaseStatus) → not (is_pending s) ≡ false → s ≡ ReleaseStatus.pending
is_pending_iff ReleaseStatus.pending h = refl
is_pending_iff _ h = cc

none_there :
    (id : ℕ) (rs : List ReleaseRequest)
    → has_request (find_request (λ x. x.id == id) rs) ≡ false
    → any_where (λ x. x.id == id) rs ≡ false
unfolding find_where any_where
none_there id [] h = refl
none_there id (x ∷ xs) h = elim (Bool-cases (x.id == id)) [
  | inl yes_ ↦ absurd (let e : true ≡ false = rw yes_ at h in cc)
  | inr no_ ↦ rw no_ (none_there id xs (rw no_ at h))
]

-- The ids stay unique, and the requests have evolved from those at the start.
abbrev OnRequests : List ReleaseRequest → {N : Type 0} → Desk N → Type 0
OnRequests rs w = OfRequests (Later releases_machine rs) w

module _ {N : Type 0} (rs : List ReleaseRequest) where
  -- A step that leaves the requests alone.
  quiet-Ends :
      {A : Type 0} (m : Act N A) (f : A → Act N (Unit {0})) (w : Desk N)
      → Keeps (OfRequests (λ now. now ≡ w.requests)) m
      → OnRequests rs w
      → ((a : A) (w' : Desk N) → w'.requests ≡ w.requests → Ends (OnRequests rs) (f a) w')
      → Ends (OnRequests rs) (m >>= f) w
  quiet-Ends m f w k h rest =
      step-Ends m f w (record { ends = subst (Later releases_machine rs) (sym (k.kept w refl)) h })
        λ a e q. rest a _ (k.kept w refl)

  pending-Ends :
      (test : ReleaseRequest → Bool) (f : ReleaseRequest → Act N (Unit {0})) (w : Desk N)
      → OnRequests rs w
      → ((r : ReleaseRequest)
          → find_where test w.requests ≡ some r
          → r.status ≡ ReleaseStatus.pending
          → Ends (OnRequests rs) (f r) w)
      → Ends (OnRequests rs) (pending_request test >>= f) w
  unfolding pending_request ask given refuse_if answer
  pending-Ends test f w p h = elim (Option-cases (find_where test w.requests)) [
    | inl missing ↦ record { ends = rw (missing, given) p }
    | inr (r, found) ↦ elim (Bool-cases (not (is_pending r.status))) [
      | inl decided ↦ record { ends = rw (found, given, decided) p }
      | inr still ↦ record {
        ends = rw (found, given, still) (h r found (is_pending_iff r.status still)).ends;
      }
    ]
  ]

  -- The write of a request that was found pending.
  decided-Ends :
      (id : ℕ) (also : ReleaseRequest → Bool) (f : ReleaseRequest → ReleaseRequest) (w w' : Desk N)
      {r : ReleaseRequest}
      → OnRequests rs w
      → find_where (λ x. x.id == id && also x) w.requests ≡ some r
      → r.status ≡ ReleaseStatus.pending
      → ((x : ReleaseRequest) → (f x).id ≡ x.id)
      → ReleaseEdge ReleaseStatus.pending (f r).status
      → w'.requests ≡ w.requests
      → Ends {E = Refusal} (OnRequests rs) (write (update_request r.id f)) w'
  decided-Ends id also f w w' h found pending keeps edge same = last_write-Ends _ w' (
      Later-found releases_machine id also f rs w.requests w'.requests h found pending keeps edge
        same)

  insert_request-Keeps :
      (r : ReleaseRequest)
      → r.status ≡ ReleaseStatus.pending
      → Keeps {S = Desk N} (OnRequests rs) (insert_request r)
  unfolding insert_request
  insert_request-Keeps r pending = from_everywhere _ λ w h. ask-Ends _ _ w (
      refuse_if-Ends _ _ _ w h λ free.
        last_write-Ends _ w (
          Later-append releases_machine r rs w.requests pending (none_there r.id w.requests free)
            h))

  create-Keeps :
      (o : Outside N) (caller : ℕ) (dto : CreateReleaseRequest)
      → Keeps (OnRequests rs) (create_release_request o caller dto)
  unfolding create_release_request
  create-Keeps o caller dto = bind-Keeps _ _ _ (given-Keeps _ _ _) λ tenant.
      bind-Keeps _ _ _ (check_lines-Keeps (OnRequests rs) _ _ _) λ u.
        bind-Keeps _ _ _ (ask-Keeps _ _) λ liens. atomically-Keeps _ _ (
          bind-Keeps _ _ _ (insert_request-Keeps _ refl)
            λ v. insert_lines-Keeps (Later releases_machine rs) _)

  cancel-Ends :
      (o : Outside N) (caller id : ℕ) (w : Desk N)
      → OnRequests rs w
      → Ends (OnRequests rs) (cancel_release_request o caller id) w
  unfolding cancel_release_request
  cancel-Ends o caller id w h = pending-Ends _ _ w h λ r found pending.
      decided-Ends id (λ x. x.client_id == caller) _ w w h found pending (λ x. refl)
        ReleaseEdge.cancellation refl

  reject-Ends :
      (o : Outside N) (caller id : ℕ) (why : Text) (w : Desk N)
      → OnRequests rs w
      → Ends (OnRequests rs) (reject_release_request o caller id why) w
  unfolding reject_release_request
  reject-Ends o caller id why w h = quiet-Ends _ _ w (require_org-Keeps _ _ _) h λ org v e.
      let k = subst (Later releases_machine rs) (sym e) h in
      pending-Ends _ _ v k λ r found pending.
        decided-Ends id (λ x. x.financier_org_id == org.id) _ v v k found pending (λ x. refl)
          ReleaseEdge.rejection refl

  approve-Ends :
      (o : Outside N) (caller id : ℕ) (otp : Text) (w : Desk N)
      → OnRequests rs w
      → Ends (OnRequests rs) (approve_release_request o caller id otp) w
  unfolding approve_release_request
  approve-Ends o caller id otp w h = quiet-Ends _ _ w (require_org-Keeps _ _ _) h λ org v e.
      let k = subst (Later releases_machine rs) (sym e) h in
      pending-Ends _ _ v k λ r found pending. ask-Ends _ _ v (
        quiet-Ends _ _ v (check_again-Keeps _ _) k λ a v1 e1.
          quiet-Ends _ _ v1 (on_accounts-Keeps _ _ λ x p. p)
            (subst (Later releases_machine rs) (sym e1) k)
            λ b v2 e2.
              quiet-Ends _ _ v2 (release_lines-Keeps _ o caller r _)
                (subst (Later releases_machine rs) (sym (e2 ∙ e1)) k)
                λ c v3 e3.
                  decided-Ends id (λ x. x.financier_org_id == org.id) _ v v3 k found pending
                    (λ x. refl) ReleaseEdge.approval (e3 ∙ e2 ∙ e1))

  one_request :
      (o : Outside N) (r : LienRequest) (w : Desk N)
      → OnRequests rs w
      → OnRequests rs (serve_lien o r w)
  unfolding serve_lien
  one_request o (LienRequest.ask_release caller dto) w h = (create-Keeps o caller dto).kept w h
  one_request o (LienRequest.cancel_release caller id) w h = (cancel-Ends o caller id w h).ends
  one_request o (LienRequest.approve_release caller id otp) w h =
      (approve-Ends o caller id otp w h).ends
  one_request o (LienRequest.reject_release caller id why) w h =
      (reject-Ends o caller id why w h).ends
  one_request o (LienRequest.force_release tenant admin id dto) w h =
      (force_release_lien-Keeps (Later releases_machine rs) o tenant admin id dto).kept w h

  all_requests :
      (qs : List (Outside N × LienRequest)) (w : Desk N)
      → OnRequests rs w
      → OnRequests rs (serve_liens qs w)
  unfolding serve_liens
  all_requests [] w h = h
  all_requests (q ∷ qs) w h = all_requests qs (serve_lien q.0 q.1 w) (one_request q.0 q.1 w h)

-- When the ids of the release requests are unique, they are unique after any requests on liens, whatever
-- their outcomes. Every release request is still there, at its place and with its id, and its status has
-- only changed from PENDING to APPROVED, REJECTED or CANCELLED, so a decision is final. Those that have
-- come in stand behind them, in a status that such changes reach from PENDING.
pub serve_liens-Evolved :
    {N : Type 0} (qs : List (Outside N × LienRequest)) (w : Desk N)
    → UniqueRows releases_machine w.requests
    → UniqueRows releases_machine (serve_liens qs w).requests
      × Evolved releases_machine w.requests (serve_liens qs w).requests
serve_liens-Evolved qs w unique =
    all_requests w.requests qs w (unique, Evolved-refl releases_machine w.requests)
