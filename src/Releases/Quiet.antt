-- ===== src/Releases/Quiet.antt =====
-- The steps of src/release-requests/release-requests.service.ts and
-- src/admin-liens/admin-liens.service.ts that leave the release requests alone.
use secure_store_backend.Prelude.{ℕ, List, [], ◌∷◌}
use secure_store_backend.Pledges.{Lien}
use secure_store_backend.Service.Keeps.{
  Keeps, bind-Keeps, refuse_if-Keeps, given-Keeps, ask-Keeps, answer-Keeps, branch-Keeps,
  write-Keeps, atomically-Keeps,
}
use secure_store_backend.Desk.{Desk, Outside, ReleaseRequest, ReleaseRequestLine}
use secure_store_backend.Desk.Rules.{on_ledger-Keeps}
use secure_store_backend.Releases.{insert_lines}
use secure_store_backend.Releases.Decide.{release_line, release_lines}
use secure_store_backend.Releases.Force.{
  ForceReleaseInput, force_release_lien, insert_force_release,
}

module _ {N : Type 0} (Q : List ReleaseRequest → Type 0) where
  -- A property of the release requests.
  abbrev pub OfRequests : Desk N → Type 0
  OfRequests w = Q w.requests

  pub insert_lines-Keeps : (ls : List ReleaseRequestLine) → Keeps OfRequests (insert_lines ls)
  unfolding insert_lines
  insert_lines-Keeps [] = answer-Keeps _ _
  insert_lines-Keeps (l ∷ ls) = bind-Keeps _ _ _ (ask-Keeps _ _) λ t.
      bind-Keeps _ _ _ (refuse_if-Keeps _ _ _)
        λ u. bind-Keeps _ _ _ (write-Keeps _ _ λ w p. p) λ v. insert_lines-Keeps ls

  release_line-Keeps :
      (o : Outside N) (caller : ℕ) (req : ReleaseRequest) (line : ReleaseRequestLine) (lien : Lien)
      → Keeps OfRequests (release_line o caller req line lien)
  unfolding release_line
  release_line-Keeps o caller req line lien =
      branch-Keeps _ _ _ _
        (bind-Keeps _ _ _ (on_ledger-Keeps _ _ λ w p. p) λ r. write-Keeps _ _ λ w p. p)
        (bind-Keeps _ _ _ (on_ledger-Keeps _ _ λ w p. p) λ parts. write-Keeps _ _ λ w p. p)

  pub release_lines-Keeps :
      (o : Outside N) (caller : ℕ) (req : ReleaseRequest) (ls : List (ReleaseRequestLine × Lien))
      → Keeps OfRequests (release_lines o caller req ls)
  unfolding release_lines
  release_lines-Keeps o caller req [] = answer-Keeps _ _
  release_lines-Keeps o caller req (l ∷ ls) =
      bind-Keeps _ _ _ (release_line-Keeps o caller req l.0 l.1)
        λ u. release_lines-Keeps o caller req ls

  pub force_release_lien-Keeps :
      (o : Outside N) (tenant admin id : ℕ) (dto : ForceReleaseInput)
      → Keeps OfRequests (force_release_lien o tenant admin id dto)
  unfolding force_release_lien insert_force_release
  force_release_lien-Keeps o tenant admin id dto = bind-Keeps _ _ _ (ask-Keeps _ _) λ row.
      bind-Keeps _ _ _ (given-Keeps _ _ _) λ lien. bind-Keeps _ _ _ (ask-Keeps _ _) λ forced.
        branch-Keeps _ forced _ _ (answer-Keeps _ _) (
          bind-Keeps _ _ _ (refuse_if-Keeps _ _ _) λ u.
            bind-Keeps _ _ _ (on_ledger-Keeps _ _ λ w p. p) λ r. atomically-Keeps _ _ (
              bind-Keeps _ _ _
                (bind-Keeps _ _ _ (ask-Keeps _ _)
                  λ t. bind-Keeps _ _ _ (refuse_if-Keeps _ _ _) λ v. write-Keeps _ _ λ w p. p)
                λ x. write-Keeps _ _ λ w p. p))
