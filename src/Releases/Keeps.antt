-- ===== src/Releases/Keeps.antt =====
-- The steps of src/release-requests/release-requests.service.ts that only read keep what holds of the
-- tables.
use secure_store_backend.Prelude.{ℕ, Bool, List, [], ◌∷◌}
use secure_store_backend.Pledges.{Lien}
use secure_store_backend.Service.Keeps.{
  Keeps, bind-Keeps, refuse_if-Keeps, given-Keeps, ask-Keeps, answer-Keeps,
}
use secure_store_backend.Desk.{Desk, Outside, ReleaseRequest, ReleaseRequestLine}
use secure_store_backend.Releases.{LineInput, check_line, check_lines, pending_request, require_org}
use secure_store_backend.Releases.Decide.{check_again}

-- The steps that only read keep every property.
module _ {N : Type 0} (Q : Desk N → Type 0) where
  pub check_lines-Keeps :
      (caller_id financier_id : ℕ) (ls : List LineInput)
      → Keeps {S = Desk N} Q (check_lines caller_id financier_id ls)
  unfolding check_lines check_line
  check_lines-Keeps caller_id financier_id [] = answer-Keeps _ _
  check_lines-Keeps caller_id financier_id (l ∷ ls) =
      bind-Keeps _ _ _
        (bind-Keeps _ _ _ (ask-Keeps _ _) λ row. bind-Keeps _ _ _ (given-Keeps _ _ _) λ lien.
          bind-Keeps _ _ _ (refuse_if-Keeps _ _ _) λ a.
            bind-Keeps _ _ _ (refuse_if-Keeps _ _ _) λ b.
              bind-Keeps _ _ _ (refuse_if-Keeps _ _ _) λ c.
                bind-Keeps _ _ _ (refuse_if-Keeps _ _ _)
                  λ d. bind-Keeps _ _ _ (ask-Keeps _ _) λ pending. refuse_if-Keeps _ _ _)
        λ u. check_lines-Keeps caller_id financier_id ls

  pub pending_request-Keeps :
      (test : ReleaseRequest → Bool) → Keeps {S = Desk N} Q (pending_request test)
  unfolding pending_request
  pending_request-Keeps test = bind-Keeps _ _ _ (ask-Keeps _ _) λ row.
      bind-Keeps _ _ _ (given-Keeps _ _ _)
        λ r. bind-Keeps _ _ _ (refuse_if-Keeps _ _ _) λ u. answer-Keeps _ _

  pub require_org-Keeps : (o : Outside N) (caller : ℕ) → Keeps {S = Desk N} Q (require_org o caller)
  unfolding require_org
  require_org-Keeps o caller =
      bind-Keeps _ _ _ (given-Keeps _ _ _)
        λ org. bind-Keeps _ _ _ (refuse_if-Keeps _ _ _) λ u. answer-Keeps _ _

  pub check_again-Keeps :
      (ls : List (ReleaseRequestLine × Lien)) → Keeps {S = Desk N} Q (check_again ls)
  unfolding check_again
  check_again-Keeps [] = answer-Keeps _ _
  check_again-Keeps (l ∷ ls) =
      bind-Keeps _ _ _ (refuse_if-Keeps _ _ _)
        λ a. bind-Keeps _ _ _ (refuse_if-Keeps _ _ _) λ b. check_again-Keeps ls
