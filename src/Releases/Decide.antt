-- ===== src/Releases/Decide.antt =====
-- `approveReleaseRequest` and `rejectReleaseRequest` of
-- src/release-requests/release-requests.service.ts, by the financier.
use secure_store_backend.Prelude.{
  ℕ, Text, codes, not, ◌&&◌, none, some, List, [], ◌∷◌, ◌==◌, if◌then◌else◌,
}
use secure_store_backend.Prelude.Int.{pos, ◌-ℤ◌, ltb_ℤ, eq_ℤ}
use secure_store_backend.Ledger.Rows.{release}
use secure_store_backend.Ledger.Collateral.{release_partial}
use secure_store_backend.Pledges.{Lien, LienStatus}
use secure_store_backend.Security.{Purpose}
use secure_store_backend.Security.Otp.{consume_otp}
use secure_store_backend.Service.{answer, ask, write, refuse_if, branch, ◌>>=◌, ◌>>◌}
use secure_store_backend.Desk.{
  Desk, ReleaseRequest, ReleaseRequestLine, ReleaseStatus, Outside, Act, on_ledger, on_accounts,
  key, caller, lien_not_active, quantity_exceeds_lien,
}
use secure_store_backend.Releases.{
  find_lien, modify_lien, is_in_force, require_org, pending_request, update_request,
}

-- The lines of the request, each with its lien; a line without a lien cannot be, by the foreign key.
unfoldable pub lines_of : ℕ → List Lien → List ReleaseRequestLine → List (ReleaseRequestLine × Lien)
lines_of request_id liens [] = []
lines_of request_id liens (l ∷ ls) =
    let rest = lines_of request_id liens ls in
    elim (find_lien l.lien_id liens) [
      | none ↦ rest
      | some lien ↦ if l.release_request_id == request_id then (l, lien) ∷ rest else rest
    ]

-- the checks of the lines before the approval
unfoldable pub check_again : {N : Type 0} → List (ReleaseRequestLine × Lien) → Act N (Unit {0})
check_again [] = answer tt
check_again (l ∷ ls) = do
  refuse_if (not (is_in_force l.1.status)) (lien_not_active l.1.id l.1.status)
  refuse_if (ltb_ℤ l.1.remaining_quantity l.0.quantity)
      (quantity_exceeds_lien l.1.id l.1.remaining_quantity)
  check_again ls

-- `prisma.lien.update` of a row that is there
abbrev pub update_lien : {N : Type 0} → ℕ → (Lien → Lien) → Desk N → Desk N
update_lien id f w = record w { liens = modify_lien id f w.liens }

abbrev pub line_key : {N : Type 0} → Outside N → Text → ReleaseRequest → ReleaseRequestLine → Text
line_key o prefix req line = key o prefix req.id (key o (codes ":") line.id [])

-- one line of the loop; the lien is the one that was loaded before the loop
unfoldable pub release_line :
    {N : Type 0}
    → Outside N
    → (caller_id : ℕ) → ReleaseRequest
    → ReleaseRequestLine
    → Lien
    → Act N (Unit {0})
release_line o caller_id req line lien =
    branch (eq_ℤ line.quantity lien.remaining_quantity)
      (do
        on_ledger (
            release (o.line_call line.id)
              (caller req.tenant_id (some caller_id) (line_key o (codes "release:full:") req line))
              lien.receipt_id (some (key o (codes "Release request ") req.id (codes " approved"))))
        write (
            update_lien lien.id (λ l. record l {
              remaining_quantity = pos 0;
              status = LienStatus.released;
              released_at = some o.call.now;
            })))
      (do
        parts ← on_ledger (
            release_partial (o.line_call line.id)
              (caller req.tenant_id (some caller_id)
                (line_key o (codes "release:partial:") req line))
              lien.receipt_id line.quantity req.id none)
        write (
            update_lien lien.id (λ l. record l {
              receipt_id = parts.1.id;
              remaining_quantity = lien.remaining_quantity -ℤ line.quantity;
              status = LienStatus.partially_released;
            })))

unfoldable pub release_lines :
    {N : Type 0}
    → Outside N
    → (caller_id : ℕ) → ReleaseRequest
    → List (ReleaseRequestLine × Lien)
    → Act N (Unit {0})
unfolding release_line
release_lines o caller_id req [] = answer tt
release_lines o caller_id req (l ∷ ls) =
    release_line o caller_id req l.0 l.1 >> release_lines o caller_id req ls

-- `approveReleaseRequest`
unfoldable pub approve_release_request :
    {N : Type 0} → Outside N → (caller_id request_id : ℕ) → (otp : Text) → Act N (Unit {0})
unfolding lines_of check_again release_lines
approve_release_request o caller_id request_id otp = do
  org ← require_org o caller_id
  req ← pending_request (λ r. r.id == request_id && r.financier_org_id == org.id)
  pairs ← ask (λ w. lines_of req.id w.liens w.lines)
  check_again pairs
  on_accounts (consume_otp o.crypto o.call.now caller_id otp Purpose.release_approve)
  release_lines o caller_id req pairs
  write (
      update_request req.id (λ r. record r {
        status = ReleaseStatus.approved;
        decided_by_id = some caller_id;
        decided_at = some o.call.now;
      }))

-- `rejectReleaseRequest`
unfoldable pub reject_release_request :
    {N : Type 0} → Outside N → (caller_id request_id : ℕ) → (reason : Text) → Act N (Unit {0})
reject_release_request o caller_id request_id reason = do
  org ← require_org o caller_id
  req ← pending_request (λ r. r.id == request_id && r.financier_org_id == org.id)
  write (
      update_request req.id (λ r. record r {
        status = ReleaseStatus.rejected;
        decision_reason = some reason;
        decided_by_id = some caller_id;
        decided_at = some o.call.now;
      }))
