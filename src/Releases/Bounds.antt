-- ===== src/Releases/Bounds.antt =====
-- What remains of a lien, over the requests of src/release-requests/release-requests.service.ts and
-- src/admin-liens/admin-liens.service.ts.
use secure_store_backend.Prelude.{ℕ, Text, List, [], ◌∷◌}
use secure_store_backend.Desk.{Desk, Outside}
use secure_store_backend.Releases.{
  CreateReleaseRequest, create_release_request, cancel_release_request,
}
use secure_store_backend.Releases.Decide.{approve_release_request, reject_release_request}
use secure_store_backend.Releases.Force.{ForceReleaseInput, force_release_lien}
use secure_store_backend.Releases.Collateral.{
  IsCollateral, create_release_request-Collateral, cancel_release_request-Collateral,
  reject_release_request-Collateral, approve_release_request-Collateral,
  force_release_lien-Collateral,
}

-- The requests on liens, each with its arguments.
pub data LienRequest : Type 0 where
  ask_release : (caller_id : ℕ) → CreateReleaseRequest → LienRequest
  cancel_release : (caller_id request_id : ℕ) → LienRequest
  approve_release : (caller_id request_id : ℕ) → (otp : Text) → LienRequest
  reject_release : (caller_id request_id : ℕ) → (reason : Text) → LienRequest
  force_release : (tenant_id admin_id lien_id : ℕ) → ForceReleaseInput → LienRequest

-- The tables after the request, whatever its outcome.
unfoldable pub serve_lien : {N : Type 0} → Outside N → LienRequest → Desk N → Desk N
serve_lien o (LienRequest.ask_release caller dto) w = (create_release_request o caller dto w).1
serve_lien o (LienRequest.cancel_release caller id) w = (cancel_release_request o caller id w).1
serve_lien o (LienRequest.approve_release caller id otp) w =
    (approve_release_request o caller id otp w).1
serve_lien o (LienRequest.reject_release caller id why) w =
    (reject_release_request o caller id why w).1
serve_lien o (LienRequest.force_release tenant admin id dto) w =
    (force_release_lien o tenant admin id dto w).1

-- The tables after the requests, each with what it takes from outside, one after the other.
unfoldable pub serve_liens : {N : Type 0} → List (Outside N × LienRequest) → Desk N → Desk N
serve_liens [] w = w
serve_liens (r ∷ rs) w = serve_liens rs (serve_lien r.0 r.1 w)

one_request :
    {N : Type 0} (o : Outside N) (r : LienRequest) (w : Desk N)
    → IsCollateral w
    → IsCollateral (serve_lien o r w)
unfolding serve_lien
one_request o (LienRequest.ask_release caller dto) w h =
    (create_release_request-Collateral o caller dto).kept w h
one_request o (LienRequest.cancel_release caller id) w h =
    (cancel_release_request-Collateral o caller id).kept w h
one_request o (LienRequest.approve_release caller id otp) w h =
    (approve_release_request-Collateral o caller id otp).kept w h
one_request o (LienRequest.reject_release caller id why) w h =
    (reject_release_request-Collateral o caller id why).kept w h
one_request o (LienRequest.force_release tenant admin id dto) w h =
    (force_release_lien-Collateral o tenant admin id dto).kept w h

-- When every lien in force has a positive remaining quantity, every other lien has none, and every line
-- of a release request takes something, then the same holds after any requests on liens (a release is
-- asked for, cancelled, approved or rejected, or a lien is force-released), whatever their outcomes.
pub serve_liens-IsCollateral :
    {N : Type 0} (rs : List (Outside N × LienRequest)) (w : Desk N)
    → IsCollateral w
    → IsCollateral (serve_liens rs w)
unfolding serve_liens
serve_liens-IsCollateral [] w h = h
serve_liens-IsCollateral (r ∷ rs) w h =
    serve_liens-IsCollateral rs (serve_lien r.0 r.1 w) (one_request r.0 r.1 w h)
