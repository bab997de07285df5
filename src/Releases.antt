-- ===== src/Releases.antt =====
-- The release requests of src/release-requests/release-requests.service.ts: a client asks for parts of
-- liens back, and takes the request back while it is pending.
pub mod Decide
pub mod Keeps
pub mod Force
pub mod Checks
pub mod Collateral
pub mod Bounds
pub mod Quiet
pub mod Life
pub mod Approved
use secure_store_backend.Prelude.{
  ℕ, ◌+◌, Text, Bool, true, false, not, ◌&&◌, ◌||◌, Option, none, some, List, [], ◌∷◌, ◌++◌, ◌==◌,
  if◌then◌else◌,
}
use secure_store_backend.Prelude.Int.{ℤ, pos, ◌+ℤ◌, ◌-ℤ◌, leb_ℤ, ltb_ℤ}
use secure_store_backend.Pledges.{Lien, LienStatus, Org}
use secure_store_backend.Service.Rows.{find_where, any_where, modify_where}
use secure_store_backend.Service.{
  answer, refuse, ask, write, refuse_if, given, branch, atomically, ◌>>=◌, ◌>>◌,
}
use secure_store_backend.Desk.{
  Desk, ReleaseRequest, ReleaseRequestLine, ReleaseStatus, Refusal, Outside, Act, user_not_found,
  forbidden, org_suspended, lien_missing, lien_not_owned, lien_financier_mismatch, lien_not_active,
  quantity_invalid, release_already_pending, quantity_exceeds_lien, release_request_not_found,
  release_request_not_pending, row_clash,
}

pub record LineInput : Type 0 where
  pub lien_id : ℕ
  pub quantity : ℤ

pub record CreateReleaseRequest : Type 0 where
  pub financier_id : ℕ
  pub requested_date : ℕ
  pub note : Option Text
  pub lines : List LineInput

abbrev pub is_pending : ReleaseStatus → Bool
is_pending ReleaseStatus.pending = true
is_pending ReleaseStatus.approved = false
is_pending ReleaseStatus.rejected = false
is_pending ReleaseStatus.cancelled = false

-- the statuses of a lien that still holds volume for the financier
abbrev pub is_in_force : LienStatus → Bool
is_in_force LienStatus.active = true
is_in_force LienStatus.partially_released = true
is_in_force LienStatus.released = false
is_in_force LienStatus.force_released = false

-- `requireFinancierOrg`
unfoldable pub require_org : {N : Type 0} → Outside N → ℕ → Act N Org
require_org o caller = do
  org ← given (o.org_of caller) forbidden
  refuse_if org.is_suspended org_suspended
  answer org

abbrev pub find_lien : ℕ → List Lien → Option Lien
find_lien id = find_where (λ l. l.id == id)

abbrev pub find_request : (ReleaseRequest → Bool) → List ReleaseRequest → Option ReleaseRequest
find_request = find_where

abbrev pub modify_request :
    ℕ → (ReleaseRequest → ReleaseRequest) → List ReleaseRequest → List ReleaseRequest
modify_request id = modify_where (λ r. r.id == id)

abbrev pub modify_lien : ℕ → (Lien → Lien) → List Lien → List Lien
modify_lien id = modify_where (λ l. l.id == id)

abbrev status_is_pending : Option ReleaseRequest → Bool
status_is_pending none = false
status_is_pending (some r) = is_pending r.status

-- what the lines of pending requests take from the lien
unfoldable pub pending_for : ℕ → List ReleaseRequest → List ReleaseRequestLine → ℤ
pending_for lien_id requests [] = pos 0
pending_for lien_id requests (l ∷ ls) =
    (if l.lien_id == lien_id
        && status_is_pending (find_request (λ r. r.id == l.release_request_id) requests)
      then l.quantity
      else pos 0)
    +ℤ pending_for lien_id requests ls

-- the checks of one line against the lien and what is pending for it
unfoldable pub check_line :
    {N : Type 0} → (caller_id financier_id : ℕ) → LineInput → Act N (Unit {0})
unfolding pending_for
check_line caller_id financier_id line = do
  row ← ask (λ w. find_lien line.lien_id w.liens)
  lien ← given row (lien_missing line.lien_id)
  refuse_if (not (lien.client_id == caller_id)) (lien_not_owned line.lien_id)
  refuse_if (not (lien.financier_org_id == financier_id)) (lien_financier_mismatch line.lien_id)
  refuse_if (not (is_in_force lien.status)) (lien_not_active line.lien_id lien.status)
  refuse_if (leb_ℤ line.quantity (pos 0)) (quantity_invalid line.lien_id)
  pending ← ask (λ w. pending_for line.lien_id w.requests w.lines)
  let available = lien.remaining_quantity -ℤ pending
  refuse_if (ltb_ℤ available line.quantity) (
      if ltb_ℤ (pos 0) pending
      then release_already_pending line.lien_id available
      else quantity_exceeds_lien line.lien_id available)

unfoldable pub check_lines :
    {N : Type 0} → (caller_id financier_id : ℕ) → List LineInput → Act N (Unit {0})
unfolding check_line
check_lines caller_id financier_id [] = answer tt
check_lines caller_id financier_id (l ∷ ls) =
    check_line caller_id financier_id l >> check_lines caller_id financier_id ls

abbrev pub request_row :
    {N : Type 0} → Outside N → (tenant_id caller_id : ℕ) → CreateReleaseRequest → ReleaseRequest
request_row o tenant_id caller_id dto = record {
  id = o.new_id;
  tenant_id = tenant_id;
  client_id = caller_id;
  financier_org_id = dto.financier_id;
  requested_date = dto.requested_date;
  note = dto.note;
  status = ReleaseStatus.pending;
  decision_reason = none;
  decided_by_id = none;
  decided_at = none;
}

-- `lienMap.get(line.lienId)!.receiptId`
abbrev receipt_of : Option Lien → ℕ
receipt_of none = 0
receipt_of (some l) = l.receipt_id

-- the rows of the lines, from the place `n` on
unfoldable pub line_rows :
    {N : Type 0}
    → Outside N
    → List Lien
    → (request_id n : ℕ) → List LineInput
    → List ReleaseRequestLine
line_rows o liens request_id n [] = []
line_rows o liens request_id n (l ∷ ls) =
    record {
      id = o.line_id n;
      release_request_id = request_id;
      lien_id = l.lien_id;
      receipt_id = receipt_of (find_lien l.lien_id liens);
      quantity = l.quantity;
    }
    ∷ line_rows o liens request_id (n + 1) ls

abbrev pub has_line : ℕ → List ReleaseRequestLine → Bool
has_line id = any_where (λ l. l.id == id)

unfoldable pub insert_lines : {N : Type 0} → List ReleaseRequestLine → Act N (Unit {0})
insert_lines [] = answer tt
insert_lines (l ∷ ls) = do
  taken ← ask (λ w. has_line l.id w.lines)
  refuse_if taken row_clash
  write (λ w. record w { lines = w.lines ++ l ∷ [] })
  insert_lines ls

abbrev pub has_request : Option ReleaseRequest → Bool
has_request none = false
has_request (some r) = true

unfoldable pub insert_request : {N : Type 0} → ReleaseRequest → Act N (Unit {0})
insert_request r = do
  taken ← ask (λ w. has_request (find_request (λ x. x.id == r.id) w.requests))
  refuse_if taken row_clash
  write (λ w. record w { requests = w.requests ++ r ∷ [] })

-- `createReleaseRequest`
unfoldable pub create_release_request :
    {N : Type 0} → Outside N → (caller_id : ℕ) → CreateReleaseRequest → Act N (Unit {0})
unfolding check_lines insert_request insert_lines line_rows
create_release_request o caller_id dto = do
  tenant_id ← given (o.tenant_of caller_id) user_not_found
  check_lines caller_id dto.financier_id dto.lines
  liens ← ask (λ w. w.liens)
  atomically (do
    insert_request (request_row o tenant_id caller_id dto)
    insert_lines (line_rows o liens o.new_id 0 dto.lines))

-- the request that the test selects, which must be pending
unfoldable pub pending_request : {N : Type 0} → (ReleaseRequest → Bool) → Act N ReleaseRequest
pending_request test = do
  row ← ask (λ w. find_request test w.requests)
  req ← given row release_request_not_found
  refuse_if (not (is_pending req.status)) (release_request_not_pending req.status)
  answer req

-- `prisma.releaseRequest.update` of a row that is there
abbrev pub update_request : {N : Type 0} → ℕ → (ReleaseRequest → ReleaseRequest) → Desk N → Desk N
update_request id f w = record w { requests = modify_request id f w.requests }

-- `cancelReleaseRequest`
unfoldable pub cancel_release_request :
    {N : Type 0} → Outside N → (caller_id request_id : ℕ) → Act N (Unit {0})
unfolding pending_request
cancel_release_request o caller_id request_id = do
  req ← pending_request (λ r. r.id == request_id && r.client_id == caller_id)
  write (
      update_request req.id
        (λ r. record r { status = ReleaseStatus.cancelled; decided_at = some o.call.now }))
