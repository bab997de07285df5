-- ===== src/Releases/Force.antt =====
-- `forceReleaseLien` of src/admin-liens/admin-liens.service.ts: an administrator ends a lien by a court
-- order.
use secure_store_backend.Prelude.{
  ℕ, Text, codes, Bool, true, false, ◌&&◌, Option, some, List, [], ◌∷◌, ◌++◌, ◌==◌,
}
use secure_store_backend.Prelude.Int.{pos}
use secure_store_backend.Ledger.Rows.{release}
use secure_store_backend.Pledges.{Lien, LienStatus}
use secure_store_backend.Service.Rows.{find_where, any_where}
use secure_store_backend.Service.{
  answer, ask, write, refuse_if, given, branch, atomically, ◌>>=◌, ◌>>◌,
}
use secure_store_backend.Desk.{
  ForceRelease, Outside, Act, on_ledger, key, caller, lien_not_found, lien_already_released,
  row_clash,
}
use secure_store_backend.Releases.Decide.{update_lien}

pub record ForceReleaseInput : Type 0 where
  pub reason : Text
  pub court_order_doc_url : Text

abbrev pub find_lien_in : (id tenant_id : ℕ) → List Lien → Option Lien
find_lien_in id tenant_id = find_where (λ l. l.id == id && l.tenant_id == tenant_id)

abbrev pub is_forced : ℕ → List ForceRelease → Bool
is_forced lien_id = any_where (λ f. f.lien_id == lien_id)

abbrev is_released : LienStatus → Bool
is_released LienStatus.active = false
is_released LienStatus.partially_released = false
is_released LienStatus.released = true
is_released LienStatus.force_released = false

-- `tx.forceRelease.create`; the lien is a unique column
unfoldable pub insert_force_release : {N : Type 0} → ForceRelease → Act N (Unit {0})
insert_force_release f = do
  taken ← ask (λ w. is_forced f.lien_id w.force_releases)
  refuse_if taken row_clash
  write (λ w. record w { force_releases = w.force_releases ++ f ∷ [] })

-- `forceReleaseLien`
unfoldable pub force_release_lien :
    {N : Type 0}
    → Outside N
    → (tenant_id admin_id lien_id : ℕ) → ForceReleaseInput
    → Act N (Unit {0})
unfolding insert_force_release
force_release_lien o tenant_id admin_id lien_id dto = do
  row ← ask (λ w. find_lien_in lien_id tenant_id w.liens)
  lien ← given row lien_not_found
  forced ← ask (λ w. is_forced lien.id w.force_releases)
  branch forced (answer tt) (do
    refuse_if (is_released lien.status) lien_already_released
    on_ledger (
        release o.call
          (caller tenant_id (some admin_id) (key o (codes "lien:force-release:") lien.id []))
          lien.receipt_id (some (codes "Force-released by admin: " ++ dto.reason)))
    atomically (do
      insert_force_release (record {
        tenant_id = tenant_id;
        lien_id = lien.id;
        admin_id = admin_id;
        reason = dto.reason;
        court_order_doc_url = dto.court_order_doc_url;
      })
      write (
          update_lien lien.id (λ l. record l {
            status = LienStatus.force_released;
            remaining_quantity = pos 0;
            released_at = some o.call.now;
          }))))
