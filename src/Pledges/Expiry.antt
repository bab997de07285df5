-- ===== src/Pledges/Expiry.antt =====
-- `expireStalePledges` of src/pledges/pledges.service.ts, which a timer calls every ten minutes.
use secure_store_backend.Prelude.{
  ℕ, suc, codes, ◌&&◌, none, some, List, [], ◌∷◌, leb, if◌then◌else◌,
}
use secure_store_backend.Ledger.Call.{Call}
use secure_store_backend.Service.{Outcome, done, failed, ◌>>◌, write}
use secure_store_backend.Pledges.{
  Act, World, Pledge, Refusal, PledgeStatus, Lookups, update_pledge, is_pending,
}
use secure_store_backend.Pledges.Decide.{release_held}

-- the `where` of the query: PENDING, and `expiresAt` at most now
unfoldable pub stale_pledges : ℕ → List Pledge → List Pledge
stale_pledges now [] = []
stale_pledges now (p ∷ ps) =
    let rest = stale_pledges now ps in
    if is_pending p.status && leb p.expires_at now then p ∷ rest else rest

-- The body of the `try`: the volume is released, then the row is written.
unfoldable pub expire_one : Call → Lookups → Pledge → Act (Unit {0})
unfolding release_held
expire_one c q p = do
  release_held c q p none (codes "pledge:expire:")
      (codes "Pledge expired (TTL elapsed with no decision)")
  write (
      update_pledge p.id (λ x. record x { status = PledgeStatus.expired; decided_at = some c.now }))

abbrev pub counted : Outcome Refusal (Unit {0}) → ℕ → ℕ
counted (done a) n = suc n
counted (failed e) n = n

-- The loop: a pledge that fails is skipped. Every pledge has its own call of the ledger.
unfoldable pub expire_each : (ℕ → Call) → Lookups → List Pledge → World → ℕ × World
unfolding expire_one
expire_each calls q [] w = (0, w)
expire_each calls q (p ∷ ps) w =
    let (r, w') = expire_one (calls p.id) q p w in
    let (n, w'') = expire_each calls q ps w' in (counted r n, w'')

-- `expireStalePledges`: how many it expired, and the tables
unfoldable pub expire_stale_pledges : (ℕ → Call) → Lookups → (now : ℕ) → World → ℕ × World
unfolding stale_pledges expire_each
expire_stale_pledges calls q now w = expire_each calls q (stale_pledges now w.pledges) w
