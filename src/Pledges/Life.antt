-- ===== src/Pledges/Life.antt =====
-- The life of a pledge over the requests of src/pledges/pledges.service.ts that write.
use secure_store_backend.Prelude.{ℕ, Text, Option, List, [], ◌∷◌}
use secure_store_backend.Ledger.Call.{Call}
use secure_store_backend.Service.Evolves.{Evolved, UniqueRows, Evolved-refl}
use secure_store_backend.Pledges.{World, Pledge, Lookups}
use secure_store_backend.Pledges.Create.{CreatePledge, create_pledge}
use secure_store_backend.Pledges.Decide.{cancel_pledge, accept_pledge, reject_pledge}
use secure_store_backend.Pledges.Expiry.{expire_stale_pledges}
use secure_store_backend.Pledges.Steps.{pledges_machine, OnPledges}
use secure_store_backend.Pledges.Decisions.{cancel-Ends, reject-Ends, accept-Ends, create-Keeps}
use secure_store_backend.Pledges.Stale.{expire_stale-OnPledges}

-- A request, with the ids that it brings: the caller, the pledge, and the lien of an acceptance.
pub data Request : Type 0 where
  create : ℕ → ℕ → CreatePledge → Request
  cancel : ℕ → ℕ → Request
  accept : ℕ → ℕ → ℕ → Option Text → Request
  reject : ℕ → ℕ → Text → Request
  expire_stale : ℕ → Request

-- The tables after the request. `calls` gives, for each pledge, what its call of the ledger takes from
-- outside.
unfoldable pub serve : (ℕ → Call) → Lookups → Request → World → World
serve calls q (Request.create caller id dto) w = (create_pledge (calls id) q caller id dto w).1
serve calls q (Request.cancel caller id) w = (cancel_pledge (calls id) q caller id w).1
serve calls q (Request.accept caller id lien message) w =
    (accept_pledge (calls id) q caller id lien message w).1
serve calls q (Request.reject caller id why) w = (reject_pledge (calls id) q caller id why w).1
serve calls q (Request.expire_stale now) w = (expire_stale_pledges calls q now w).1

-- The tables after the requests, each with what it takes from outside, one after the other.
unfoldable pub serve_pledges : List ((ℕ → Call) × Lookups × Request) → World → World
serve_pledges [] w = w
serve_pledges (r ∷ rs) w = serve_pledges rs (serve r.0 r.1 r.2 w)

one_request :
    (ps : List Pledge) (calls : ℕ → Call) (q : Lookups) (r : Request) (w : World)
    → OnPledges ps w
    → OnPledges ps (serve calls q r w)
unfolding serve
one_request ps calls q (Request.create caller id dto) w h =
    (create-Keeps ps (calls id) q caller id dto).kept w h
one_request ps calls q (Request.cancel caller id) w h =
    (cancel-Ends ps (calls id) q caller id w h).ends
one_request ps calls q (Request.accept caller id lien message) w h =
    (accept-Ends ps (calls id) q caller id lien message w h).ends
one_request ps calls q (Request.reject caller id why) w h =
    (reject-Ends ps (calls id) q caller id why w h).ends
one_request ps calls q (Request.expire_stale now) w h = expire_stale-OnPledges ps q calls now w h

all_requests :
    (ps : List Pledge) (rs : List ((ℕ → Call) × Lookups × Request)) (w : World)
    → OnPledges ps w
    → OnPledges ps (serve_pledges rs w)
unfolding serve_pledges
all_requests ps [] w h = h
all_requests ps (r ∷ rs) w h =
    all_requests ps rs (serve r.0 r.1 r.2 w) (one_request ps r.0 r.1 r.2 w h)

-- When the ids of the pledges are unique, they are unique after any requests of the pledge service (a
-- pledge is created, cancelled, accepted or rejected, or the stale ones are expired), whatever their
-- outcomes. Every pledge is still there, at its place and with its id, and its status has only changed
-- from PENDING to ACCEPTED, REJECTED, CANCELLED or EXPIRED, so a decision is final. The pledges that have
-- come in stand behind them, in a status that such changes reach from PENDING.
pub serve_pledges-Evolved :
    (rs : List ((ℕ → Call) × Lookups × Request)) (w : World)
    → UniqueRows pledges_machine w.pledges
    → UniqueRows pledges_machine (serve_pledges rs w).pledges
      × Evolved pledges_machine w.pledges (serve_pledges rs w).pledges
serve_pledges-Evolved rs w unique =
    all_requests w.pledges rs w (unique, Evolved-refl pledges_machine w.pledges)
