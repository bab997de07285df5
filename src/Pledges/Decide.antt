-- ===== src/Pledges/Decide.antt =====
-- The decisions on a pledge in src/pledges/pledges.service.ts: `cancelPledge` by the client, and
-- `acceptPledge` and `rejectPledge` by the financier.
use secure_store_backend.Prelude.{
  ℕ, Text, codes, Bool, false, not, ◌&&◌, ◌||◌, Option, none, some, List, [], ◌∷◌, ◌++◌, ltb, ◌==◌,
}
use secure_store_backend.Receipt.{Metadata}
use secure_store_backend.Ledger.Call.{Call, ActorCtx}
use secure_store_backend.Ledger.Rows.{release, transition_pledge_to_lien}
use secure_store_backend.Service.{ask, answer, refuse_if, given, ◌>>=◌, ◌>>◌, write}
use secure_store_backend.Pledges.{
  Act, Pledge, PledgeStatus, Lien, LienStatus, Lookups, on_ledger, find_pledge, update_pledge,
  require_financier_org, pledge_detail, is_pending, pledge_not_found, pledge_not_pending,
  pledge_expired, pledge_internal_state, otp_refused, row_clash,
}
use secure_store_backend.Pledges.Create.{key}

abbrev pub ctx : Lookups → Pledge → Option ℕ → Text → ActorCtx
ctx q p actor prefix = record {
  tenant_id = p.tenant_id;
  actor_user_id = actor;
  idempotency_key = key q prefix p.id;
}

-- `if (p.heldReceiptId) await this.ledger.release(…)`
unfoldable pub release_held : Call → Lookups → Pledge → Option ℕ → Text → Text → Act (Unit {0})
release_held c q p actor prefix why = elim p.held_receipt_id [
  | none ↦ answer tt
  | some held ↦ (on_ledger (release c (ctx q p actor prefix) held (some why)) >>= λ r. answer tt)
]

-- the pledge that the test selects, which must be PENDING
unfoldable pub pending_pledge : (Pledge → Bool) → Act Pledge
pending_pledge test = do
  row ← ask (λ w. find_pledge test w.pledges)
  p ← given row pledge_not_found
  refuse_if (not (is_pending p.status)) (pledge_not_pending p.status)
  answer p

-- `cancelPledge`
unfoldable pub cancel_pledge : Call → Lookups → (caller_id pledge_id : ℕ) → Act Pledge
unfolding pending_pledge release_held
cancel_pledge c q caller_id pledge_id = do
  p ← pending_pledge (λ p. p.id == pledge_id && p.client_id == caller_id)
  release_held c q p (some caller_id) (codes "pledge:cancel:") (codes "Pledge cancelled by client")
  write (update_pledge p.id (λ x. record x { status = PledgeStatus.cancelled }))
  pledge_detail p.id

-- the lien of an accepted pledge
abbrev pub lien_row : (id : ℕ) → Pledge → (held : ℕ) → Lien
lien_row id p held = record {
  id = id;
  tenant_id = p.tenant_id;
  pledge_id = p.id;
  receipt_id = held;
  client_id = p.client_id;
  financier_org_id = p.financier_org_id;
  quantity = p.quantity;
  remaining_quantity = p.quantity;
  status = LienStatus.active;
  released_at = none;
}

-- the unique columns of a lien: its id and its pledge
unfoldable pub lien_clashes : Lien → List Lien → Bool
lien_clashes new [] = false
lien_clashes new (l ∷ ls) = l.id == new.id || (l.pledge_id == new.pledge_id || lien_clashes new ls)

-- The transaction that creates the lien and writes the pledge: both or neither.
unfoldable pub create_lien : Lien → (Pledge → Pledge) → Act (Unit {0})
unfolding lien_clashes
create_lien l change = do
  taken ← ask (λ w. lien_clashes l w.liens)
  refuse_if taken row_clash
  write (λ w. record (update_pledge l.pledge_id change w) { liens = w.liens ++ l ∷ [] })

abbrev note_or_null : Option Text → Text
note_or_null none = codes "null"
note_or_null (some text) = text

-- `acceptPledge`; the code is checked before the ledger is called
unfoldable pub accept_pledge :
    Call → Lookups → (caller_id pledge_id lien_id : ℕ) → Option Text → Act Pledge
unfolding pending_pledge create_lien
accept_pledge c q caller_id pledge_id lien_id message = do
  org ← require_financier_org q
  p ← pending_pledge (λ p. p.id == pledge_id && p.financier_org_id == org.id)
  refuse_if (ltb p.expires_at c.now) pledge_expired
  held ← given p.held_receipt_id pledge_internal_state
  refuse_if (not q.otp_is_valid) otp_refused
  on_ledger (
      transition_pledge_to_lien c (ctx q p (some caller_id) (codes "pledge:accept:")) held p.id
        (some (Metadata.json (note_or_null message))))
  create_lien (lien_row lien_id p held) (λ x. record x {
    status = PledgeStatus.accepted;
    decided_by_id = some caller_id;
    decided_at = some c.now;
    decision_reason = message;
  })
  pledge_detail p.id

-- `rejectPledge`
unfoldable pub reject_pledge :
    Call → Lookups → (caller_id pledge_id : ℕ) → (why : Text) → Act Pledge
unfolding pending_pledge release_held
reject_pledge c q caller_id pledge_id why = do
  org ← require_financier_org q
  p ← pending_pledge (λ p. p.id == pledge_id && p.financier_org_id == org.id)
  release_held c q p (some caller_id) (codes "pledge:reject:") (codes "Pledge rejected: " ++ why)
  write (
      update_pledge p.id (λ x. record x {
        status = PledgeStatus.rejected;
        decision_reason = some why;
        decided_by_id = some caller_id;
        decided_at = some c.now;
      }))
  pledge_detail p.id
