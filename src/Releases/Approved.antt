-- ===== src/Releases/Approved.antt =====
-- What an approval by `approveReleaseRequest` of src/release-requests/release-requests.service.ts shows.
use secure_store_backend.Prelude.{
  ℕ, ◌≡◌, refl, sym, negated, Text, Bool, true, false, ◌&&◌, some, List, [], ◌∷◌, ◌==◌,
}
use mathlib.Core.Path.{subst}
use secure_store_backend.Pledges.{Lien, Org}
use secure_store_backend.Security.{Accounts, Purpose}
use secure_store_backend.Security.Otp.{consume_otp}
use secure_store_backend.Security.Guarded.{IsCodeSpent, consume_otp-Grants}
use secure_store_backend.Service.{done, ◌>>=◌}
use secure_store_backend.Service.Rows.{Each}
use secure_store_backend.Service.Keeps.{Keeps, bind-Keeps, answer-Keeps, branch-Keeps, write-Keeps}
use secure_store_backend.Service.Grants.{
  Grants, ask-Grants, given-Grants, refuse_if-Grants, answer-Grants, weaken-Grants, read-Grants,
}
use secure_store_backend.Desk.{Desk, Outside, Act, ReleaseRequest, ReleaseRequestLine, on_accounts}
use secure_store_backend.Desk.Rules.{on_ledger-Keeps, on_accounts-Grants}
use secure_store_backend.Releases.{is_pending, find_request, require_org, pending_request}
use secure_store_backend.Releases.Decide.{
  approve_release_request, check_again, lines_of, release_line, release_lines,
}
use secure_store_backend.Releases.Checks.{IsReleasable, check_again-Grants}
use secure_store_backend.Releases.Keeps.{check_again-Keeps}

-- What is shown: the caller's organisation, which is not suspended; the pending request of it; every line
-- of the request within what remains of its lien, which is in force; and the code, which is used up.
pub record IsApproved {N : Type 0} (o : Outside N) (caller id : ℕ) (otp : Text) (w after : Desk N)
    : Type 0 where
  pub org : Org
  pub member : o.org_of caller ≡ some org
  pub open_ : org.is_suspended ≡ false
  pub request : ReleaseRequest
  pub stands :
      find_request (λ r. r.id == id && r.financier_org_id == org.id) w.requests ≡ some request
  pub pending : is_pending request.status ≡ true
  pub lines : Each IsReleasable (lines_of request.id w.liens w.lines)
  pub code :
      IsCodeSpent o.crypto o.call.now caller Purpose.release_approve otp w.accounts after.accounts

module _ {N : Type 0} where
  require_org-Grants :
      (o : Outside N) (caller : ℕ) (w : Desk N)
      → Grants
          (λ org after. (after ≡ w) × ((o.org_of caller ≡ some org) × (org.is_suspended ≡ false)))
          (require_org o caller)
          w
  unfolding require_org
  require_org-Grants o caller w =
      given-Grants _ _ _ w
        λ org member. refuse_if-Grants _ _ _ w λ open_. answer-Grants org w (refl, (member, open_))

  pending_request-Grants :
      (test : ReleaseRequest → Bool) (w : Desk N)
      → Grants
          (λ r after.
            (after ≡ w) × ((find_request test w.requests ≡ some r) × (is_pending r.status ≡ true)))
          (pending_request test)
          w
  unfolding pending_request
  pending_request-Grants test w = ask-Grants _ _ w (
      given-Grants _ _ _ w λ r stands.
        refuse_if-Grants _ _ _ w λ pending. answer-Grants r w (refl, (stands, negated _ pending)))

  -- the tables of the accounts
  abbrev Same : Accounts → Desk N → Type 0
  Same s w = w.accounts ≡ s

  release_line-Same :
      (s : Accounts) (o : Outside N) (caller : ℕ) (req : ReleaseRequest) (l : ReleaseRequestLine)
      (lien : Lien)
      → Keeps (Same s) (release_line o caller req l lien)
  unfolding release_line
  release_line-Same s o caller req l lien =
      branch-Keeps _ _ _ _
        (bind-Keeps _ _ _ (on_ledger-Keeps (Same s) _ λ w h. h) λ r. write-Keeps _ _ λ w h. h)
        (bind-Keeps _ _ _ (on_ledger-Keeps (Same s) _ λ w h. h) λ parts. write-Keeps _ _ λ w h. h)

  release_lines-Same :
      (s : Accounts) (o : Outside N) (caller : ℕ) (req : ReleaseRequest)
      (ls : List (ReleaseRequestLine × Lien))
      → Keeps (Same s) (release_lines o caller req ls)
  unfolding release_lines
  release_lines-Same s o caller req [] = answer-Keeps _ _
  release_lines-Same s o caller req (l ∷ ls) =
      bind-Keeps _ _ _ (release_line-Same s o caller req l.0 l.1)
        λ u. release_lines-Same s o caller req ls

  -- An action that keeps the accounts leaves them when it succeeds.
  leaves-Same :
      {A : Type 0} (s : Accounts) (m : Act N A) (w : Desk N)
      → Keeps (Same s) m
      → w.accounts ≡ s
      → Grants (λ x after. after.accounts ≡ s) m w
  leaves-Same s m w k h = record { granted = λ a after e. subst (λ p. Same s p.1) e (k.kept w h) }

  -- The step of the code, and the rest, which leaves the accounts alone.
  code_step :
      (o : Outside N) (caller : ℕ) (otp : Text) (rest : Unit {0} → Act N (Unit {0})) (w : Desk N)
      → ((s : Accounts) → Keeps (Same s) (rest tt))
      → Grants
          (λ x after.
            IsCodeSpent o.crypto o.call.now caller Purpose.release_approve otp w.accounts
              after.accounts)
          (on_accounts (consume_otp o.crypto o.call.now caller otp Purpose.release_approve)
            >>= rest)
          w
  code_step o caller otp rest w keeps =
      on_accounts-Grants rest w
        (λ a s spent.
          weaken-Grants _ _
            (λ x after same.
              subst (IsCodeSpent o.crypto o.call.now caller Purpose.release_approve otp w.accounts)
                (sym same) spent)
            (leaves-Same s (rest tt) (record w { accounts = s }) (keeps s) refl))
        _ (consume_otp-Grants o.crypto o.call.now caller otp Purpose.release_approve w.accounts)

  check_again-Same :
      (ls : List (ReleaseRequestLine × Lien)) (w : Desk N)
      → Grants (λ x after. (after ≡ w) × Each IsReleasable ls) (check_again ls) w
  check_again-Same ls w = record {
    granted = λ a after e. (
      subst (λ p. p.1 ≡ w) e ((check_again-Keeps (λ z. z ≡ w) ls).kept w refl),
      (check_again-Grants ls w).granted a after e,
    );
  }

  approve_release_request-Grants :
      (o : Outside N) (caller id : ℕ) (otp : Text) (w : Desk N)
      → Grants
          (λ x after. IsApproved o caller id otp w after)
          (approve_release_request o caller id otp)
          w
  unfolding approve_release_request
  approve_release_request-Grants o caller id otp w =
      read-Grants _ _ w (require_org-Grants o caller w) λ org h1.
        read-Grants _ _ w (pending_request-Grants _ w) λ req h2. ask-Grants _ _ w (
          read-Grants _ _ w (check_again-Same _ w) λ u h3.
            weaken-Grants _ w
              (λ x after spent. record {
                org = org;
                member = h1.0;
                open_ = h1.1;
                request = req;
                stands = h2.0;
                pending = h2.1;
                lines = h3;
                code = spent;
              })
              (code_step o caller otp _ w λ s.
                bind-Keeps _ _ _ (release_lines-Same s o caller req _)
                  λ r. write-Keeps _ _ λ z h. h))

-- When `approveReleaseRequest` answers, the caller belongs to a financier's organisation that is not
-- suspended, the request is a pending one of that organisation, every line of it takes no more than what
-- remains of its lien, which is in force, and the text is the code of the newest unused row of the caller
-- for approvals, in time, and is used up afterwards.
pub approve_release_request_shows :
    {N : Type 0} (o : Outside N) (caller id : ℕ) (otp : Text) (w after : Desk N) (x : Unit {0})
    → approve_release_request o caller id otp w ≡ (done x, after)
    → IsApproved o caller id otp w after
approve_release_request_shows o caller id otp w after x =
    (approve_release_request-Grants o caller id otp w).granted x after
