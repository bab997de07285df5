-- ===== src/Security/Once.antt =====
-- A code of src/security/security.service.ts from its request to its use, and after it.
use secure_store_backend.Prelude.{
  ℕ, ◌+◌, ◌≤◌, ◌<◌, ◌≡◌, refl, Text, text_eq_iff, true, false, not, ◌&&◌, some, List, [], ◌∷◌, ◌++◌,
  arith, inl, inr, Bool-cases, Option-cases, ltb, ◌==◌, ==_iff,
}
use secure_store_backend.Service.{done, failed, ask, given, refuse_if, write, branch, answer}
use secure_store_backend.Security.{
  User, TransactionOtp, Accounts, Crypto, Moment, Purpose, is_some, is_numeric, numeric_code,
  find_user, modify_otp, load_user, otp_length, otp_ttl, otp_expired, same_purpose,
}
use secure_store_backend.Security.Otp.{
  request_transaction_otp, consume_otp, newest_unused, void_live, is_for, is_live, fresh_otp,
  replace_otps, send_code, burn, always_required,
}
use secure_store_backend.Security.Codes.{IsRandomInt, numeric_code-is_numeric}
use secure_store_backend.Security.Tables.{newest_found}
use secure_store_backend.Service.Rows.{Each}

newest_last :
    (id : ℕ) (p : Purpose) (os : List TransactionOtp) (o : TransactionOtp)
    → is_for id p o ≡ true
    → is_some o.used_at ≡ false
    → newest_unused id p (os ++ o ∷ []) ≡ some o
unfolding newest_unused
newest_last id p [] o f u = rw (f, u)
newest_last id p (x ∷ os) o f u = rw (newest_last id p os o f u)

-- An unused row for the purpose has expired by `now`.
abbrev IsPast : ℕ → Purpose → ℕ → TransactionOtp → Type 0
IsPast id p now o = is_for id p o ≡ true → is_some o.used_at ≡ false → o.expires_at ≤ now

void_live-IsPast :
    (now id : ℕ) (p : Purpose) (os : List TransactionOtp)
    → Each (IsPast id p now) (void_live now id p os)
unfolding void_live
void_live-IsPast now id p [] = tt
void_live-IsPast now id p (o ∷ os) = elim (Bool-cases (is_live now id p o)) [
  | inl live ↦ rw live ((λ f u. cc), void_live-IsPast now id p os)
  | inr other ↦ rw other ((λ f u. not_live o f u other), void_live-IsPast now id p os)
]
  where
    not_live :
        (x : TransactionOtp)
        → is_for id p x ≡ true
        → is_some x.used_at ≡ false
        → is_live now id p x ≡ false
        → x.expires_at ≤ now
    not_live x f u l = let e : ltb now x.expires_at ≡ false = rw (f, u) at l in ground (arith, e)

-- After the last row is burned, no row is both unused and unexpired.
burn_last-IsPast :
    (id : ℕ) (p : Purpose) (now at : ℕ) (xs : List TransactionOtp) (y : TransactionOtp)
    → Each (IsPast id p now) xs
    → Each (IsPast id p now) (modify_otp y.id (λ o. record o { used_at = some at }) (xs ++ y ∷ []))
unfolding modify_otp
burn_last-IsPast id p now at [] y h = rw ((==_iff y.id y.id).1 refl) ((λ f u. cc), tt)
burn_last-IsPast id p now at (x ∷ xs) y h = elim (Bool-cases (x.id == y.id)) [
  | inl same ↦ rw same ((λ f u. cc), burn_last-IsPast id p now at xs y h.1)
  | inr other ↦ rw other (h.0, burn_last-IsPast id p now at xs y h.1)
]

module _ (k : Crypto) (m : Moment) (id : ℕ) (p : Purpose) (w : Accounts) (u : User) where
  -- the tables and the mails after the request, and after the use of the code at `now`
  abbrev pub requested : Accounts
  requested = send_code m u.id p (replace_otps k m u.id p w)

  abbrev pub code : Text
  code = numeric_code otp_length m.random_int

  abbrev pub spent : ℕ → Accounts
  spent now = burn m.new_id now requested

  request_runs :
      find_user id w.users ≡ some u
      → not u.two_factor_enabled && not (always_required p) ≡ false
      → m.queued ≡ true
      → request_transaction_otp k m id p w ≡ (done 600, requested)
  unfolding request_transaction_otp load_user ask given refuse_if branch write answer
  request_runs found on queued = rw (found, given, on, queued)

  same_self : same_purpose p p ≡ true
  same_self = (==_iff _ _).1 refl

  consume_runs :
      (now : ℕ)
      → IsRandomInt m.random_int
      → now ≤ m.now + otp_ttl
      → consume_otp k now u.id code p requested ≡ (done tt, spent now)
  unfolding consume_otp ask given refuse_if branch write
  consume_runs now range early =
      let well = numeric_code-is_numeric otp_length m.random_int (omega arith) range in
      let self : u.id == u.id ≡ true = (==_iff u.id u.id).1 refl in
      let newest =
        newest_last u.id p (void_live m.now u.id p w.otps) (fresh_otp k m u.id p)
          (rw (self, same_self)) refl in
      let in_time : ltb (m.now + otp_ttl) now ≡ false = ground (arith, early) in
      let match = (text_eq_iff (k.sha256 code) (k.sha256 code)).1 refl in
      rw (well, newest, in_time, match)

  spent-IsPast : (now : ℕ) → Each (IsPast u.id p m.now) (spent now).otps
  spent-IsPast now =
      burn_last-IsPast u.id p m.now now (void_live m.now u.id p w.otps) (fresh_otp k m u.id p)
        (void_live-IsPast m.now u.id p w.otps)

  again_refused :
      (now later : ℕ) (other : Text)
      → m.now < later
      → is_numeric otp_length other ≡ true
      → consume_otp k later u.id other p (spent now) ≡ (failed otp_expired, spent now)
  unfolding consume_otp ask given refuse_if
  again_refused now later other after well =
      elim (Option-cases (newest_unused u.id p (spent now).otps)) [
        | inl missing ↦ rw (well, missing, given)
        | inr (o, found) ↦
            let old =
              newest_found (IsPast u.id p m.now) u.id p (spent now).otps (spent-IsPast now) found in
            let late : ltb o.expires_at later ≡ true = ground (arith, old.0 old.1 old.2, after) in
            rw (well, found, given, late)
      ]

-- A user is found who has two-factor authentication on, or the purpose always asks for a code, the mail
-- queue takes the message, and the random numbers stay below the maximum that is asked for. Then a
-- request answers that the code lasts 600 seconds, and it has replaced the live codes and sent the mail
-- with the new code; the code is accepted for that user and purpose at any time up to ten minutes after the request. After that use,
-- any text of six digits, the same code included, is refused for them as expired at every later time
-- than the request's, and changes nothing.
pub code_works_once :
    (k : Crypto) (m : Moment) (id : ℕ) (p : Purpose) (w : Accounts) (u : User) (now later : ℕ)
    (other : Text)
    → find_user id w.users ≡ some u
    → not u.two_factor_enabled && not (always_required p) ≡ false
    → m.queued ≡ true
    → IsRandomInt m.random_int
    → now ≤ m.now + otp_ttl
    → m.now < later
    → is_numeric otp_length other ≡ true
    → (request_transaction_otp k m id p w ≡ (done 600, requested k m id p w u))
      × (consume_otp k now u.id (code k m id p w u) p (requested k m id p w u)
          ≡ (done tt, spent k m id p w u now))
      × (consume_otp k later u.id other p (spent k m id p w u now)
          ≡ (failed otp_expired, spent k m id p w u now))
code_works_once k m id p w u now later other found on queued range early after well = (
  request_runs k m id p w u found on queued,
  consume_runs k m id p w u now range early,
  again_refused k m id p w u now later other after well,
)
