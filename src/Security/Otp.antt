-- ===== src/Security/Otp.antt =====
-- `requestTransactionOtp` and `consumeOtp` of src/security/security.service.ts.
use secure_store_backend.Prelude.{
  ℕ, ◌+◌, ◌-◌, ◌*◌, Text, text_eq, Bool, not, ◌&&◌, ◌||◌, Option, none, some, List, [], ◌∷◌, ◌++◌,
  ltb, leb, ◌==◌, if◌then◌else◌,
}
use secure_store_backend.Service.{
  Action, answer, refuse, ask, write, ◌>>=◌, ◌>>◌, refuse_if, given, branch,
}
use secure_store_backend.Security.{
  TransactionOtp, Accounts, Crypto, Moment, Denial, Purpose, change_password, pledge_accept,
  release_approve, same_purpose, otp_length, otp_max_attempts, otp_ttl_minutes, otp_ttl, is_numeric,
  numeric_code, modify_otp, is_some, load_user, otp_format_invalid, otp_expired, otp_exhausted,
  otp_invalid, not_queued,
}

-- `ALWAYS_REQUIRE_OTP.includes(purpose)`
abbrev pub always_required : Purpose → Bool
always_required p =
    same_purpose change_password p
    || (same_purpose pledge_accept p || same_purpose release_approve p)

abbrev pub is_for : ℕ → Purpose → TransactionOtp → Bool
is_for user_id purpose o = o.user_id == user_id && same_purpose o.purpose purpose

-- the rows that `updateMany` selects: unused, and not expired
abbrev pub is_live : ℕ → ℕ → Purpose → TransactionOtp → Bool
is_live now user_id purpose o =
    is_for user_id purpose o && (not (is_some o.used_at) && ltb now o.expires_at)

unfoldable pub void_live : ℕ → ℕ → Purpose → List TransactionOtp → List TransactionOtp
void_live now user_id purpose [] = []
void_live now user_id purpose (o ∷ os) =
    (if is_live now user_id purpose o then record o { used_at = some now } else o)
    ∷ void_live now user_id purpose os

-- the row of a new code
abbrev pub fresh_otp : Crypto → Moment → ℕ → Purpose → TransactionOtp
fresh_otp k m user_id purpose = record {
  id = m.new_id;
  user_id = user_id;
  purpose = purpose;
  code_hash = k.sha256 (numeric_code otp_length m.random_int);
  expires_at = m.now + otp_ttl;
  used_at = none;
  attempts = 0;
}

-- the transaction: older live codes are voided, the new one is created
abbrev pub replace_otps : Crypto → Moment → ℕ → Purpose → Accounts → Accounts
replace_otps k m user_id purpose w = record w {
  otps = void_live m.now user_id purpose w.otps ++ fresh_otp k m user_id purpose ∷ [];
}

-- the mail of the new code, which the queue has taken
abbrev pub send_code : Moment → ℕ → Purpose → Accounts → Accounts
send_code m user_id purpose w = record w {
  outbox =
      w.outbox
      ++ record {
        to = user_id;
        code = numeric_code otp_length m.random_int;
        purpose = purpose;
        expires_in_minutes = otp_ttl_minutes;
      }
        ∷ [];
}

-- `requestTransactionOtp`: `expiresInSeconds`, which is 0 when nothing is sent
unfoldable pub request_transaction_otp : Crypto → Moment → ℕ → Purpose → Action Accounts Denial ℕ
unfolding load_user void_live
request_transaction_otp k m user_id purpose = do
  user ← load_user user_id
  branch (not user.two_factor_enabled && not (always_required purpose)) (answer 0) (do
    write (replace_otps k m user.id purpose)
    refuse_if (not m.queued) not_queued
    write (send_code m user.id purpose)
    answer (otp_ttl_minutes * 60))

-- `findFirst` by the newest: the last row that is for the purpose and unused
unfoldable pub newest_unused : ℕ → Purpose → List TransactionOtp → Option TransactionOtp
newest_unused user_id purpose [] = none
newest_unused user_id purpose (o ∷ os) =
    let rest = newest_unused user_id purpose os in
    elim rest [
      | some later ↦ some later
      | none ↦ if is_for user_id purpose o && not (is_some o.used_at) then some o else none
    ]

abbrev pub is_burned : TransactionOtp → Bool
is_burned o = leb otp_max_attempts (o.attempts + 1)

-- the row after a wrong code
abbrev pub missed : ℕ → Bool → ℕ → TransactionOtp → TransactionOtp
missed attempts burned now o = record o {
  attempts = attempts;
  used_at = if burned then some now else o.used_at;
}

-- the branch of a code that does not match
unfoldable pub wrong_code : ℕ → TransactionOtp → Action Accounts Denial (Unit {0})
wrong_code now otp = do
  write (λ w. record w {
    otps = modify_otp otp.id (missed (otp.attempts + 1) (is_burned otp) now) w.otps;
  })
  refuse_if (is_burned otp) otp_exhausted
  refuse (otp_invalid (otp_max_attempts - (otp.attempts + 1)))

abbrev pub burn : ℕ → ℕ → Accounts → Accounts
burn id now w = record w { otps = modify_otp id (λ o. record o { used_at = some now }) w.otps }

-- `consumeOtp`
unfoldable pub consume_otp : Crypto → ℕ → ℕ → Text → Purpose → Action Accounts Denial (Unit {0})
unfolding wrong_code
consume_otp k now user_id code purpose = do
  refuse_if (not (is_numeric otp_length code)) otp_format_invalid
  row ← ask (λ w. newest_unused user_id purpose w.otps)
  otp ← given row otp_expired
  refuse_if (ltb otp.expires_at now) otp_expired
  branch (text_eq (k.sha256 code) otp.code_hash) (write (burn otp.id now)) (wrong_code now otp)
