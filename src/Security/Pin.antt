-- ===== src/Security/Pin.antt =====
-- The transaction PIN and the two-factor switch of src/security/security.service.ts.
use secure_store_backend.Prelude.{ℕ, Text, text_eq, Bool, true, false, not, Option, none, some}
use secure_store_backend.Service.{Action, answer, write, ◌>>=◌, ◌>>◌, refuse_if, given, branch}
use secure_store_backend.Security.{
  Accounts, Crypto, Moment, Denial, disable_2fa, pin_length, is_numeric, modify_user, set_pin,
  is_some, load_user, assert_password, pin_format_invalid, pin_not_set, pin_already_set,
  pin_incorrect, pin_reused, pin_locked_by_2fa,
}
use secure_store_backend.Security.Otp.{consume_otp}

-- `assertPinFormat`
abbrev pub assert_pin_format : Text → Action Accounts Denial (Unit {0})
assert_pin_format pin = refuse_if (not (is_numeric pin_length pin)) pin_format_invalid

-- `prisma.user.update` of the PIN
abbrev pub store_pin : ℕ → Option Text → Option ℕ → Accounts → Accounts
store_pin id hash at w = record w {
  users =
      modify_user id
        (λ u. record u { transaction_pin_hash = hash; transaction_pin_updated_at = at }) w.users;
}

abbrev pub store_two_factor : ℕ → Bool → Option ℕ → Accounts → Accounts
store_two_factor id on at w = record w {
  users =
      modify_user id (λ u. record u { two_factor_enabled = on; two_factor_enabled_at = at })
        w.users;
}

-- `setTransactionPin`
unfoldable pub set_transaction_pin :
    Crypto → Moment → ℕ → (password pin : Text) → Action Accounts Denial (Unit {0})
set_transaction_pin k m user_id password pin = do
  assert_pin_format pin
  user ← load_user user_id
  assert_password k user password
  refuse_if (is_some (set_pin user)) pin_already_set
  write (store_pin user.id (some (k.hash m.salt pin)) (some m.now))

-- `changeTransactionPin`
unfoldable pub change_transaction_pin :
    Crypto → Moment → ℕ → (password current next : Text) → Action Accounts Denial (Unit {0})
change_transaction_pin k m user_id password current next = do
  assert_pin_format next
  user ← load_user user_id
  hash ← given (set_pin user) pin_not_set
  assert_password k user password
  refuse_if (not (k.compare current hash)) pin_incorrect
  refuse_if (text_eq current next) pin_reused
  write (store_pin user.id (some (k.hash m.salt next)) (some m.now))

-- `clearTransactionPin`
unfoldable pub clear_transaction_pin :
    Crypto → ℕ → (password : Text) → Action Accounts Denial (Unit {0})
clear_transaction_pin k user_id password = do
  user ← load_user user_id
  assert_password k user password
  branch (not (is_some (set_pin user))) (answer tt)
      (do refuse_if user.two_factor_enabled pin_locked_by_2fa; write (store_pin user.id none none))

-- `enableTwoFactor`
unfoldable pub enable_two_factor :
    Crypto → ℕ → ℕ → (password : Text) → Action Accounts Denial (Unit {0})
enable_two_factor k now user_id password = do
  user ← load_user user_id
  assert_password k user password
  refuse_if (not (is_some (set_pin user))) pin_not_set
  branch user.two_factor_enabled (answer tt) (write (store_two_factor user.id true (some now)))

-- `disableTwoFactor`
unfoldable pub disable_two_factor :
    Crypto → ℕ → ℕ → (password otp : Text) → Action Accounts Denial (Unit {0})
disable_two_factor k now user_id password otp = do
  user ← load_user user_id
  assert_password k user password
  branch (not user.two_factor_enabled) (answer tt)
      (do consume_otp k now user.id otp disable_2fa; write (store_two_factor user.id false none))
