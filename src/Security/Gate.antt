-- ===== src/Security/Gate.antt =====
-- `assertTransactionAuth` of src/security/security.service.ts, which withdrawals, loans and trades call
-- before any work of the ledger.
use secure_store_backend.Prelude.{ℕ, Text, Bool, not, Option, none, some, [], ◌∷◌}
use secure_store_backend.Service.{Action, answer, ◌>>=◌, ◌>>◌, refuse_if, given, branch}
use secure_store_backend.Security.{
  User, Accounts, Crypto, Denial, Purpose, set_pin, load_user, pin_not_set, pin_required,
  pin_incorrect, otp_required,
}
use secure_store_backend.Security.Otp.{consume_otp}

-- an argument that is missing or empty
abbrev pub present : Option Text → Option Text
present none = none
present (some []) = none
present (some (c ∷ cs)) = some (c ∷ cs)

-- the PIN of a client who acts without a manager
unfoldable pub check_pin : Crypto → User → Option Text → Action Accounts Denial (Unit {0})
check_pin k user pin = do
  hash ← given (set_pin user) pin_not_set
  entered ← given (present pin) pin_required
  refuse_if (not (k.compare entered hash)) pin_incorrect

-- `assertTransactionAuth`
unfoldable pub assert_transaction_auth :
    Crypto
    → ℕ
    → ℕ
    → Purpose
    → (pin otp : Option Text) → (is_on_behalf : Bool) → Action Accounts Denial (Unit {0})
unfolding check_pin load_user
assert_transaction_auth k now user_id purpose pin otp is_on_behalf = do
  user ← load_user user_id
  branch (not user.two_factor_enabled) (answer tt) (do
    branch is_on_behalf (answer tt) (check_pin k user pin)
    code ← given (present otp) otp_required
    consume_otp k now user_id code purpose)
