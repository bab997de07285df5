-- ===== src/Security.antt =====
-- The accounts and one-time codes of src/security/security.service.ts: the columns of a user that it
-- reads and writes, the rows of transaction_otps, its refusals by their codes, and its helpers. The
-- hashes are those of third-party packages, and the source uses them as functions (Crypto). A clock read
-- is one input of a call, as are the random numbers (crypto.randomInt), the salt, the id of a new row and
-- whether the queue of outgoing mail takes the message. The texts of answers and the masked address are
-- left out; a mail names the user whose address it goes to.
pub mod Otp
pub mod Pin
pub mod Gate
pub mod Tables
pub mod Invariant
pub mod Codes
pub mod Once
pub mod Guarded
use secure_store_backend.Prelude.{
  ℕ, zero, suc, ◌+◌, ◌-◌, ◌*◌, ◌/◌, ◌%◌, ◌^◌, Text, length, Bool, true, false, not, ◌&&◌, ◌||◌,
  Option, none, some, List, [], ◌∷◌, ◌++◌, leb, ◌==◌, if◌then◌else◌,
}
use secure_store_backend.Service.{Action, ask, given, refuse_if, ◌>>=◌, ◌>>◌}

abbrev pub pin_length : ℕ
pin_length = 4

abbrev pub otp_length : ℕ
otp_length = 6

abbrev pub otp_max_attempts : ℕ
otp_max_attempts = 5

abbrev pub otp_ttl_minutes : ℕ
otp_ttl_minutes = 10

-- in milliseconds
abbrev pub otp_ttl : ℕ
otp_ttl = otp_ttl_minutes * 60 * 1000

pub data Purpose : Type 0 where
  withdrawal loan trade disable_2fa change_password pledge_accept release_approve : Purpose

abbrev purpose_code : Purpose → ℕ
purpose_code withdrawal = 0
purpose_code loan = 1
purpose_code trade = 2
purpose_code disable_2fa = 3
purpose_code change_password = 4
purpose_code pledge_accept = 5
purpose_code release_approve = 6

abbrev pub same_purpose : Purpose → Purpose → Bool
same_purpose a b = purpose_code a == purpose_code b

-- A hash column that is not set is null; the tests of the source also take an empty text for unset.
pub record User : Type 0 where
  pub id : ℕ
  pub password : Text
  pub transaction_pin_hash : Option Text
  pub transaction_pin_updated_at : Option ℕ
  pub two_factor_enabled : Bool
  pub two_factor_enabled_at : Option ℕ

pub record TransactionOtp : Type 0 where
  pub id : ℕ
  pub user_id : ℕ
  pub purpose : Purpose
  pub code_hash : Text
  pub expires_at : ℕ
  pub used_at : Option ℕ
  pub attempts : ℕ

-- The mail that carries a code; `to` is the user whose address it is sent to.
pub record TransactionOtpEmail : Type 0 where
  pub to : ℕ
  pub code : Text
  pub purpose : Purpose
  pub expires_in_minutes : ℕ

-- The tables and the mails that the queue has taken. A code is created after those that stand before it.
pub record Accounts : Type 0 where
  pub users : List User
  pub otps : List TransactionOtp
  pub outbox : List TransactionOtpEmail

pub data Denial : Type 0 where
  user_not_found : Denial
  pin_format_invalid pin_not_set pin_already_set pin_incorrect pin_reused pin_locked_by_2fa
        pin_required :
      Denial
  otp_format_invalid otp_expired otp_exhausted otp_required : Denial
  otp_invalid : ℕ → Denial
  password_required password_incorrect not_queued : Denial

-- bcrypt, whose hash takes a salt, and sha256
pub record Crypto : Type 0 where
  pub hash : Text → Text → Text
  pub compare : Text → Text → Bool
  pub sha256 : Text → Text

-- What one call takes from outside. `random_int` answers `randomInt(0, max)`.
pub record Moment : Type 0 where
  pub now : ℕ
  pub new_id : ℕ
  pub random_int : ℕ → ℕ
  pub salt : Text
  pub queued : Bool

abbrev is_digit : ℕ → Bool
is_digit c = leb b'0' c && leb c b'9'

unfoldable pub all_digits : Text → Bool
all_digits [] = true
all_digits (c ∷ cs) = is_digit c && all_digits cs

-- A text of so many digits. The tests for an empty text are implied by the length.
unfoldable pub is_numeric : ℕ → Text → Bool
unfolding all_digits
is_numeric n t = all_digits t && length t == n

-- The decimal digits of a number, in at most so many rounds, before a text.
unfoldable pub digits : ℕ → ℕ → Text → Text
digits zero n rest = rest
digits (suc fuel) n rest =
    let longer = (b'0' + n % 10) ∷ rest in
    let more = digits fuel (n / 10) longer in if n / 10 == 0 then longer else more

-- `String(n)`; a number has fewer digits than `n + 1`
unfoldable pub text_of_number : ℕ → Text
unfolding digits
text_of_number n = digits (suc n) n []

unfoldable pub zeros : ℕ → Text
zeros zero = []
zeros (suc n) = b'0' ∷ zeros n

-- `t.padStart(len, '0')`
unfoldable pub pad_start : ℕ → Text → Text
unfolding zeros
pad_start len t = zeros (len - length t) ++ t

-- `generateNumericCode`
unfoldable pub numeric_code : ℕ → (ℕ → ℕ) → Text
unfolding text_of_number pad_start
numeric_code len random_int = pad_start len (text_of_number (random_int (10 ^ len)))

unfoldable pub find_user : ℕ → List User → Option User
find_user id [] = none
find_user id (u ∷ us) = if u.id == id then some u else find_user id us

unfoldable pub modify_user : ℕ → (User → User) → List User → List User
modify_user id f [] = []
modify_user id f (u ∷ us) = (if u.id == id then f u else u) ∷ modify_user id f us

unfoldable pub modify_otp :
    ℕ → (TransactionOtp → TransactionOtp) → List TransactionOtp → List TransactionOtp
modify_otp id f [] = []
modify_otp id f (o ∷ os) = (if o.id == id then f o else o) ∷ modify_otp id f os

-- `if (user.transactionPinHash)`
abbrev pub set_pin : User → Option Text
set_pin u = elim u.transaction_pin_hash [
  | none ↦ none
  | some [] ↦ none
  | some (c ∷ cs) ↦ some (c ∷ cs)
]

abbrev pub is_some : {A : Type 0} → Option A → Bool
is_some none = false
is_some (some a) = true

-- `loadUserOrThrow`
unfoldable pub load_user : ℕ → Action Accounts Denial User
load_user id = do row ← ask (λ w. find_user id w.users); given row user_not_found

abbrev pub is_empty : Text → Bool
is_empty [] = true
is_empty (c ∷ cs) = false

-- `assertPasswordCorrect`
unfoldable pub assert_password : Crypto → User → Text → Action Accounts Denial (Unit {0})
assert_password k user password = do
  refuse_if (is_empty password) password_required
  refuse_if (not (k.compare password user.password)) password_incorrect
