-- ===== src/TestsSecurity.antt =====
-- Concrete runs of src/security/security.service.ts, and the witnesses of what is proved of it.
use secure_store_backend.Prelude.{
  ℕ, ◌^◌, ◌≡◌, refl, ltb, if◌then◌else◌, Text, text_eq, codes, true, false, none, some, List, [],
  ◌∷◌, arith,
}
use secure_store_backend.Service.{
  done, failed, answer, refuse, ask, write, refuse_if, given, branch,
}
use secure_store_backend.Security.{
  User, Accounts, Crypto, Moment, Purpose, all_digits, is_numeric, numeric_code, text_of_number,
  digits, pad_start, zeros, find_user, modify_otp, load_user, otp_expired, otp_invalid,
  assert_password, password_incorrect,
}
use secure_store_backend.Security.Otp.{
  request_transaction_otp, consume_otp, newest_unused, void_live, wrong_code,
}
use secure_store_backend.Security.Pin.{set_transaction_pin}
use secure_store_backend.Security.Gate.{assert_transaction_auth, check_pin}
use secure_store_backend.Security.Tables.{HashesAreSet, IsSound}
use secure_store_backend.Security.Invariant.{Request, serve_all, serve_all-IsSound}
use secure_store_backend.Security.Codes.{
  IsRandomInt, number_from, numeric_code-is_numeric, number_from-numeric_code,
}
use secure_store_backend.Security.Once.{code, requested, spent, code_works_once}
use secure_store_backend.Security.Guarded.{IsCodeSpent, IsPinGiven, assert_transaction_auth_shows}

-- a hash that only marks the text
abbrev pub marked : Crypto
marked = record {
  hash = λ salt t. b'$' ∷ t;
  compare = λ t h. text_eq (b'$' ∷ t) h;
  sha256 = λ t. t;
}

abbrev ada : User
ada = record {
  id = 7;
  password = codes "$secret";
  transaction_pin_hash = some (codes "$1234");
  transaction_pin_updated_at = some 1;
  two_factor_enabled = true;
  two_factor_enabled_at = some 2;
}

abbrev bob : User
bob = record {
  id = 8;
  password = codes "$word";
  transaction_pin_hash = none;
  transaction_pin_updated_at = none;
  two_factor_enabled = false;
  two_factor_enabled_at = none;
}

abbrev pub accounts : Accounts
accounts = record { users = ada ∷ bob ∷ []; otps = []; outbox = [] }

-- the number 123456, or 0 where that is not below the maximum
abbrev six_digits : ℕ → ℕ
six_digits max = if ltb 123456 max then 123456 else 0

abbrev at : ℕ → Moment
at t = record { now = t; new_id = t; random_int = six_digits; salt = []; queued = true }

abbrev sent : Accounts
sent = (request_transaction_otp marked (at 100) 7 Purpose.withdrawal accounts).1

-- A wrong code costs one of the five attempts.
wrong_code_counts :
    (consume_otp marked 200 7 (codes "000000") Purpose.withdrawal sent).0 ≡ failed (otp_invalid 4)
unfolding consume_otp request_transaction_otp load_user find_user void_live newest_unused is_numeric
    all_digits numeric_code text_of_number digits pad_start zeros text_eq wrong_code modify_otp
    answer refuse ask write refuse_if given branch
wrong_code_counts = refl

-- A password that is not the user's is refused.
wrong_password :
    (set_transaction_pin marked (at 5) 8 (codes "nope") (codes "4321") accounts).0
    ≡ failed password_incorrect
unfolding set_transaction_pin assert_password load_user find_user is_numeric all_digits text_eq ask
    refuse_if given
wrong_password = refl

hashes_are_set : HashesAreSet marked
hashes_are_set salt t = refl

accounts-IsSound : IsSound accounts
accounts-IsSound = record {
  unique = ((refl, tt), (tt, tt));
  armed = ((λ h. refl), ((λ h. cc), tt));
  bounded = tt;
}

-- a PIN, the switch, two wrong codes and a right one
abbrev session : List (Moment × Request)
session =
    (at 10, Request.first_pin 8 (codes "word") (codes "4321"))
    ∷ (at 11, Request.enable 8 (codes "word"))
    ∷ (at 12, Request.send_code 8 Purpose.loan)
    ∷ (at 13, Request.consume 8 (codes "999999") Purpose.loan)
    ∷ (at 14, Request.authorize 8 Purpose.loan (some (codes "4321")) (some (codes "123456")) false)
    ∷ []

serve_all-IsSound_example : IsSound (serve_all marked session accounts)
serve_all-IsSound_example =
    serve_all-IsSound marked hashes_are_set session accounts accounts-IsSound

-- a number that has to be padded
abbrev four_digits : ℕ → ℕ
four_digits max = if ltb 1234 max then 1234 else 0

padded_code : numeric_code 6 four_digits ≡ codes "001234"
unfolding numeric_code text_of_number digits pad_start zeros
padded_code = refl

in_range : IsRandomInt six_digits
in_range max positive = ground arith

four-IsRandomInt : IsRandomInt four_digits
four-IsRandomInt max positive = ground arith

numeric_code-is_numeric_example : is_numeric 6 (numeric_code 6 four_digits) ≡ true
numeric_code-is_numeric_example =
    numeric_code-is_numeric 6 four_digits (omega arith) four-IsRandomInt

number_from-numeric_code_example : number_from 0 (numeric_code 6 four_digits) ≡ four_digits (10 ^ 6)
number_from-numeric_code_example = number_from-numeric_code 6 four_digits

found_ada : find_user 7 accounts.users ≡ some ada
unfolding find_user
found_ada = refl

well_formed : is_numeric 6 (codes "123456") ≡ true
unfolding is_numeric all_digits
well_formed = refl

code_works_once_example :
    (request_transaction_otp marked (at 100) 7 Purpose.withdrawal accounts
      ≡ (done 600, requested marked (at 100) 7 Purpose.withdrawal accounts ada))
    × (consume_otp marked 200 7
          (code marked (at 100) 7 Purpose.withdrawal accounts ada)
          Purpose.withdrawal
          (requested marked (at 100) 7 Purpose.withdrawal accounts ada)
        ≡ (done tt, spent marked (at 100) 7 Purpose.withdrawal accounts ada 200))
    × (consume_otp marked 300 7
          (codes "123456")
          Purpose.withdrawal
          (spent marked (at 100) 7 Purpose.withdrawal accounts ada 200)
        ≡ (failed otp_expired, spent marked (at 100) 7 Purpose.withdrawal accounts ada 200))
code_works_once_example =
    code_works_once marked (at 100) 7 Purpose.withdrawal accounts ada 200 300 (codes "123456")
      found_ada refl refl in_range (omega arith) (omega arith) well_formed

abbrev authorized : Accounts
authorized =
    (assert_transaction_auth marked 200 7 Purpose.withdrawal (some (codes "1234"))
      (some (codes "123456")) false sent).1

authorized_runs :
    assert_transaction_auth marked 200 7 Purpose.withdrawal
      (some (codes "1234"))
      (some (codes "123456"))
      false
      sent
    ≡ (done tt, authorized)
unfolding assert_transaction_auth check_pin consume_otp request_transaction_otp load_user find_user
    void_live newest_unused is_numeric all_digits numeric_code text_of_number digits pad_start zeros
    text_eq modify_otp answer ask write refuse_if given branch
authorized_runs = refl

found_in_sent : find_user 7 sent.users ≡ some ada
unfolding request_transaction_otp load_user find_user answer ask write refuse_if given branch
found_in_sent = refl

assert_transaction_auth_shows_example :
    ((code : Text) × (some (codes "123456") ≡ some code)
      × IsCodeSpent marked 200 7 Purpose.withdrawal code sent authorized)
    × (false ≡ false → IsPinGiven marked ada (some (codes "1234")))
assert_transaction_auth_shows_example =
    assert_transaction_auth_shows marked 200 7 Purpose.withdrawal (some (codes "1234"))
      (some (codes "123456")) false sent authorized ada found_in_sent refl authorized_runs
