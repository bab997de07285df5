-- ===== src/Security/Invariant.antt =====
-- What every request of src/security/security.service.ts keeps of the accounts and of the codes.
use secure_store_backend.Prelude.{
  negated, ℕ, ◌+◌, ◌≡◌, refl, Text, Bool, not, Option, some, List, [], ◌∷◌, ◌++◌, arith, inl, inr,
  Bool-cases, Option-cases,
}
use secure_store_backend.Service.{Action, ask, given, refuse_if, ◌>>=◌}
use secure_store_backend.Service.Ends.{
  Ends, ask-Ends, given-Ends, refuse_if-Ends, write-Ends, branch-Ends, step-Ends, answer-Ends,
  refuse-Ends, last_write-Ends, last_refuse_if-Ends,
}
use secure_store_backend.Security.{
  User, Accounts, Crypto, Moment, Denial, Purpose, find_user, modify_otp, is_empty, load_user,
  assert_password,
}
use secure_store_backend.Security.Otp.{
  request_transaction_otp, consume_otp, wrong_code, void_live, fresh_otp, missed, is_burned,
}
use secure_store_backend.Security.Pin.{
  set_transaction_pin, change_transaction_pin, clear_transaction_pin, enable_two_factor,
  disable_two_factor,
}
use secure_store_backend.Security.Gate.{assert_transaction_auth, check_pin}
use secure_store_backend.Security.Tables.{
  HashesAreSet, set_of_hash, IsBounded, IsSound, newest_found, missed-IsBounded, modify_otp-Each,
  mail-IsSound, void_live-IsBounded, append-Each, user-IsSound, all_users-IsSound, otps-IsSound,
}

module _ {A : Type 0} {P : Accounts → Type 0} where
  -- A user is loaded, or the action ends with the tables as they are.
  load-Ends :
      (id : ℕ) (f : User → Action Accounts Denial A) (w : Accounts)
      → P w
      → ((u : User) → find_user id w.users ≡ some u → Ends P (f u) w)
      → Ends P (load_user id >>= f) w
  unfolding load_user ask given
  load-Ends id f w p h = elim (Option-cases (find_user id w.users)) [
    | inl missing ↦ record { ends = rw (missing, given) p }
    | inr (u, found) ↦ record { ends = rw (found, given) (h u found).ends }
  ]

  assert_password-Ends :
      (k : Crypto) (u : User) (password : Text) (f : Unit {0} → Action Accounts Denial A)
      (w : Accounts)
      → P w
      → Ends P (f tt) w
      → Ends P (assert_password k u password >>= f) w
  unfolding assert_password refuse_if
  assert_password-Ends k u password f w p h = elim (Bool-cases (is_empty password)) [
    | inl empty ↦ record { ends = rw (empty, refuse_if) p }
    | inr entered ↦ elim (Bool-cases (not (k.compare password u.password))) [
      | inl wrong ↦ record { ends = rw (entered, refuse_if, wrong) p }
      | inr right ↦ record { ends = rw (entered, refuse_if, right) h.ends }
    ]
  ]

consume_otp-IsSound :
    (k : Crypto) (now id : ℕ) (code : Text) (p : Purpose) (w : Accounts)
    → IsSound w
    → Ends IsSound (consume_otp k now id code p) w
unfolding consume_otp wrong_code
consume_otp-IsSound k now id code p w s = refuse_if-Ends _ _ _ w s λ well. ask-Ends _ _ w (
    given-Ends _ _ _ w s λ o found. refuse_if-Ends _ _ _ w s λ early.
      let under =
        (newest_found IsBounded id p w.otps s.bounded found).0.1
          (newest_found IsBounded id p w.otps s.bounded found).2 in
      branch-Ends _ _ _ w
        (λ match. last_write-Ends _ w (
          otps-IsSound w _
            (modify_otp-Each IsBounded o.id _ w.otps (λ x b. (b.0, λ e. cc)) s.bounded) s))
        (λ other.
          let missed_sound =
            otps-IsSound w (modify_otp o.id (missed (o.attempts + 1) (is_burned o) now) w.otps)
              (modify_otp-Each IsBounded o.id _ w.otps (λ x b. missed-IsBounded o x now under)
                s.bounded)
              s in
          write-Ends _ _ w
            (refuse_if-Ends _ _ _ _ missed_sound λ left. refuse-Ends _ _ missed_sound)))

request_transaction_otp-IsSound :
    (k : Crypto) (m : Moment) (id : ℕ) (p : Purpose) (w : Accounts)
    → IsSound w
    → Ends IsSound (request_transaction_otp k m id p) w
unfolding request_transaction_otp
request_transaction_otp-IsSound k m id p w s = load-Ends _ _ w s λ u found.
    branch-Ends _ _ _ w (λ off. answer-Ends _ w s)
      (λ on.
        let replaced =
          otps-IsSound w (void_live m.now u.id p w.otps ++ fresh_otp k m u.id p ∷ [])
            (append-Each IsBounded (void_live m.now u.id p w.otps) (fresh_otp k m u.id p)
              (void_live-IsBounded m.now u.id p w.otps s.bounded) (omega arith, λ e. omega arith))
            s in
        write-Ends _ _ w (
          refuse_if-Ends _ _ _ _ replaced
            λ sent. write-Ends _ _ _ (answer-Ends _ _ (mail-IsSound _ _ replaced))))

module _ (k : Crypto) (hashes : HashesAreSet k) where
  set_transaction_pin-IsSound :
      (m : Moment) (id : ℕ) (password pin : Text) (w : Accounts)
      → IsSound w
      → Ends IsSound (set_transaction_pin k m id password pin) w
  unfolding set_transaction_pin
  set_transaction_pin-IsSound m id password pin w s = refuse_if-Ends _ _ _ w s λ well.
      load-Ends _ _ w s λ u found. assert_password-Ends k u password _ w s (
        refuse_if-Ends _ _ _ w s λ unset. last_write-Ends _ w (
          user-IsSound _ (λ x. refl) id w u found
            (λ on. set_of_hash u _ (some m.now) (hashes m.salt pin)) s))

  change_transaction_pin-IsSound :
      (m : Moment) (id : ℕ) (password current next : Text) (w : Accounts)
      → IsSound w
      → Ends IsSound (change_transaction_pin k m id password current next) w
  unfolding change_transaction_pin
  change_transaction_pin-IsSound m id password current next w s = refuse_if-Ends _ _ _ w s λ well.
      load-Ends _ _ w s λ u found. given-Ends _ _ _ w s λ hash is.
        assert_password-Ends k u password _ w s (
          refuse_if-Ends _ _ _ w s λ right. refuse_if-Ends _ _ _ w s λ new. last_write-Ends _ w (
            user-IsSound _ (λ x. refl) id w u found
              (λ on. set_of_hash u _ (some m.now) (hashes m.salt next)) s))

clear_transaction_pin-IsSound :
    (k : Crypto) (id : ℕ) (password : Text) (w : Accounts)
    → IsSound w
    → Ends IsSound (clear_transaction_pin k id password) w
unfolding clear_transaction_pin
clear_transaction_pin-IsSound k id password w s = load-Ends _ _ w s λ u found.
    assert_password-Ends k u password _ w s (
      branch-Ends _ _ _ w (λ unset. answer-Ends tt w s)
        (λ set.
          refuse_if-Ends _ _ _ w s
            λ off. last_write-Ends _ w (user-IsSound _ (λ x. refl) id w u found (λ on. cc) s)))

enable_two_factor-IsSound :
    (k : Crypto) (now id : ℕ) (password : Text) (w : Accounts)
    → IsSound w
    → Ends IsSound (enable_two_factor k now id password) w
unfolding enable_two_factor
enable_two_factor-IsSound k now id password w s = load-Ends _ _ w s λ u found.
    assert_password-Ends k u password _ w s (
      refuse_if-Ends _ _ _ w s λ set.
        branch-Ends _ _ _ w (λ on. answer-Ends tt w s)
          (λ off.
            last_write-Ends _ w (user-IsSound _ (λ x. refl) id w u found (λ on. negated _ set) s)))

disable_two_factor-IsSound :
    (k : Crypto) (now id : ℕ) (password otp : Text) (w : Accounts)
    → IsSound w
    → Ends IsSound (disable_two_factor k now id password otp) w
unfolding disable_two_factor
disable_two_factor-IsSound k now id password otp w s = load-Ends _ _ w s λ u found.
    assert_password-Ends k u password _ w s (
      branch-Ends _ _ _ w (λ off. answer-Ends tt w s)
        (λ on. step-Ends _ _ w (consume_otp-IsSound k now u.id otp _ w s) λ x passed s'.
          last_write-Ends _ _ (all_users-IsSound _ (λ x. refl) u.id _ (λ x on. cc) s')))

assert_transaction_auth-IsSound :
    (k : Crypto) (now id : ℕ) (p : Purpose) (pin otp : Option Text) (behalf : Bool) (w : Accounts)
    → IsSound w
    → Ends IsSound (assert_transaction_auth k now id p pin otp behalf) w
unfolding assert_transaction_auth check_pin
assert_transaction_auth-IsSound k now id p pin otp behalf w s = load-Ends _ _ w s λ u found.
    branch-Ends _ _ _ w (λ off. answer-Ends tt w s)
      (λ on.
        step-Ends _ _ w
          (branch-Ends _ _ _ w (λ b. answer-Ends tt w s)
            (λ b.
              given-Ends _ _ _ w s
                λ hash is. given-Ends _ _ _ w s λ entered given_. last_refuse_if-Ends _ _ w s))
          λ x passed s'. given-Ends _ _ _ _ s' λ code is. consume_otp-IsSound k now id code p _ s')

-- A request of the service, with its arguments.
pub data Request : Type 0 where
  first_pin : ℕ → Text → Text → Request
  change_pin : ℕ → Text → Text → Text → Request
  clear_pin : ℕ → Text → Request
  enable : ℕ → Text → Request
  disable : ℕ → Text → Text → Request
  send_code : ℕ → Purpose → Request
  consume : ℕ → Text → Purpose → Request
  authorize : ℕ → Purpose → Option Text → Option Text → Bool → Request

-- The tables after the request.
unfoldable pub serve : Crypto → Moment → Request → Accounts → Accounts
serve k m (Request.first_pin id password pin) w = (set_transaction_pin k m id password pin w).1
serve k m (Request.change_pin id password current next) w =
    (change_transaction_pin k m id password current next w).1
serve k m (Request.clear_pin id password) w = (clear_transaction_pin k id password w).1
serve k m (Request.enable id password) w = (enable_two_factor k m.now id password w).1
serve k m (Request.disable id password otp) w = (disable_two_factor k m.now id password otp w).1
serve k m (Request.send_code id p) w = (request_transaction_otp k m id p w).1
serve k m (Request.consume id code p) w = (consume_otp k m.now id code p w).1
serve k m (Request.authorize id p pin otp behalf) w =
    (assert_transaction_auth k m.now id p pin otp behalf w).1

serve-IsSound :
    (k : Crypto)
    → HashesAreSet k
    → (m : Moment) (r : Request) (w : Accounts) → IsSound w
    → IsSound (serve k m r w)
unfolding serve
serve-IsSound k hashes m (Request.first_pin id password pin) w s =
    (set_transaction_pin-IsSound k hashes m id password pin w s).ends
serve-IsSound k hashes m (Request.change_pin id password current next) w s =
    (change_transaction_pin-IsSound k hashes m id password current next w s).ends
serve-IsSound k hashes m (Request.clear_pin id password) w s =
    (clear_transaction_pin-IsSound k id password w s).ends
serve-IsSound k hashes m (Request.enable id password) w s =
    (enable_two_factor-IsSound k m.now id password w s).ends
serve-IsSound k hashes m (Request.disable id password otp) w s =
    (disable_two_factor-IsSound k m.now id password otp w s).ends
serve-IsSound k hashes m (Request.send_code id p) w s =
    (request_transaction_otp-IsSound k m id p w s).ends
serve-IsSound k hashes m (Request.consume id code p) w s =
    (consume_otp-IsSound k m.now id code p w s).ends
serve-IsSound k hashes m (Request.authorize id p pin otp behalf) w s =
    (assert_transaction_auth-IsSound k m.now id p pin otp behalf w s).ends

-- The tables after the requests, each with its moment, one after the other.
unfoldable pub serve_all : Crypto → List (Moment × Request) → Accounts → Accounts
serve_all k [] w = w
serve_all k (r ∷ rs) w = serve_all k rs (serve k r.0 r.1 w)

-- When the user ids are unique, two-factor authentication is on only with a PIN, and every code has at
-- most five wrong submissions and fewer than five while it is unused, then the same holds after any
-- requests, whatever their outcomes, provided that a hash is never empty.
pub serve_all-IsSound :
    (k : Crypto)
    → HashesAreSet k
    → (rs : List (Moment × Request)) (w : Accounts) → IsSound w
    → IsSound (serve_all k rs w)
unfolding serve_all
serve_all-IsSound k hashes [] w s = s
serve_all-IsSound k hashes (r ∷ rs) w s =
    serve_all-IsSound k hashes rs (serve k r.0 r.1 w) (serve-IsSound k hashes r.0 r.1 w s)
