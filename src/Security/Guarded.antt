-- ===== src/Security/Guarded.antt =====
-- What a transaction that passes `assertTransactionAuth` of src/security/security.service.ts has shown.
use secure_store_backend.Prelude.{
  negated, ℕ, ◌≡◌, refl, ap, Text, text_eq, Bool, true, false, not, Option, some, inl, inr,
  Bool-cases, ltb,
}
use mathlib.Core.Path.{subst}
use secure_store_backend.Service.{
  done, failed, Action, answer, ask, given, refuse_if, write, ◌>>=◌, refuse,
}
use secure_store_backend.Service.Grants.{
  Grants, ask-Grants, given-Grants, refuse_if-Grants, branch-Grants, answer-Grants, weaken-Grants,
  chain-Grants, last_refuse_if-Grants, last_write-Grants, never-Grants,
}
use secure_store_backend.Security.{
  User, TransactionOtp, Accounts, Crypto, Denial, Purpose, set_pin, find_user, load_user,
  otp_exhausted,
}
use secure_store_backend.Security.Otp.{consume_otp, newest_unused, burn, wrong_code, is_burned}
use secure_store_backend.Security.Gate.{assert_transaction_auth, check_pin, present}

-- The client's PIN was entered, and is the one that is set.
pub record IsPinGiven (k : Crypto) (u : User) (pin : Option Text) : Type 0 where
  pub hash : Text
  pub entered : Text
  pub is_set : set_pin u ≡ some hash
  pub is_entered : present pin ≡ some entered
  pub compares : k.compare entered hash ≡ true

-- The code that was entered is that of the newest unused row of the user and the purpose, in time, and the
-- row is used afterwards.
pub record IsCodeSpent (k : Crypto) (now id : ℕ) (p : Purpose) (code : Text) (w after : Accounts)
    : Type 0 where
  pub row : TransactionOtp
  pub newest : newest_unused id p w.otps ≡ some row
  pub in_time : ltb row.expires_at now ≡ false
  pub matches : text_eq (k.sha256 code) row.code_hash ≡ true
  pub spent : after ≡ burn row.id now w

wrong_code_fails :
    (now : ℕ) (o : TransactionOtp) (w : Accounts) (x : Unit {0}) (after : Accounts)
    → wrong_code now o w ≡ (done x, after)
    → ⊥
unfolding wrong_code write refuse_if refuse
wrong_code_fails now o w x after h = elim (Bool-cases (is_burned o)) [
  | inl burned ↦
      let e : failed otp_exhausted ≡ done x = ap (λ r. r.0) (rw (burned, refuse_if) at h) in cc
  | inr left ↦ let e = ap (λ r. r.0) (rw (left, refuse_if) at h) in cc
]

pub consume_otp-Grants :
    (k : Crypto) (now id : ℕ) (code : Text) (p : Purpose) (w : Accounts)
    → Grants (λ x after. IsCodeSpent k now id p code w after) (consume_otp k now id code p) w
unfolding consume_otp
consume_otp-Grants k now id code p w = refuse_if-Grants _ _ _ w λ well. ask-Grants _ _ w (
    given-Grants _ _ _ w λ o found. refuse_if-Grants _ _ _ w λ early.
      branch-Grants _ _ _ w
        (λ match.
          last_write-Grants _ w
            (record { row = o; newest = found; in_time = early; matches = match; spent = refl }))
        (λ other. never-Grants (λ x after e. wrong_code_fails now o w x after e)))

check_pin-Grants :
    (k : Crypto) (u : User) (pin : Option Text) (w : Accounts)
    → Grants (λ x after. IsPinGiven k u pin × (after ≡ w)) (check_pin k u pin) w
unfolding check_pin
check_pin-Grants k u pin w = given-Grants _ _ _ w λ hash is. given-Grants _ _ _ w λ entered there.
    last_refuse_if-Grants _ _ w λ right. (
      record {
        hash = hash;
        entered = entered;
        is_set = is;
        is_entered = there;
        compares = negated _ right;
      },
      refl,
    )

load-Grants :
    {A : Type 0} {Q : A → Accounts → Type 0} (id : ℕ) (f : User → Action Accounts Denial A)
    (w : Accounts) (u : User)
    → find_user id w.users ≡ some u
    → Grants Q (f u) w
    → Grants Q (load_user id >>= f) w
unfolding load_user ask given
load-Grants id f w u found h = record {
  granted = λ a after e. h.granted a after (rw (found, given) at e);
}

-- When a user who has two-factor authentication on passes the gate, then a code was entered, it is that of
-- the newest unused row for the user and the purpose, unexpired and not used before, the row is marked as
-- used and no table is changed otherwise; and the client's own PIN was entered, unless a manager acts on
-- the client's behalf.
pub assert_transaction_auth_shows :
    (k : Crypto) (now id : ℕ) (p : Purpose) (pin otp : Option Text) (on_behalf : Bool)
    (w after : Accounts) (u : User)
    → find_user id w.users ≡ some u
    → u.two_factor_enabled ≡ true
    → assert_transaction_auth k now id p pin otp on_behalf w ≡ (done tt, after)
    → ((code : Text) × (present otp ≡ some code) × IsCodeSpent k now id p code w after)
      × (on_behalf ≡ false → IsPinGiven k u pin)
unfolding assert_transaction_auth
assert_transaction_auth_shows k now id p pin otp behalf w after u found on passed =
    let pin_step =
      branch-Grants {Q = λ x w'. (behalf ≡ false → IsPinGiven k u pin) × (w' ≡ w)} behalf
        (answer tt) (check_pin k u pin) w
        (λ b. answer-Grants tt w ((λ f. absurd (both_bools behalf b f)), refl))
        (λ b. weaken-Grants _ w (λ x w' h. ((λ f. h.0), h.1)) (check_pin-Grants k u pin w)) in
    (load-Grants
        {Q = λ x w'.
          ((code : Text) × (present otp ≡ some code) × IsCodeSpent k now id p code w w')
          × (behalf ≡ false → IsPinGiven k u pin)}
        id _ w u found
        (branch-Grants _ _ _ w (λ off. absurd (both_bools u.two_factor_enabled on (not_true _ off)))
          (λ needed. chain-Grants _ _ w pin_step λ x w' h. given-Grants _ _ _ w' λ code there.
            weaken-Grants _ w'
              (λ y after_ spent.
                ((code, there, subst (λ v. IsCodeSpent k now id p code v after_) h.1 spent), h.0))
              (consume_otp-Grants k now id code p w')))).granted
      tt after passed
  where
    both_bools : (b : Bool) → b ≡ true → b ≡ false → ⊥
    both_bools b t f = cc

    not_true : (b : Bool) → not b ≡ true → b ≡ false
    not_true true h = cc
    not_true false h = refl
