-- ===== src/Security/Tables.antt =====
-- The well-formedness of the accounts and codes of src/security/security.service.ts, and the writes that
-- keep it.
use secure_store_backend.Prelude.{
  ℕ, ◌+◌, ◌≤◌, ◌<◌, ◌≡◌, refl, sym, ◌∙◌, Text, true, false, not, ◌&&◌, Option, none, some, List, [],
  ◌∷◌, ◌++◌, arith, inl, inr, Bool-cases, Option-cases, ◌==◌, ==_iff, if◌then◌else◌,
}
use mathlib.Core.Path.{subst}
use secure_store_backend.Service.Rows.{Each}
use secure_store_backend.Security.{
  User, TransactionOtp, TransactionOtpEmail, Accounts, Crypto, Purpose, set_pin, is_some, find_user,
  modify_user, modify_otp, is_empty, otp_max_attempts,
}
use secure_store_backend.Security.Otp.{newest_unused, void_live, is_for, is_live, missed, is_burned}

-- bcrypt's hashes are not empty.
abbrev pub HashesAreSet : Crypto → Type 0
HashesAreSet k = (salt t : Text) → is_empty (k.hash salt t) ≡ false

-- A hash that is not empty counts as set.
pub set_of_hash :
    (u : User) (h : Text) (at : Option ℕ)
    → is_empty h ≡ false
    → is_some
        (set_pin (record u { transaction_pin_hash = some h; transaction_pin_updated_at = at }))
      ≡ true
set_of_hash u [] at e = cc
set_of_hash u (c ∷ cs) at e = refl

-- Two-factor authentication is on only with a PIN.
abbrev pub IsArmed : User → Type 0
IsArmed u = u.two_factor_enabled ≡ true → is_some (set_pin u) ≡ true

-- A code has at most five wrong submissions, and fewer than five while it is unused.
abbrev pub IsBounded : TransactionOtp → Type 0
IsBounded o =
    (o.attempts ≤ otp_max_attempts) × (is_some o.used_at ≡ false → o.attempts < otp_max_attempts)

abbrev pub UniqueUsers : List User → Type 0
UniqueUsers [] = Unit
UniqueUsers (u ∷ us) = Each (λ v. (v.id == u.id) ≡ false) us × UniqueUsers us

pub record IsSound (w : Accounts) : Type 0 where
  pub unique : UniqueUsers w.users
  pub armed : Each IsArmed w.users
  pub bounded : Each IsBounded w.otps

-- The row that is found is one of the rows, is for the user and the purpose, and is unused.
pub newest_found :
    (P : TransactionOtp → Type 0) (user_id : ℕ) (p : Purpose) (os : List TransactionOtp)
    {o : TransactionOtp}
    → Each P os
    → newest_unused user_id p os ≡ some o
    → P o × (is_for user_id p o ≡ true) × (is_some o.used_at ≡ false)
unfolding newest_unused
newest_found P id p [] h e = cc
newest_found P id p (x ∷ xs) {o} h e = elim (Option-cases (newest_unused id p xs)) [
  | inl missing ↦
      let found : (if is_for id p x && not (is_some x.used_at) then some x else none) ≡ some o =
        rw missing at e in
      elim (Bool-cases (is_for id p x)) [
        | inl for_it ↦ elim (Bool-cases (is_some x.used_at)) [
          | inl used ↦ absurd (no_row (rw (for_it, used) at found))
          | inr fresh ↦
              let same : some x ≡ some o = rw (for_it, fresh) at found in
              subst (λ r. P r × (is_for id p r ≡ true) × (is_some r.used_at ≡ false))
                (some_inj same) (h.0, for_it, fresh)
        ]
        | inr other ↦ absurd (no_row (rw other at found))
      ]
  | inr (later, found) ↦ newest_found P id p xs h.1 (found ∙ (rw found at e))
]
  where
    no_row : {y : TransactionOtp} → none ≡ some y → ⊥
    no_row e = cc

    some_inj : {y z : TransactionOtp} → some y ≡ some z → y ≡ z
    some_inj e = cc

-- A change of the rows with an id.
pub modify_otp-Each :
    (P : TransactionOtp → Type 0) (id : ℕ) (f : TransactionOtp → TransactionOtp)
    (os : List TransactionOtp)
    → ((o : TransactionOtp) → P o → P (f o))
    → Each P os
    → Each P (modify_otp id f os)
unfolding modify_otp
modify_otp-Each P id f [] h e = tt
modify_otp-Each P id f (o ∷ os) h (p, ps) = elim (Bool-cases (o.id == id)) [
  | inl same ↦ rw same (h o p, modify_otp-Each P id f os h ps)
  | inr other ↦ rw other (p, modify_otp-Each P id f os h ps)
]

pub void_live-IsBounded :
    (now user_id : ℕ) (p : Purpose) (os : List TransactionOtp)
    → Each IsBounded os
    → Each IsBounded (void_live now user_id p os)
unfolding void_live
void_live-IsBounded now id p [] h = tt
void_live-IsBounded now id p (o ∷ os) (b, bs) = elim (Bool-cases (is_live now id p o)) [
  | inl live ↦ rw live ((b.0, λ e. cc), void_live-IsBounded now id p os bs)
  | inr other ↦ rw other (b, void_live-IsBounded now id p os bs)
]

pub append-Each :
    {A : Type 0} (P : A → Type 0) (xs : List A) (y : A) → Each P xs → P y → Each P (xs ++ y ∷ [])
append-Each P [] y h p = (p, tt)
append-Each P (x ∷ xs) y h p = (h.0, append-Each P xs y h.1 p)

pub find_user_id : (id : ℕ) (us : List User) {u : User} → find_user id us ≡ some u → u.id ≡ id
unfolding find_user
find_user_id id [] h = cc
find_user_id id (x ∷ us) {u} h = ground (arith, find_user_id id us {u = u})

modify_user_absent :
    (id : ℕ) (f : User → User) (us : List User)
    → Each (λ v. (v.id == id) ≡ false) us
    → modify_user id f us ≡ us
unfolding modify_user
modify_user_absent id f [] h = refl
modify_user_absent id f (x ∷ us) h = rw (h.0, modify_user_absent id f us h.1)

module _ (f : User → User) (same_id : (u : User) → (f u).id ≡ u.id) where
  absent-modify_user :
      (id k : ℕ) (us : List User)
      → Each (λ v. (v.id == k) ≡ false) us
      → Each (λ v. (v.id == k) ≡ false) (modify_user id f us)
  unfolding modify_user
  absent-modify_user id k [] h = tt
  absent-modify_user id k (x ∷ us) h = elim (Bool-cases (x.id == id)) [
    | inl here ↦ rw here (rw (same_id x) h.0, absent-modify_user id k us h.1)
    | inr there ↦ rw there (h.0, absent-modify_user id k us h.1)
  ]

  modify_user-UniqueUsers :
      (id : ℕ) (us : List User) → UniqueUsers us → UniqueUsers (modify_user id f us)
  unfolding modify_user
  modify_user-UniqueUsers id [] h = tt
  modify_user-UniqueUsers id (x ∷ us) h = elim (Bool-cases (x.id == id)) [
    | inl here ↦
        rw here
          (rw (same_id x) (absent-modify_user id x.id us h.0), modify_user-UniqueUsers id us h.1)
    | inr there ↦ rw there (absent-modify_user id x.id us h.0, modify_user-UniqueUsers id us h.1)
  ]

  modify_user-IsArmed :
      (id : ℕ) (us : List User) {u : User}
      → UniqueUsers us
      → Each IsArmed us
      → find_user id us ≡ some u
      → IsArmed (f u)
      → Each IsArmed (modify_user id f us)
  unfolding modify_user find_user
  modify_user-IsArmed id [] q h e armed = tt
  modify_user-IsArmed id (x ∷ us) {u} q h e armed = elim (Bool-cases (x.id == id)) [
    | inl here ↦
        let first : some x ≡ some u = rw here at e in
        let is : x ≡ u = cc first in
        let away : Each (λ v. (v.id == id) ≡ false) us =
          subst (λ k. Each (λ v. (v.id == k) ≡ false) us) ((==_iff x.id id).0 here) q.0 in
        rw (here, modify_user_absent id f us away) (subst (λ y. IsArmed (f y)) (sym is) armed, h.1)
    | inr there ↦
        let rest : find_user id us ≡ some u = rw there at e in
        rw there (h.0, modify_user-IsArmed id us {u = u} q.1 h.1 rest armed)
  ]

  modify_user-IsArmed_all :
      (id : ℕ) (us : List User)
      → ((u : User) → IsArmed (f u))
      → Each IsArmed us
      → Each IsArmed (modify_user id f us)
  unfolding modify_user
  modify_user-IsArmed_all id [] armed h = tt
  modify_user-IsArmed_all id (x ∷ us) armed h = elim (Bool-cases (x.id == id)) [
    | inl here ↦ rw here (armed x, modify_user-IsArmed_all id us armed h.1)
    | inr there ↦ rw there (h.0, modify_user-IsArmed_all id us armed h.1)
  ]

  -- A write that leaves every user armed whom it changes.
  pub all_users-IsSound :
      (id : ℕ) (w : Accounts)
      → ((u : User) → IsArmed (f u))
      → IsSound w
      → IsSound (record w { users = modify_user id f w.users })
  all_users-IsSound id w armed s = record {
    unique = modify_user-UniqueUsers id w.users s.unique;
    armed = modify_user-IsArmed_all id w.users armed s.armed;
    bounded = s.bounded;
  }

  -- A write of one user's columns that leaves that user armed.
  pub user-IsSound :
      (id : ℕ) (w : Accounts) (u : User)
      → find_user id w.users ≡ some u
      → IsArmed (f u)
      → IsSound w
      → IsSound (record w { users = modify_user u.id f w.users })
  user-IsSound id w u e armed s = record {
    unique = modify_user-UniqueUsers u.id w.users s.unique;
    armed =
        modify_user-IsArmed u.id w.users {u = u} s.unique s.armed
          (subst (λ k. find_user k w.users ≡ some u) (sym (find_user_id id w.users e)) e) armed;
    bounded = s.bounded;
  }

pub otps-IsSound :
    (w : Accounts) (os : List TransactionOtp)
    → Each IsBounded os
    → IsSound w
    → IsSound (record w { otps = os })
otps-IsSound w os b s = record { unique = s.unique; armed = s.armed; bounded = b }

pub mail-IsSound :
    (w : Accounts) (mails : List TransactionOtpEmail)
    → IsSound w
    → IsSound (record w { outbox = mails })
mail-IsSound w mails s = record { unique = s.unique; armed = s.armed; bounded = s.bounded }

pub missed-IsBounded :
    (o x : TransactionOtp) (now : ℕ)
    → o.attempts < otp_max_attempts
    → IsBounded (missed (o.attempts + 1) (is_burned o) now x)
missed-IsBounded o x now under = elim (Bool-cases (is_burned o)) [
  | inl burned ↦ rw burned (omega (arith, under), λ e. cc)
  | inr left ↦ rw left (omega (arith, under), λ e. ground (arith, left))
]
