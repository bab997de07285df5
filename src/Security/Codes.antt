-- ===== src/Security/Codes.antt =====
-- The codes that src/security/security.service.ts draws: `generateNumericCode`.
use secure_store_backend.Prelude.{
  ℕ, zero, suc, ◌+◌, ◌-◌, ◌*◌, ◌/◌, ◌%◌, ◌^◌, ◌≤◌, ◌<◌, ◌≡◌, refl, ap, ◌∙◌, Text, length, true, [],
  ◌∷◌, ◌++◌, ◌==◌, arith, ==_iff, inl, inr, Bool-cases,
}
use native.Mathlib.Nat.{pow-suc}
use secure_store_backend.Security.{
  all_digits, is_numeric, digits, text_of_number, zeros, pad_start, numeric_code,
}

-- The documented behaviour of `randomInt(0, max)`: a number below `max`.
abbrev pub IsRandomInt : (ℕ → ℕ) → Type 0
IsRandomInt random_int = (max : ℕ) → 0 < max → random_int max < max

pow_positive : (n : ℕ) → 0 < 10 ^ n
pow_positive zero = omega arith
pow_positive (suc n) = omega (arith, pow_positive n, pow-suc 10 n)

-- The number that a text of digits spells, read on from `n`.
unfoldable pub number_from : ℕ → Text → ℕ
number_from n [] = n
number_from n (c ∷ cs) = number_from (n * 10 + (c - b'0')) cs

digits_read :
    (fuel n : ℕ) (rest : Text) → n < fuel → number_from 0 (digits fuel n rest) ≡ number_from n rest
unfolding number_from digits
digits_read zero n rest h = absurd (omega arith)
digits_read (suc fuel) n rest h = elim (Bool-cases (n / 10 == 0)) [
  | inl last ↦
      let one : 0 * 10 + ((b'0' + n % 10) - b'0') ≡ n = ground (arith, last) in
      rw last (ap (λ m. number_from m rest) one)
  | inr more ↦
      let again : n / 10 * 10 + ((b'0' + n % 10) - b'0') ≡ n = omega arith in
      let fits : n / 10 < fuel = ground (arith, more) in
      rw more (
        digits_read fuel (n / 10) ((b'0' + n % 10) ∷ rest) fits
        ∙ ap (λ m. number_from m rest) again)
]

zeros_read : (k : ℕ) (t : Text) → number_from 0 (zeros k ++ t) ≡ number_from 0 t
unfolding number_from zeros
zeros_read zero t = refl
zeros_read (suc k) t = zeros_read k t

-- The number that was drawn is read back from its code, so different draws give different codes.
pub number_from-numeric_code :
    (len : ℕ) (random_int : ℕ → ℕ)
    → number_from 0 (numeric_code len random_int) ≡ random_int (10 ^ len)
unfolding number_from numeric_code pad_start text_of_number
number_from-numeric_code len random_int =
    let n = random_int (10 ^ len) in
    zeros_read (len - length (digits (suc n) n [])) (digits (suc n) n [])
    ∙ digits_read (suc n) n [] (omega arith)

digits_are_digits :
    (fuel n : ℕ) (rest : Text) → all_digits rest ≡ true → all_digits (digits fuel n rest) ≡ true
unfolding all_digits digits
digits_are_digits zero n rest h = h
digits_are_digits (suc fuel) n rest h =
    let longer : all_digits ((b'0' + n % 10) ∷ rest) ≡ true = ground (arith, h) in
    elim (Bool-cases (n / 10 == 0)) [
      | inl last ↦ rw last longer
      | inr more ↦ rw more (digits_are_digits fuel (n / 10) ((b'0' + n % 10) ∷ rest) longer)
    ]

digits_fit :
    (fuel n len : ℕ) (rest : Text)
    → n < 10 ^ suc len
    → length (digits fuel n rest) ≤ suc len + length rest
unfolding digits
digits_fit zero n len rest h = omega arith
digits_fit (suc fuel) n zero rest h =
    let last : (n / 10 == 0) ≡ true = ground (arith, h, pow-suc 10 0) in rw last (omega arith)
digits_fit (suc fuel) n (suc len) rest h = elim (Bool-cases (n / 10 == 0)) [
  | inl last ↦ rw last (omega arith)
  | inr more ↦
      let small : n / 10 < 10 ^ suc len = omega (arith, h, pow-suc 10 (suc len)) in
      rw more (omega (arith, digits_fit fuel (n / 10) len ((b'0' + n % 10) ∷ rest) small))
]

padded :
    (k : ℕ) (t : Text)
    → all_digits t ≡ true
    → (all_digits (zeros k ++ t) ≡ true) × (length (zeros k ++ t) ≡ k + length t)
unfolding all_digits zeros
padded zero t h = (h, omega arith)
padded (suc k) t h = ((padded k t h).0, omega (arith, (padded k t h).1))

-- When the random numbers stay below the maximum that is asked for, a code of at least one character has
-- as many characters as asked for, all of them digits.
pub numeric_code-is_numeric :
    (len : ℕ) (random_int : ℕ → ℕ)
    → 0 < len
    → IsRandomInt random_int
    → is_numeric len (numeric_code len random_int) ≡ true
unfolding is_numeric numeric_code pad_start text_of_number
numeric_code-is_numeric zero random_int positive range = absurd (omega arith)
numeric_code-is_numeric (suc len) random_int positive range =
    let n = random_int (10 ^ suc len) in
    let t = digits (suc n) n [] in
    let fit : length t ≤ suc len =
      omega (arith, digits_fit (suc n) n len [] (range (10 ^ suc len) (pow_positive (suc len)))) in
    let both = padded (suc len - length t) t (digits_are_digits (suc n) n [] refl) in
    let whole : suc len - length t + length t ≡ suc len = omega (arith, fit) in
    rw (both.0, both.1, whole) ((==_iff (suc len) (suc len)).1 refl)
