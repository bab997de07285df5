-- ===== src/Suffix/Value.antt =====
-- A suffix is a number in the numeration with the digits A = 1 to Z = 26: the order that
-- `nextSuffix` sorts by is the order of these numbers, and the successor is one more.
use mathlib.Core.List.{reverse, reverse-append, reverse-reverse}
use secure_store_backend.Prelude.{
  ℕ, ◌+◌, ◌-◌, ◌*◌, ◌≤◌, ◌<◌, ◌≡◌, refl, ◌∙◌, ap, Text, length, true, false, [], ◌∷◌, ◌++◌, arith,
  inl, inr, Bool-cases, ◌==◌,
}
use secure_store_backend.Suffix.{all_upper, text_leb, suffix_leb, carry, successor, is_upper}

-- The number that the letters spell after a start.
unfoldable pub value_from : ℕ → Text → ℕ
value_from acc [] = acc
value_from acc (c ∷ cs) = value_from (acc * 26 + (c - 64)) cs

abbrev pub value : Text → ℕ
value = value_from 0

value_from-lt :
    (m n : ℕ) (a b : Text)
    → all_upper a ≡ true
    → all_upper b ≡ true
    → length a ≡ length b
    → m < n
    → value_from m a < value_from n b
unfolding value_from all_upper
value_from-lt m n [] [] ua ub e h = h
value_from-lt m n [] (d ∷ b) ua ub e h = absurd (omega arith)
value_from-lt m n (c ∷ a) [] ua ub e h = absurd (omega arith)
value_from-lt m n (c ∷ a) (d ∷ b) ua ub e h =
    value_from-lt (m * 26 + (c - 64)) (n * 26 + (d - 64)) a b (ground arith) (ground arith)
      (omega arith) (ground arith)

-- A shorter text spells a smaller number.
value_from-shorter :
    (m n : ℕ) (a b : Text)
    → all_upper a ≡ true
    → all_upper b ≡ true
    → length a < length b
    → m ≤ n
    → value_from m a < value_from n b
unfolding value_from all_upper
value_from-shorter m n a [] ua ub e h = absurd (omega arith)
value_from-shorter m n a (d ∷ b) ua ub e h = elim (Bool-cases (length a == length b)) [
  | inl same ↦
      value_from-lt m (n * 26 + (d - 64)) a b ua (ground arith) (ground arith) (ground arith)
  | inr less ↦
      value_from-shorter m (n * 26 + (d - 64)) a b ua (ground arith) (ground arith) (ground arith)
]

value_from-text_leb :
    (m : ℕ) (a b : Text)
    → all_upper a ≡ true
    → all_upper b ≡ true
    → length a ≡ length b
    → text_leb a b ≡ true
    → value_from m a ≤ value_from m b
unfolding value_from all_upper text_leb
value_from-text_leb m [] [] ua ub e h = omega arith
value_from-text_leb m [] (d ∷ b) ua ub e h = absurd (omega arith)
value_from-text_leb m (c ∷ a) [] ua ub e h = cc
value_from-text_leb m (c ∷ a) (d ∷ b) ua ub e h = ground (
  arith,
  value_from-text_leb (m * 26 + (c - 64)) a b,
  value_from-lt (m * 26 + (c - 64)) (m * 26 + (d - 64)) a b,
)

text_leb_total : (a b : Text) → text_leb a b ≡ false → text_leb b a ≡ true
unfolding text_leb
text_leb_total [] b h = cc
text_leb_total (c ∷ a) [] h = refl
text_leb_total (c ∷ a) (d ∷ b) h = ground (arith, text_leb_total a b)

pub suffix_leb_total : (a b : Text) → suffix_leb a b ≡ false → suffix_leb b a ≡ true
unfolding suffix_leb
suffix_leb_total a b h = ground (arith, text_leb_total a b)

-- The sorting order is the order of the numbers.
pub value-suffix_leb :
    (a b : Text)
    → all_upper a ≡ true
    → all_upper b ≡ true
    → suffix_leb a b ≡ true
    → value a ≤ value b
unfolding suffix_leb
value-suffix_leb a b ua ub h =
    ground (arith, value_from-text_leb 0 a b ua ub, value_from-shorter 0 0 a b ua ub)

value_from-snoc :
    (m : ℕ) (a : Text) (c : ℕ) → value_from m (a ++ c ∷ []) ≡ value_from m a * 26 + (c - 64)
unfolding value_from
value_from-snoc m [] c = refl
value_from-snoc m (d ∷ a) c = value_from-snoc (m * 26 + (d - 64)) a c

all_upper-snoc : (a : Text) (c : ℕ) → all_upper (a ++ c ∷ []) ≡ all_upper (c ∷ a)
unfolding all_upper
all_upper-snoc [] c = refl
all_upper-snoc (d ∷ a) c = ground (arith, all_upper-snoc a c)

all_upper-cons :
    (c : ℕ) (a b : Text) → all_upper a ≡ all_upper b → all_upper (c ∷ a) ≡ all_upper (c ∷ b)
unfolding all_upper
all_upper-cons c a b h = rw h

pub all_upper-reverse : (a : Text) → all_upper (reverse a) ≡ all_upper a
all_upper-reverse [] = refl
all_upper-reverse (c ∷ a) =
    ap all_upper (reverse-append (c ∷ []) a)
    ∙ all_upper-snoc (reverse a) c
    ∙ all_upper-cons c (reverse a) a (all_upper-reverse a)

value-reverse : (c : ℕ) (a : Text) → value (reverse (c ∷ a)) ≡ value (reverse a) * 26 + (c - 64)
value-reverse c a = ap value (reverse-append (c ∷ []) a) ∙ value_from-snoc 0 (reverse a) c

value-carry : (a : Text) → all_upper a ≡ true → value (reverse (carry a)) ≡ value (reverse a) + 1
unfolding carry all_upper
value-carry [] u = unfold value_from in refl
value-carry (c ∷ a) u = elim (Bool-cases (c == b'Z')) [
  | inl last ↦ rw last (
      omega (
        arith,
        value-reverse b'A' (carry a),
        value-reverse c a,
        value-carry a (ground arith),
        is_last c last,
      ))
  | inr other ↦
      rw other
        (omega (arith, value-reverse (c + 1) a, value-reverse c a, is_letter c (ground arith)))
]
  where
    is_last : (c : ℕ) → (c == b'Z') ≡ true → c ≡ 90
    is_last c h = ground arith

    is_letter : (c : ℕ) → is_upper c ≡ true → 64 < c
    is_letter c h = ground arith

all_upper-carry : (a : Text) → all_upper a ≡ true → all_upper (carry a) ≡ true
unfolding carry all_upper
all_upper-carry [] u = refl
all_upper-carry (c ∷ a) u = ground (arith, all_upper-carry a)

-- `successor` is the carry loop on every text: its branch for one letter agrees with the loop.
successor_lem : (a : Text) → (c : ℕ) → successor (c ∷ a) ≡ reverse (carry (reverse (c ∷ a)))
unfolding successor carry
successor_lem [] c = ground arith
successor_lem (d ∷ a) c = refl

-- A text of capital letters, not empty, is read as a number in the 26 letters A, B, …, Z, AA, AB, …: the
-- successor of the text spells that number plus one.
pub value-successor :
    (c : ℕ) (a : Text) → all_upper (c ∷ a) ≡ true → value (successor (c ∷ a)) ≡ value (c ∷ a) + 1
value-successor c a u =
    ap value (successor_lem a c)
    ∙ value-carry (reverse (c ∷ a)) (all_upper-reverse (c ∷ a) ∙ u)
    ∙ ap (λ t. value t + 1) (reverse-reverse (c ∷ a))

pub all_upper-successor :
    (c : ℕ) (a : Text) → all_upper (c ∷ a) ≡ true → all_upper (successor (c ∷ a)) ≡ true
all_upper-successor c a u =
    ap all_upper (successor_lem a c)
    ∙ all_upper-reverse (carry (reverse (c ∷ a)))
    ∙ all_upper-carry (reverse (c ∷ a)) (all_upper-reverse (c ∷ a) ∙ u)
