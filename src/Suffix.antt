-- ===== src/Suffix.antt =====
-- The receipt numbers of children: `baseReceiptNumber`, `nextSuffix` and `existingChildSuffixes` of
-- src/inventory/inventory.tx.ts. A number is the list of its character codes. `localeCompare` is
-- used on capital letters only, where it is the order of the codes.
pub mod Value
pub mod Order
pub mod Fresh
use mathlib.Core.List.{reverse}
use secure_store_backend.Prelude.{
  ℕ, ◌+◌, Text, length, text_eq, Bool, true, false, ◌&&◌, not, Option, none, some, List, [], ◌∷◌,
  ◌++◌, ltb, leb, ◌==◌, if◌then◌else◌,
}
use secure_store_backend.Receipt.{Receipt}

abbrev pub is_upper : ℕ → Bool
is_upper c = leb b'A' c && leb c b'Z'

unfoldable pub all_upper : Text → Bool
all_upper [] = true
all_upper (c ∷ cs) = is_upper c && all_upper cs

-- the capital letters at the front, and the rest
unfoldable pub span_upper : Text → Text × Text
span_upper [] = ([], [])
span_upper (c ∷ cs) =
    let (letters, rest) = span_upper cs in if is_upper c then (c ∷ letters, rest) else ([], c ∷ cs)

-- the text before a dash and letters, read backwards
unfoldable pub before_dash : Text → Text → Text → Text
before_dash number [] rest = number
before_dash number (c ∷ cs) [] = number
before_dash number (c ∷ cs) (d ∷ rest) = if d == b'-' then reverse rest else number

-- `parentNumber.replace(/-[A-Z]+$/, '')`
unfoldable pub base_receipt_number : Text → Text
unfolding span_upper before_dash
base_receipt_number number =
    let (letters, rest) = span_upper (reverse number) in before_dash number letters rest

-- the order of equally long texts
unfoldable pub text_leb : Text → Text → Bool
text_leb [] t = true
text_leb (x ∷ xs) [] = false
text_leb (x ∷ xs) (y ∷ ys) = if x == y then text_leb xs ys else ltb x y

-- the comparison that `sort` is given: by length, then by `localeCompare`
unfoldable pub suffix_leb : Text → Text → Bool
unfolding text_leb
suffix_leb a b = if length a == length b then text_leb a b else ltb (length a) (length b)

unfoldable pub insert_sorted : Text → List Text → List Text
unfolding suffix_leb
insert_sorted a [] = a ∷ []
insert_sorted a (b ∷ bs) = if suffix_leb a b then a ∷ b ∷ bs else b ∷ insert_sorted a bs

unfoldable pub sort : List Text → List Text
unfolding insert_sorted
sort [] = []
sort (a ∷ rest) = insert_sorted a (sort rest)

-- `sorted[sorted.length - 1]`
unfoldable pub last_of : Text → List Text → Text
last_of d [] = d
last_of d (a ∷ rest) = last_of a rest

-- The loop from the last character down: a letter below Z goes up by one and ends the loop, a Z
-- becomes an A; past the first character an A is put in front. The text is read backwards.
unfoldable pub carry : Text → Text
carry [] = b'A' ∷ []
carry (c ∷ cs) = if c == b'Z' then b'A' ∷ carry cs else (c + 1) ∷ cs

-- the branches of `nextSuffix` on the last suffix
unfoldable pub successor : Text → Text
unfolding carry
successor (c ∷ []) = if c == b'Z' then b'A' ∷ b'A' ∷ [] else (c + 1) ∷ []
successor last = reverse (carry (reverse last))

-- `nextSuffix`
unfoldable pub next_suffix : List Text → Text
unfolding sort last_of successor
next_suffix [] = b'A' ∷ []
next_suffix (s ∷ existing) = successor (last_of [] (sort (s ∷ existing)))

-- what follows the prefix
unfoldable pub after_prefix : Text → Text → Option Text
after_prefix [] t = some t
after_prefix (p ∷ ps) [] = none
after_prefix (p ∷ ps) (c ∷ cs) = if p == c then after_prefix ps cs else none

-- `.filter((s) => /^[A-Z]+$/.test(s))` on one suffix
unfoldable pub letters_only : Option Text → List Text → List Text
unfolding all_upper
letters_only none rest = rest
letters_only (some []) rest = rest
letters_only (some (c ∷ cs)) rest = if all_upper (c ∷ cs) then (c ∷ cs) ∷ rest else rest

-- `existingChildSuffixes`
unfoldable pub existing_child_suffixes : Text → List Receipt → List Text
unfolding after_prefix letters_only
existing_child_suffixes base [] = []
existing_child_suffixes base (r ∷ rs) =
    letters_only (after_prefix (base ++ b'-' ∷ []) r.receipt_number)
      (existing_child_suffixes base rs)

-- the number of a child, as the template literals write it
abbrev pub child_number : Text → Text → Text
child_number base suffix = base ++ b'-' ∷ suffix
