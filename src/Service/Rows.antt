-- ===== src/Service/Rows.antt =====
-- The queries on a table that the services share: the first row that a test selects, whether there is
-- one, and a write to the rows that it selects.
use secure_store_backend.Prelude.{
  Bool, false, ◌||◌, Option, none, some, List, [], ◌∷◌, ◌++◌, if◌then◌else◌, inl, inr, Bool-cases,
}

unfoldable pub find_where : {A : Type 0} → (A → Bool) → List A → Option A
find_where test [] = none
find_where test (x ∷ xs) = if test x then some x else find_where test xs

unfoldable pub any_where : {A : Type 0} → (A → Bool) → List A → Bool
any_where test [] = false
any_where test (x ∷ xs) = test x || any_where test xs

unfoldable pub modify_where : {A : Type 0} → (A → Bool) → (A → A) → List A → List A
modify_where test f [] = []
modify_where test f (x ∷ xs) = (if test x then f x else x) ∷ modify_where test f xs

-- a property of every row
abbrev pub Each : {A : Type 0} → (A → Type 0) → List A → Type 0
Each P [] = Unit
Each P (x ∷ xs) = P x × Each P xs

module _ {A : Type 0} (P : A → Type 0) where
  pub modify_where-Each :
      (test : A → Bool) (f : A → A) (xs : List A)
      → ((x : A) → P x → P (f x))
      → Each P xs
      → Each P (modify_where test f xs)
  unfolding modify_where
  modify_where-Each test f [] h ps = tt
  modify_where-Each test f (x ∷ xs) h (p, ps) =
      let rest = modify_where-Each test f xs h ps in
      elim (Bool-cases (test x)) [ inl yes_ ↦ rw yes_ (h x p, rest) | inr no_ ↦ rw no_ (p, rest) ]

  pub append-Each : (x : A) (xs : List A) → P x → Each P xs → Each P (xs ++ x ∷ [])
  append-Each x [] h ps = (h, tt)
  append-Each x (y ∷ ys) h (p, ps) = (p, append-Each x ys h ps)
