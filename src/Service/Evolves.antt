-- ===== src/Service/Evolves.antt =====
-- How the rows of a table change: each by a path of allowed changes of its status, new rows only behind
-- the others.
use secure_store_backend.Prelude.{
  ℕ, ◌≡◌, refl, sym, ap, ◌∙◌, Bool, false, ◌&&◌, some, List, [], ◌∷◌, ◌++◌, ◌==◌, ==_iff, inl, inr,
  Bool-cases, arith,
}
use mathlib.Core.Path.{subst}
use secure_store_backend.Service.Rows.{Each, find_where, any_where, modify_where, append-Each}

-- a status is reached from another by allowed changes
pub data Reaches {S : Type 0} (Edge : S → S → Type 0) : S → S → Type 0 where
  stay : {s : S} → Reaches Edge s s
  change : {s t u : S} → Reaches Edge s t → Edge t u → Reaches Edge s u

pub Reaches-trans :
    {S : Type 0} {Edge : S → S → Type 0} {s t u : S}
    → Reaches Edge s t
    → Reaches Edge t u
    → Reaches Edge s u
Reaches-trans r Reaches.stay = r
Reaches-trans r (Reaches.change q e) = Reaches.change (Reaches-trans r q) e

-- What the rows of a table are: their ids and their statuses, the status of a new row, and the allowed
-- changes.
pub record Machine (R S : Type 0) : Type 1 where
  pub id_of : R → ℕ
  pub status_of : R → S
  pub initial : S
  pub Edge : S → S → Type 0

module _ {R S : Type 0} (M : Machine R S) where
  -- the row keeps its id, and its status moves by allowed changes
  abbrev pub Moves : R → R → Type 0
  Moves x y = (M.id_of x ≡ M.id_of y) × Reaches M.Edge (M.status_of x) (M.status_of y)

  -- a row that has come in
  abbrev pub Born : R → Type 0
  Born x = Reaches M.Edge M.initial (M.status_of x)

  -- the rows, place by place, and those that have come in behind them
  abbrev pub Evolved : List R → List R → Type 0
  Evolved [] ys = Each Born ys
  Evolved (x ∷ xs) [] = ⊥
  Evolved (x ∷ xs) (y ∷ ys) = Moves x y × Evolved xs ys

  abbrev pub UniqueRows : List R → Type 0
  UniqueRows [] = Unit
  UniqueRows (x ∷ xs) = Each (λ y. (M.id_of y == M.id_of x) ≡ false) xs × UniqueRows xs

  Moves-refl : (x : R) → Moves x x
  Moves-refl x = (refl, Reaches.stay)

  pub Evolved-refl : (xs : List R) → Evolved xs xs
  Evolved-refl [] = tt
  Evolved-refl (x ∷ xs) = (Moves-refl x, Evolved-refl xs)

  Born-moves : (xs ys : List R) → Each Born xs → Evolved xs ys → Each Born ys
  Born-moves [] ys b e = e
  Born-moves (x ∷ xs) [] b e = absurd e
  Born-moves (x ∷ xs) (y ∷ ys) (b, bs) (e, es) = (Reaches-trans b e.1, Born-moves xs ys bs es)

  pub Evolved-trans : (xs ys zs : List R) → Evolved xs ys → Evolved ys zs → Evolved xs zs
  Evolved-trans [] ys zs d e = Born-moves ys zs d e
  Evolved-trans (x ∷ xs) [] zs d e = absurd d
  Evolved-trans (x ∷ xs) (y ∷ ys) [] d e = absurd e
  Evolved-trans (x ∷ xs) (y ∷ ys) (z ∷ zs) (d, ds) (e, es) =
      ((d.0 ∙ e.0, Reaches-trans d.1 e.1), Evolved-trans xs ys zs ds es)

  pub Evolved-append : (xs : List R) (x : R) → M.status_of x ≡ M.initial → Evolved xs (xs ++ x ∷ [])
  Evolved-append [] x h = (subst (λ s. Reaches M.Edge M.initial s) (sym h) Reaches.stay, tt)
  Evolved-append (y ∷ ys) x h = (Moves-refl y, Evolved-append ys x h)

  -- Rows without the id are not written.
  untouched :
      (id : ℕ) (f : R → R) (xs : List R)
      → Each (λ y. (M.id_of y == id) ≡ false) xs
      → Evolved xs (modify_where (λ y. M.id_of y == id) f xs)
  unfolding modify_where
  untouched id f [] h = tt
  untouched id f (x ∷ xs) (h, hs) = rw h (Moves-refl x, untouched id f xs hs)

  none_found :
      (id : ℕ) (also : R → Bool) (xs : List R) {l : R}
      → Each (λ y. (M.id_of y == id) ≡ false) xs
      → find_where (λ y. M.id_of y == id && also y) xs ≡ some l
      → ⊥
  unfolding find_where
  none_found id also [] h e = cc
  none_found id also (x ∷ xs) (h, hs) e = none_found id also xs hs (rw h at e)

  -- The row that was found by its id moves, and the others stay.
  pub Evolved-found :
      (id : ℕ) (also : R → Bool) (f : R → R) (xs : List R) {l : R}
      → UniqueRows xs
      → find_where (λ y. M.id_of y == id && also y) xs ≡ some l
      → Moves l (f l)
      → Evolved xs (modify_where (λ y. M.id_of y == id) f xs)
  unfolding find_where modify_where
  Evolved-found id also f [] u e m = tt
  Evolved-found id also f (x ∷ xs) {l} (u, us) e m = elim (Bool-cases (M.id_of x == id)) [
    | inr other ↦ rw other (Moves-refl x, Evolved-found id also f xs us (rw other at e) m)
    | inl same ↦
        let fresh =
          subst (λ k. Each (λ y. (M.id_of y == k) ≡ false) xs) ((==_iff (M.id_of x) id).0 same) u in
        elim (Bool-cases (also x)) [
          | inl yes_ ↦
              let is : x ≡ l = ground (arith, e) in
              rw same (subst (λ y. Moves y (f y)) (sym is) m, untouched id f xs fresh)
          | inr no_ ↦ absurd (none_found id also xs fresh (rw (same, no_) at e))
        ]
  ]

  -- A write that moves whatever row it meets.
  pub Evolved-all :
      (test : R → Bool) (f : R → R) (xs : List R)
      → ((x : R) → Moves x (f x))
      → Evolved xs (modify_where test f xs)
  unfolding modify_where
  Evolved-all test f [] h = tt
  Evolved-all test f (x ∷ xs) h =
      let rest = Evolved-all test f xs h in
      elim (Bool-cases (test x)) [
        | inl yes_ ↦ rw yes_ (h x, rest)
        | inr no_ ↦ rw no_ (Moves-refl x, rest)
      ]

  modified_fresh :
      (k id : ℕ) (f : R → R) (xs : List R)
      → ((x : R) → M.id_of (f x) ≡ M.id_of x)
      → Each (λ y. (M.id_of y == k) ≡ false) xs
      → Each (λ y. (M.id_of y == k) ≡ false) (modify_where (λ y. M.id_of y == id) f xs)
  unfolding modify_where
  modified_fresh k id f [] h u = tt
  modified_fresh k id f (x ∷ xs) h (u, us) =
      let rest = modified_fresh k id f xs h us in
      elim (Bool-cases (M.id_of x == id)) [
        | inl same ↦ rw same (rw (h x) u, rest)
        | inr other ↦ rw other (u, rest)
      ]

  pub modified_unique :
      (id : ℕ) (f : R → R) (xs : List R)
      → ((x : R) → M.id_of (f x) ≡ M.id_of x)
      → UniqueRows xs
      → UniqueRows (modify_where (λ y. M.id_of y == id) f xs)
  unfolding modify_where
  modified_unique id f [] h u = tt
  modified_unique id f (x ∷ xs) h (u, us) =
      let rest = modified_unique id f xs h us in
      elim (Bool-cases (M.id_of x == id)) [
        | inl same ↦ rw same (rw (h x) (modified_fresh (M.id_of x) id f xs h u), rest)
        | inr other ↦ rw other (modified_fresh (M.id_of x) id f xs h u, rest)
      ]

  pub appended_unique :
      (x : R) (xs : List R)
      → any_where (λ y. M.id_of y == M.id_of x) xs ≡ false
      → UniqueRows xs
      → UniqueRows (xs ++ x ∷ [])
  unfolding any_where
  appended_unique x [] h u = (tt, tt)
  appended_unique x (y ∷ ys) h (u, us) =
      let here : (M.id_of x == M.id_of y) ≡ false = ground (arith, h) in
      let later : any_where (λ z. M.id_of z == M.id_of x) ys ≡ false = ground (arith, h) in
      (append-Each _ x ys here u, appended_unique x ys later us)

  found_id :
      (id : ℕ) (also : R → Bool) (xs : List R) {l : R}
      → find_where (λ y. M.id_of y == id && also y) xs ≡ some l
      → M.id_of l ≡ id
  unfolding find_where
  found_id id also [] e = cc
  found_id id also (x ∷ xs) {l} e = elim (Bool-cases (M.id_of x == id && also x)) [
    | inl yes_ ↦
        let is : x ≡ l = ground (arith, e) in
        let same : M.id_of x ≡ id = ground (arith, yes_) in cc (same, ap M.id_of is)
    | inr no_ ↦ found_id id also xs (rw no_ at e)
  ]

  -- The ids stay unique, and the rows have evolved.
  abbrev pub Later : List R → List R → Type 0
  Later xs now = UniqueRows now × Evolved xs now

  -- A row that was found is written, in a table that is still the same.
  pub Later-found :
      (id : ℕ) (also : R → Bool) (f : R → R) (start xs now : List R) {l : R} {s : S}
      → Later start xs
      → find_where (λ y. M.id_of y == id && also y) xs ≡ some l
      → M.status_of l ≡ s
      → ((x : R) → M.id_of (f x) ≡ M.id_of x)
      → M.Edge s (M.status_of (f l))
      → now ≡ xs
      → Later start (modify_where (λ y. M.id_of y == M.id_of l) f now)
  Later-found id also f start xs now {l} {s} h found is keeps edge same =
      let moves : Reaches M.Edge (M.status_of l) (M.status_of (f l)) =
        subst (λ t. Reaches M.Edge t (M.status_of (f l))) (sym is)
          (Reaches.change Reaches.stay edge) in
      subst (λ k. Later start (modify_where (λ y. M.id_of y == k) f now))
        (sym (found_id id also xs found))
        (subst (λ ys. Later start (modify_where (λ y. M.id_of y == id) f ys)) (sym same)
          (
            modified_unique id f xs keeps h.0,
            Evolved-trans start xs _ h.1
                (Evolved-found id also f xs h.0 found (sym (keeps l), moves)),
          ))

  pub Later-append :
      (x : R) (start xs : List R)
      → M.status_of x ≡ M.initial
      → any_where (λ y. M.id_of y == M.id_of x) xs ≡ false
      → Later start xs
      → Later start (xs ++ x ∷ [])
  Later-append x start xs new free h =
      (appended_unique x xs free h.0, Evolved-trans start xs _ h.1 (Evolved-append xs x new))
