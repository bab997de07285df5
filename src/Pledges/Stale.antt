-- ===== src/Pledges/Stale.antt =====
-- What expireStalePledges of src/pledges/pledges.service.ts leaves of the pledges.
use secure_store_backend.Prelude.{
  ℕ, codes, ◌≡◌, refl, sym, true, false, ◌&&◌, none, some, List, [], ◌∷◌, leb, ◌==◌, arith, inl,
  inr, Bool-cases,
}
use secure_store_backend.Ledger.Call.{Call}
use secure_store_backend.Service.{write}
use secure_store_backend.Service.Ends.{Ends, last_write-Ends}
use secure_store_backend.Service.Rows.{Each, find_where, modify_where}
use secure_store_backend.Service.Evolves.{UniqueRows}
use secure_store_backend.Pledges.{World, Pledge, PledgeStatus, Lookups, is_pending, update_pledge}
use secure_store_backend.Pledges.Expiry.{
  expire_one, expire_each, expire_stale_pledges, stale_pledges,
}
use secure_store_backend.Pledges.Steps.{
  PledgeEdge, pledges_machine, is_pending_iff, release_held-Ends, OnPledges, same_pledges, decided,
}
use mathlib.Core.Path.{subst}

-- The row of a query is the pending row of its id in the table.
abbrev IsStale : List Pledge → Pledge → Type 0
IsStale ps p =
    (find_where (λ x. x.id == p.id && true) ps ≡ some p) × (p.status ≡ PledgeStatus.pending)

Each-map :
    (P Q : Pledge → Type 0) (xs : List Pledge) → ((x : Pledge) → P x → Q x) → Each P xs → Each Q xs
Each-map P Q [] f h = tt
Each-map P Q (x ∷ xs) f (h, hs) = (f x h, Each-map P Q xs f hs)

Each-both :
    (P Q : Pledge → Type 0) (xs : List Pledge) → Each P xs → Each Q xs → Each (λ x. P x × Q x) xs
Each-both P Q [] h k = tt
Each-both P Q (x ∷ xs) (h, hs) (k, ks) = ((h, k), Each-both P Q xs hs ks)

stale_pledges-Each :
    (P : Pledge → Type 0) (now : ℕ) (xs : List Pledge) → Each P xs → Each P (stale_pledges now xs)
unfolding stale_pledges
stale_pledges-Each P now [] h = tt
stale_pledges-Each P now (x ∷ xs) (h, hs) =
    let rest = stale_pledges-Each P now xs hs in
    elim (Bool-cases (is_pending x.status && leb x.expires_at now)) [
      | inl yes_ ↦ rw yes_ (h, rest)
      | inr no_ ↦ rw no_ rest
    ]

find_behind :
    (p x : Pledge) (ps : List Pledge) → (x.id == p.id) ≡ false → IsStale ps x → IsStale (p ∷ ps) x
unfolding find_where
find_behind p x ps other h = (ground (arith, other, h.0), h.1)

find_head : (p : Pledge) (ps : List Pledge) → is_pending p.status ≡ true → IsStale (p ∷ ps) p
unfolding find_where
find_head p ps h = (ground arith, is_pending_iff p.status h)

-- What the query for stale pledges selects.
stale_pledges-IsStale :
    (now : ℕ) (ps : List Pledge)
    → UniqueRows pledges_machine ps
    → Each (IsStale ps) (stale_pledges now ps) × UniqueRows pledges_machine (stale_pledges now ps)
unfolding stale_pledges
stale_pledges-IsStale now [] u = (tt, tt)
stale_pledges-IsStale now (p ∷ ps) (fresh, u) =
    let rest = stale_pledges-IsStale now ps u in
    let apart = stale_pledges-Each (λ x. (x.id == p.id) ≡ false) now ps fresh in
    let behind =
      Each-map (λ x. ((x.id == p.id) ≡ false) × IsStale ps x) (IsStale (p ∷ ps))
        (stale_pledges now ps) (λ x h. find_behind p x ps h.0 h.1)
        (Each-both _ _ (stale_pledges now ps) apart rest.0) in
    elim (Bool-cases (is_pending p.status && leb p.expires_at now)) [
      | inl yes_ ↦
          let pending : is_pending p.status ≡ true = ground (arith, yes_) in
          rw yes_ ((find_head p ps pending, behind), (apart, rest.1))
      | inr no_ ↦ rw no_ (behind, rest.1)
    ]

-- The rows of another id stay as they are.
find-modify :
    (id : ℕ) (f : Pledge → Pledge) (x : Pledge) (ys : List Pledge)
    → ((y : Pledge) → (f y).id ≡ y.id)
    → (x.id == id) ≡ false
    → find_where (λ y. y.id == x.id && true) ys ≡ some x
    → find_where (λ y. y.id == x.id && true) (modify_where (λ y. y.id == id) f ys) ≡ some x
unfolding find_where modify_where
find-modify id f x [] keeps other h = h
find-modify id f x (y ∷ ys) keeps other h = elim (Bool-cases (y.id == id)) [
  | inl same ↦
      let differs : (y.id == x.id) ≡ false = ground (arith, same, other) in
      rw (same, keeps y, differs) (find-modify id f x ys keeps other (rw differs at h))
  | inr no_ ↦ elim (Bool-cases (y.id == x.id)) [
    | inl yes_ ↦ rw (no_, yes_) (rw yes_ at h)
    | inr differs ↦ rw (no_, differs) (find-modify id f x ys keeps other (rw differs at h))
  ]
]

module _ (ps : List Pledge) (q : Lookups) where
  -- One pledge expires, or its volume is not released; the other rows that are to expire stay so.
  expire_one-Ends :
      (c : Call) (p : Pledge) (w : World)
      → OnPledges ps w
      → IsStale w.pledges p
      → Ends
          (λ w'.
            OnPledges ps w'
            × ((x : Pledge) → (x.id == p.id) ≡ false → IsStale w.pledges x → IsStale w'.pledges x))
          (expire_one c q p)
          w
  unfolding expire_one
  expire_one-Ends c p w h (found, pending) =
      let f : Pledge → Pledge =
        λ x. record x { status = PledgeStatus.expired; decided_at = some c.now } in
      release_held-Ends c q p none (codes "pledge:expire:")
        (codes "Pledge expired (TTL elapsed with no decision)") (λ u. write (update_pledge p.id f))
        w (λ w' e. (same_pledges ps w w' h e, λ x other s. subst (λ l. IsStale l x) (sym e) s))
        λ w' e. last_write-Ends _ w' (
          decided ps p.id (λ x. true) f w w' h found pending (λ x. refl) PledgeEdge.expiry e,
          λ x other s.
              subst (λ l. IsStale (modify_where (λ y. y.id == p.id) f l) x) (sym e)
                (find-modify p.id f x w.pledges (λ y. refl) other s.0, s.1),
        )

  expire_each-OnPledges :
      (calls : ℕ → Call) (xs : List Pledge) (w : World)
      → OnPledges ps w
      → Each (IsStale w.pledges) xs
      → UniqueRows pledges_machine xs
      → OnPledges ps (expire_each calls q xs w).1
  unfolding expire_each
  expire_each-OnPledges calls [] w h stale u = h
  expire_each-OnPledges calls (p ∷ xs) w h (first, stale) (fresh, u) =
      let one = (expire_one-Ends (calls p.id) p w h first).ends in
      expire_each-OnPledges calls xs (expire_one (calls p.id) q p w).1 one.0
        (Each-map _ _ xs (λ x k. one.1 x k.0 k.1) (Each-both _ _ xs fresh stale)) u

  pub expire_stale-OnPledges :
      (calls : ℕ → Call) (now : ℕ) (w : World)
      → OnPledges ps w
      → OnPledges ps (expire_stale_pledges calls q now w).1
  unfolding expire_stale_pledges
  expire_stale-OnPledges calls now w h =
      let rows = stale_pledges-IsStale now w.pledges h.0 in
      expire_each-OnPledges calls (stale_pledges now w.pledges) w h rows.0 rows.1
