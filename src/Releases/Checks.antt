-- ===== src/Releases/Checks.antt =====
-- What the checks of the lines show in src/release-requests/release-requests.service.ts when they pass.
use secure_store_backend.Prelude.{negated, ℕ, ◌≡◌, true, List, [], ◌∷◌}
use secure_store_backend.Prelude.Int.{ℤ, pos, ◌≤ℤ◌, ◌<ℤ◌}
use secure_store_backend.Ledger.KeepsPartition.{leb_ℤ_false, ltb_ℤ_false}
use secure_store_backend.Pledges.{Lien}
use secure_store_backend.Service.Rows.{Each}
use secure_store_backend.Service.Grants.{
  Grants, ask-Grants, given-Grants, refuse_if-Grants, last_refuse_if-Grants, answer-Grants,
  chain-Grants, weaken-Grants,
}
use secure_store_backend.Desk.{Desk, ReleaseRequestLine}
use secure_store_backend.Releases.{LineInput, check_line, check_lines, is_in_force}
use secure_store_backend.Releases.Decide.{check_again}

-- A line takes something.
abbrev pub IsPositive : ℤ → Type 0
IsPositive q = pos 0 <ℤ q

-- A line takes no more than what remains of a lien that is in force.
abbrev pub IsReleasable : ReleaseRequestLine × Lien → Type 0
IsReleasable x = (is_in_force x.1.status ≡ true) × (x.0.quantity ≤ℤ x.1.remaining_quantity)

module _ {N : Type 0} where
  check_line-Grants :
      (caller financier : ℕ) (l : LineInput) (w : Desk N)
      → Grants (λ x after. IsPositive l.quantity) (check_line caller financier l) w
  unfolding check_line
  check_line-Grants caller financier l w = ask-Grants _ _ w (
      given-Grants _ _ _ w λ lien found. refuse_if-Grants _ _ _ w λ a. refuse_if-Grants _ _ _ w λ b.
        refuse_if-Grants _ _ _ w λ c. refuse_if-Grants _ _ _ w λ positive.
          ask-Grants _ _ w
            (last_refuse_if-Grants _ _ w λ d. leb_ℤ_false l.quantity (pos 0) positive))

  pub check_lines-Grants :
      (caller financier : ℕ) (ls : List LineInput) (w : Desk N)
      → Grants
          (λ x after. Each (λ (l : LineInput). IsPositive l.quantity) ls)
          (check_lines caller financier ls)
          w
  unfolding check_lines
  check_lines-Grants caller financier [] w = answer-Grants tt w tt
  check_lines-Grants caller financier (l ∷ ls) w =
      chain-Grants _ _ w (check_line-Grants caller financier l w) λ x w' first.
        weaken-Grants _ w' (λ y after rest. (first, rest))
          (check_lines-Grants caller financier ls w')

  pub check_again-Grants :
      (ls : List (ReleaseRequestLine × Lien)) (w : Desk N)
      → Grants (λ x after. Each IsReleasable ls) (check_again ls) w
  unfolding check_again
  check_again-Grants [] w = answer-Grants tt w tt
  check_again-Grants (l ∷ ls) w = refuse_if-Grants _ _ _ w λ force.
      refuse_if-Grants _ _ _ w λ enough.
        weaken-Grants _ w
          (λ y after rest.
            ((negated _ force, ltb_ℤ_false l.1.remaining_quantity l.0.quantity enough), rest))
          (check_again-Grants ls w)
