-- ===== src/Releases/Collateral.antt =====
-- What remains of a lien, over the requests of src/release-requests/release-requests.service.ts and
-- src/admin-liens/admin-liens.service.ts.
use secure_store_backend.Prelude.{ℕ, ◌≡◌, refl, ◌+◌, Text, true, false, List, [], ◌∷◌, arith}
use secure_store_backend.Prelude.Int.{ℤ, pos, ◌≤ℤ◌, ◌<ℤ◌, ◌-ℤ◌, -ℤ_parts, eq_ℤ}
use secure_store_backend.Store.{Tx}
use secure_store_backend.Pledges.{Lien}
use secure_store_backend.Service.Rows.{Each, modify_where-Each, append-Each}
use secure_store_backend.Service.{write}
use secure_store_backend.Service.Keeps.{
  Keeps, bind-Keeps, refuse_if-Keeps, given-Keeps, ask-Keeps, answer-Keeps, branch-Keeps,
  write-Keeps, atomically-Keeps,
}
use secure_store_backend.Service.Ends.{
  step-Ends, ask-Ends, given-Ends, branch-Ends, from_everywhere, by-Keeps,
}
use secure_store_backend.Service.Grants.{succeeded}
use secure_store_backend.Desk.{
  Desk, Outside, Refusal, ReleaseRequest, ReleaseRequestLine, on_ledger,
}
use secure_store_backend.Desk.Rules.{on_ledger-Keeps, on_accounts-Keeps}
use secure_store_backend.Releases.{
  LineInput, CreateReleaseRequest, create_release_request, insert_request, insert_lines, line_rows,
  cancel_release_request, is_in_force,
}
use secure_store_backend.Releases.Decide.{
  approve_release_request, reject_release_request, release_line, release_lines, update_lien,
}
use secure_store_backend.Releases.Force.{
  ForceReleaseInput, force_release_lien, insert_force_release,
}
use secure_store_backend.Releases.Checks.{
  IsPositive, IsReleasable, check_lines-Grants, check_again-Grants,
}
use secure_store_backend.Releases.Keeps.{
  check_lines-Keeps, pending_request-Keeps, require_org-Keeps, check_again-Keeps,
}

-- Something remains of a lien exactly as long as it is in force.
pub record IsConsistent (l : Lien) : Type 0 where
  pub held : is_in_force l.status ≡ true → pos 0 <ℤ l.remaining_quantity
  pub ended : is_in_force l.status ≡ false → l.remaining_quantity ≡ pos 0

-- The liens are consistent, and every line takes something.
pub record IsCollateral {N : Type 0} (w : Desk N) : Type 0 where
  pub liens : Each IsConsistent w.liens
  pub lines : Each (λ (l : ReleaseRequestLine). IsPositive l.quantity) w.lines

line_rows-IsPositive :
    {N : Type 0} (o : Outside N) (liens : List Lien) (id n : ℕ) (ls : List LineInput)
    → Each (λ (l : LineInput). IsPositive l.quantity) ls
    → Each (λ (l : ReleaseRequestLine). IsPositive l.quantity) (line_rows o liens id n ls)
unfolding line_rows
line_rows-IsPositive o liens id n [] h = tt
line_rows-IsPositive o liens id n (l ∷ ls) (h, hs) =
    (h, line_rows-IsPositive o liens id (n + 1) ls hs)

-- Less than the whole of what remains is taken.
part_left : (q left : ℤ) → q ≤ℤ left → eq_ℤ q left ≡ false → pos 0 <ℤ left -ℤ q
part_left q left h other = ground (arith, -ℤ_parts left q)

module _ {N : Type 0} where
  ledger_apart : {A : Type 0} (work : Tx A) → Keeps {S = Desk N} IsCollateral (on_ledger work)
  ledger_apart work =
      on_ledger-Keeps IsCollateral work λ w h. record { liens = h.liens; lines = h.lines }

  write_lien-Keeps :
      (id : ℕ) (f : Lien → Lien)
      → ((l : Lien) → IsConsistent (f l))
      → Keeps {S = Desk N} {E = Refusal} IsCollateral (write (update_lien id f))
  write_lien-Keeps id f h = write-Keeps _ _ λ w p. record {
    liens = modify_where-Each IsConsistent _ f w.liens (λ l old. h l) p.liens;
    lines = p.lines;
  }

  insert_request-Keeps : (r : ReleaseRequest) → Keeps {S = Desk N} IsCollateral (insert_request r)
  unfolding insert_request
  insert_request-Keeps r = bind-Keeps _ _ _ (ask-Keeps _ _) λ t.
      bind-Keeps _ _ _ (refuse_if-Keeps _ _ _)
        λ u. write-Keeps _ _ λ w p. record { liens = p.liens; lines = p.lines }

  insert_lines-Keeps :
      (ls : List ReleaseRequestLine)
      → Each (λ (l : ReleaseRequestLine). IsPositive l.quantity) ls
      → Keeps {S = Desk N} IsCollateral (insert_lines ls)
  unfolding insert_lines
  insert_lines-Keeps [] h = answer-Keeps _ _
  insert_lines-Keeps (l ∷ ls) (h, hs) = bind-Keeps _ _ _ (ask-Keeps _ _) λ t.
      bind-Keeps _ _ _ (refuse_if-Keeps _ _ _) λ u.
        bind-Keeps _ _ _
          (write-Keeps _ _
            λ w p. record { liens = p.liens; lines = append-Each _ l w.lines h p.lines })
          λ v. insert_lines-Keeps ls hs

  pub create_release_request-Collateral :
      (o : Outside N) (caller : ℕ) (dto : CreateReleaseRequest)
      → Keeps IsCollateral (create_release_request o caller dto)
  unfolding create_release_request
  create_release_request-Collateral o caller dto = from_everywhere _ λ w p.
      given-Ends _ _ _ w p λ tenant there.
        step-Ends _ _ w
          (by-Keeps _ w (check_lines-Keeps IsCollateral caller dto.financier_id dto.lines) p)
          λ u passed q.
            let positive =
              succeeded _ w u (check_lines-Grants caller dto.financier_id dto.lines w) passed in
            ask-Ends _ _ _ (
              by-Keeps _ _
                (atomically-Keeps _ _ (
                  bind-Keeps _ _ _ (insert_request-Keeps _)
                    λ v. insert_lines-Keeps _ (line_rows-IsPositive o _ _ 0 dto.lines positive)))
                q)

  pub cancel_release_request-Collateral :
      (o : Outside N) (caller id : ℕ) → Keeps IsCollateral (cancel_release_request o caller id)
  unfolding cancel_release_request
  cancel_release_request-Collateral o caller id =
      bind-Keeps _ _ _ (pending_request-Keeps IsCollateral _)
        λ r. write-Keeps _ _ λ w p. record { liens = p.liens; lines = p.lines }

  pub reject_release_request-Collateral :
      (o : Outside N) (caller id : ℕ) (why : Text)
      → Keeps IsCollateral (reject_release_request o caller id why)
  unfolding reject_release_request
  reject_release_request-Collateral o caller id why =
      bind-Keeps _ _ _ (require_org-Keeps IsCollateral _ _) λ org.
        bind-Keeps _ _ _ (pending_request-Keeps IsCollateral _)
          λ r. write-Keeps _ _ λ w p. record { liens = p.liens; lines = p.lines }

  release_line-Keeps :
      (o : Outside N) (caller : ℕ) (req : ReleaseRequest) (x : ReleaseRequestLine × Lien)
      → IsReleasable x
      → Keeps IsCollateral (release_line o caller req x.0 x.1)
  unfolding release_line
  release_line-Keeps o caller req x h = from_everywhere _ λ w p.
      branch-Ends _ _ _ w
        (λ whole.
          by-Keeps _ w
            (bind-Keeps _ _ _ (ledger_apart _)
              λ r. write_lien-Keeps _ _ λ l. record { held = λ e. cc; ended = λ e. refl })
            p)
        (λ other.
          by-Keeps _ w
            (bind-Keeps _ _ _ (ledger_apart _) λ parts. write_lien-Keeps _ _ λ l. record {
              held = λ e. part_left x.0.quantity x.1.remaining_quantity h.1 other;
              ended = λ e. cc;
            })
            p)

  release_lines-Keeps :
      (o : Outside N) (caller : ℕ) (req : ReleaseRequest) (ls : List (ReleaseRequestLine × Lien))
      → Each IsReleasable ls
      → Keeps IsCollateral (release_lines o caller req ls)
  unfolding release_lines
  release_lines-Keeps o caller req [] h = answer-Keeps _ _
  release_lines-Keeps o caller req (l ∷ ls) (h, hs) =
      bind-Keeps _ _ _ (release_line-Keeps o caller req l h)
        λ u. release_lines-Keeps o caller req ls hs

  pub approve_release_request-Collateral :
      (o : Outside N) (caller id : ℕ) (otp : Text)
      → Keeps IsCollateral (approve_release_request o caller id otp)
  unfolding approve_release_request
  approve_release_request-Collateral o caller id otp =
      bind-Keeps _ _ _ (require_org-Keeps IsCollateral _ _) λ org.
        bind-Keeps _ _ _ (pending_request-Keeps IsCollateral _) λ req.
          bind-Keeps _ _ _ (ask-Keeps _ _) λ pairs. from_everywhere _ λ w p.
            step-Ends _ _ w (by-Keeps _ w (check_again-Keeps IsCollateral pairs) p) λ u passed q.
              let fine = succeeded _ w u (check_again-Grants pairs w) passed in
              by-Keeps _ _
                (bind-Keeps _ _ _
                  (on_accounts-Keeps IsCollateral _
                    λ y k. record { liens = k.liens; lines = k.lines })
                  λ v.
                    bind-Keeps _ _ _ (release_lines-Keeps o caller req pairs fine)
                      λ r. write-Keeps _ _ λ y k. record { liens = k.liens; lines = k.lines })
                q

  pub force_release_lien-Collateral :
      (o : Outside N) (tenant admin id : ℕ) (dto : ForceReleaseInput)
      → Keeps IsCollateral (force_release_lien o tenant admin id dto)
  unfolding force_release_lien insert_force_release
  force_release_lien-Collateral o tenant admin id dto = bind-Keeps _ _ _ (ask-Keeps _ _) λ row.
      bind-Keeps _ _ _ (given-Keeps _ _ _) λ lien. bind-Keeps _ _ _ (ask-Keeps _ _) λ forced.
        branch-Keeps _ forced _ _ (answer-Keeps _ _) (
          bind-Keeps _ _ _ (refuse_if-Keeps _ _ _) λ u. bind-Keeps _ _ _ (ledger_apart _) λ r.
            atomically-Keeps _ _ (
              bind-Keeps _ _ _
                (bind-Keeps _ _ _ (ask-Keeps _ _) λ t.
                  bind-Keeps _ _ _ (refuse_if-Keeps _ _ _)
                    λ v. write-Keeps _ _ λ w p. record { liens = p.liens; lines = p.lines })
                λ x. write_lien-Keeps _ _ λ l. record { held = λ e. cc; ended = λ e. refl }))
