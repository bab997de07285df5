-- ===== src/Loans/Schedule.antt =====
-- The payments that src/loans/loans.service.ts keeps in a loan are those of its amount, rate and months.
use secure_store_backend.Prelude.{
  ℕ, ◌≡◌, refl, sym, ap, ◌∙◌, Text, true, Option, none, some, inl, inr, Bool-cases,
}
use secure_store_backend.Desk.{Loan, Floats, Financier}
use secure_store_backend.Loans.{quote}
use secure_store_backend.Loans.Edit.{
  Changes, edited, rescheduled, unless_same, or_old, rate_of, tenure_of,
}

-- The interest and the monthly payment are those that the formula gives.
pub record IsScheduled {N : Type 0} (F : Floats N) (l : Loan N) : Type 0 where
  pub interest :
      l.total_interest ≡ (quote F l.amount l.interest_rate l.tenure_months).total_interest
  pub payment :
      l.monthly_payment ≡ (quote F l.amount l.interest_rate l.tenure_months).monthly_payment

-- Strict equality of JavaScript numbers, on which `editLoan` leaves a column as it is.
abbrev pub SameIsEqual : {N : Type 0} → Floats N → Type 0
SameIsEqual {N} F = (a b : N) → F.same a b ≡ true → a ≡ b

module _ {N : Type 0} (F : Floats N) (equal : SameIsEqual F) where
  unless_same_new : (old new : N) → unless_same F old new ≡ new
  unless_same_new old new = elim (Bool-cases (F.same new old)) [
    | inl same ↦ rw same (sym (equal new old same))
    | inr other ↦ rw other refl
  ]

  rescheduled-IsScheduled :
      (x : Changes N) (l : Loan N) (financier_id : ℕ) (notes : Option Text)
      → IsScheduled F (record (rescheduled F x l) {
        amount = or_old x.amount l.amount;
        financier_id = financier_id;
        notes = notes;
      })
  unfolding rescheduled
  rescheduled-IsScheduled x l financier_id notes =
      let months = tenure_of x.financier l.tenure_months in
      let amount = or_old x.amount l.amount in
      let rate = unless_same_new l.interest_rate (rate_of x.financier l.interest_rate) in
      record {
        interest =
            unless_same_new l.total_interest _
            ∙ ap (λ r. (quote F amount r months).total_interest) (sym rate);
        payment =
            unless_same_new l.monthly_payment _
            ∙ ap (λ r. (quote F amount r months).monthly_payment) (sym rate);
      }

  edited_by :
      (a : Option N) (f : Option (Financier N)) (n : Option Text) (l : Loan N)
      → IsScheduled F l
      → IsScheduled F (edited F (record { amount = a; financier = f; notes = n }) l)
  unfolding edited
  edited_by none none n l h = record { interest = h.interest; payment = h.payment }
  edited_by (some a) f n l h =
      rescheduled-IsScheduled (record { amount = some a; financier = f; notes = n }) l _ _
  edited_by none (some f) n l h =
      rescheduled-IsScheduled (record { amount = none; financier = some f; notes = n }) l _ _

  pub edited-IsScheduled :
      (x : Changes N) (l : Loan N) → IsScheduled F l → IsScheduled F (edited F x l)
  edited-IsScheduled x l h = edited_by x.amount x.financier x.notes l h
