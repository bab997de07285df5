-- ===== src/Ledger/KeepsPartition.antt =====
-- A partition keeps the receipt table balanced, if the quantity that it takes fits the column.
use secure_store_backend.Prelude.{
  ℕ, Text, ◌≡◌, refl, true, false, Option, none, some, List, [], ◌∷◌, ◌++◌, sym, ap, ◌∙◌, arith,
  inl, inr, Bool-cases,
}
use mathlib.Core.Path.{subst}
use secure_store_backend.Prelude.Int.{ℤ, pos, ◌+ℤ◌, ◌-ℤ◌, ◌<ℤ◌, ◌≤ℤ◌, leb_ℤ, ltb_ℤ, int_laws}
use secure_store_backend.Receipt.{Receipt, ReceiptStatus, ApprovalStatus, TxnType, status_eq, split}
use secure_store_backend.Store.{Db, Tx, ◌>>=◌, clashes, create_receipt, unique_violation}
use secure_store_backend.Store.Ensures.{
  Ensures, Ensures-pure, Ensures-create, Ensures-update, Ensures-next, Ensures-stop,
}
use secure_store_backend.Suffix.{existing_child_suffixes}
use secure_store_backend.Balance.{IsGoodRow, IsColumn}
use secure_store_backend.Balance.Split.{IsChildOf, IsSplitOf}
use secure_store_backend.Balance.Grow.{split_in_two-IsBalanced, split_whole-IsBalanced}
use secure_store_backend.Ledger.Call.{Call}
use secure_store_backend.Ledger.Keeps.{IsBalancedDb, IsFound}
use secure_store_backend.Ledger.Partition.{
  child_of, superseded, Primary, create_remainder, partition, read_suffixes,
}

-- a test that failed
pub leb_ℤ_false : (a b : ℤ) → leb_ℤ a b ≡ false → b <ℤ a
leb_ℤ_false a b h = ground arith

pub leb_ℤ_true : (a b : ℤ) → leb_ℤ a b ≡ true → a ≤ℤ b
leb_ℤ_true a b h = ground arith

pub ltb_ℤ_false : (a b : ℤ) → ltb_ℤ a b ≡ false → b ≤ℤ a
ltb_ℤ_false a b h = ground arith

pub child_of-IsChildOf :
    (s : Receipt) (id : ℕ) (number : Text) (status : ReceiptStatus) (q : ℤ) (client : ℕ)
    (approval_status : ApprovalStatus) (txn : Option TxnType) (txn_id : Option ℕ) (ev : ℕ)
    → IsChildOf s (child_of s id number status q client approval_status txn txn_id ev)
unfolding child_of
child_of-IsChildOf s id number status q client approval_status txn txn_id ev = record {
  parent = refl;
  root = refl;
  flag = refl;
}

pub child_of-quantity :
    (s : Receipt) (id : ℕ) (number : Text) (status : ReceiptStatus) (q : ℤ) (client : ℕ)
    (approval_status : ApprovalStatus) (txn : Option TxnType) (txn_id : Option ℕ) (ev : ℕ)
    → (child_of s id number status q client approval_status txn txn_id ev).quantity ≡ q
unfolding child_of
child_of-quantity s id number status q client approval_status txn txn_id ev = refl

pub child_of-IsGoodRow :
    {column : ℤ → ℤ} (s : Receipt) (id : ℕ) (number : Text) (status : ReceiptStatus) (q q' : ℤ)
    (client : ℕ) (approval_status : ApprovalStatus) (txn : Option TxnType) (txn_id : Option ℕ)
    (ev : ℕ)
    → status_eq status split ≡ false
    → q' ≡ q
    → pos 0 <ℤ q
    → column q ≡ q
    → IsGoodRow column (child_of s id number status q' client approval_status txn txn_id ev)
unfolding child_of
child_of-IsGoodRow s id number status q q' client approval_status txn txn_id ev open_ same positive
      stored =
    record { flag = sym open_; positive = rw same positive; stored = rw same stored }

module _ {A : Type 0} {Q : A → Db → Type 0} where
  pub Ensures-read_suffixes :
      (base : Text) (f : List Text → Tx A) (d : Db)
      → ((taken : List Text) → Ensures Q (f taken) d)
      → Ensures Q (read_suffixes base >>= f) d
  unfolding read_suffixes
  Ensures-read_suffixes base f d h = record {
    holds = (h (existing_child_suffixes base d.receipts)).holds;
  }

  -- Without a remainder nothing is written; with one its row is appended.
  Ensures-remainder :
      (c : Call) (s : Receipt) (number : Text) (rem : ℤ) (ev : ℕ) (f : Option Receipt → Tx A)
      (d : Db)
      → (leb_ℤ rem (pos 0) ≡ true → Ensures Q (f none) d)
      → ((row : Receipt)
          → row
            ≡ child_of s c.remainder_id number ReceiptStatus.active
                (c.column rem)
                s.client_id
                ApprovalStatus.approved
                none
                none
                ev
          → leb_ℤ rem (pos 0) ≡ false
          → clashes row d.receipts ≡ false
          → Ensures Q (f (some row)) (record d { receipts = d.receipts ++ row ∷ [] }))
      → Ensures Q (create_remainder c s number rem ev >>= f) d
  unfolding create_remainder create_receipt
  Ensures-remainder c s number rem ev f d h k = elim (Bool-cases (leb_ℤ rem (pos 0))) [
    | inl nothing ↦ Ensures-next _ f d none d (rw nothing refl) (h nothing)
    | inr rest ↦ elim (Bool-cases (clashes row d.receipts)) [
      | inl clash ↦ Ensures-stop _ f d unique_violation d (rw rest (rw clash refl))
      | inr free ↦ Ensures-next _ f d (some row) _ (rw rest (rw free refl)) (k row refl rest free)
    ]
  ]
    where
      row : Receipt
      row =
          child_of s c.remainder_id number ReceiptStatus.active (c.column rem) s.client_id
            ApprovalStatus.approved none none ev

pub superseded-IsSplitOf : (now : ℕ) (x : Receipt) → IsSplitOf x (superseded now x)
superseded-IsSplitOf now x = (search)

module _ (c : Call) (is_column : IsColumn c.column) where
  -- A partition of a leaf, by a quantity of it that the column holds.
  pub partition_keeps :
      (s : Receipt) (qty : ℤ) (p : Primary) (event_id : ℕ) (d : Db)
      → IsBalancedDb c.column d
      → IsFound c.column d.receipts s.id s
      → s.is_parent ≡ false
      → status_eq p.status split ≡ false
      → c.column qty ≡ qty
      → pos 0 <ℤ qty
      → qty ≤ℤ s.quantity
      → Ensures (λ r after. IsBalancedDb c.column after) (partition c s qty p event_id) d
  unfolding partition
  partition_keeps s qty p event_id d b row leaf open_ stored positive fits =
      Ensures-read_suffixes _ _ d λ taken. Ensures-create _ _ d λ free.
        Ensures-remainder c s _ _ event_id _ _
          (λ nothing. Ensures-update s.id _ _ _ λ x again. Ensures-pure _ _ (
            split_whole-IsBalanced d.receipts s _ (superseded c.now) b row.unique leaf
              (superseded-IsSplitOf c.now) free (child_of-IsChildOf s _ _ _ _ _ _ _ _ _)
              (child_of-IsGoodRow s _ _ _ qty _ _ _ _ _ _ open_ stored positive stored)
              (whole (child_of-quantity s _ _ _ _ _ _ _ _ _ ∙ stored) nothing)))
          (λ m is_child rest free_m. Ensures-update s.id _ _ _ λ x again. Ensures-pure _ _ (
            split_in_two-IsBalanced d.receipts s _ m (superseded c.now) b row.unique leaf
              (superseded-IsSplitOf c.now) free free_m (child_of-IsChildOf s _ _ _ _ _ _ _ _ _)
              (subst (IsChildOf s) (sym is_child) (child_of-IsChildOf s _ _ _ _ _ _ _ _ _))
              (child_of-IsGoodRow s _ _ _ qty _ _ _ _ _ _ open_ stored positive stored)
              (subst (IsGoodRow c.column) (sym is_child) (
                child_of-IsGoodRow s _ _ _ (s.quantity -ℤ qty) _ _ _ _ _ _ active_open rem_stored
                  (leb_ℤ_false (s.quantity -ℤ qty) (pos 0) rest) rem_stored))
              (two (child_of-quantity s _ _ _ _ _ _ _ _ _ ∙ stored) (
                ap (λ (r : Receipt). r.quantity) is_child
                ∙ child_of-quantity s _ _ _ _ _ _ _ _ _
                ∙ rem_stored))))
    where
      active_open : status_eq ReceiptStatus.active split ≡ false
      active_open = unfold status_eq in refl

      rem_stored : c.column (s.quantity -ℤ qty) ≡ s.quantity -ℤ qty
      rem_stored = is_column.sub_stored s.quantity qty row.good.stored stored

      two : {x y : ℤ} → x ≡ qty → y ≡ s.quantity -ℤ qty → x +ℤ y ≡ s.quantity
      two ex ey = omega int_laws

      whole : {q : ℤ} → q ≡ qty → leb_ℤ (s.quantity -ℤ qty) (pos 0) ≡ true → q ≡ s.quantity
      whole e h = omega (int_laws, leb_ℤ_true (s.quantity -ℤ qty) (pos 0) h)
