-- ===== src/Balance/Split.antt =====
-- Splitting a row into children whose quantities sum up to its own keeps the table balanced.
use secure_store_backend.Prelude.{
  ℕ, ◌≡◌, refl, Bool, true, false, some, List, [], ◌∷◌, ◌++◌, arith, ◌==◌, ap, sym, ◌∙◌,
  if◌then◌else◌,
}
use secure_store_backend.Prelude.Int.{ℤ, pos, ◌+ℤ◌, int_laws, +ℤ_zero}
use secure_store_backend.Receipt.{Receipt, status_eq, split}
use secure_store_backend.Store.{find_unique, modify}
use secure_store_backend.Store.Modify.{UniqueIds-modify, All-modify, All-append, All-find_unique}
use secure_store_backend.Store.Totals.{
  All, UniqueIds, total, total-modify, total-append_all, find_unique-append,
}
use secure_store_backend.Balance.{
  leaf_weight, root_weight, child_weight, split_weight, IsGoodRow, IsBalanced,
}

-- A leaf under a row, in the row's tree.
pub record IsChildOf (s k : Receipt) : Type 0 where
  pub parent : k.parent_receipt_id ≡ some s.id
  pub root : k.root_receipt_id ≡ s.root_receipt_id
  pub flag : k.is_parent ≡ false

-- The row becomes a parent and keeps its place.
pub record IsSplitOf (s s' : Receipt) : Type 0 where
  pub id : s'.id ≡ s.id
  pub quantity : s'.quantity ≡ s.quantity
  pub root : s'.root_receipt_id ≡ s.root_receipt_id
  pub parent : s'.parent_receipt_id ≡ s.parent_receipt_id
  pub flag : s'.is_parent ≡ true
  pub status : s'.status ≡ split

-- What the children hold together.
abbrev pub sum_of : List Receipt → ℤ
sum_of [] = pos 0
sum_of (k ∷ ks) = k.quantity +ℤ sum_of ks

-- Equations between a total before and after, the children's total and the row's two weights.
exchange_none :
    (t' a t k a' : ℤ) → t' +ℤ a ≡ t +ℤ k +ℤ a' → {x : ℤ} → k ≡ x → a ≡ x → a' ≡ pos 0 → t' ≡ t
exchange_none t' a t k a' h hk ha ha' = omega int_laws

exchange_same : (t' a t k a' : ℤ) → t' +ℤ a ≡ t +ℤ k +ℤ a' → {x : ℤ} → k ≡ x → a' ≡ a → t' ≡ t +ℤ x
exchange_same t' a t k a' h hk ha = omega int_laws

exchange_new :
    (t' a t k a' : ℤ)
    → t' +ℤ a ≡ t +ℤ k +ℤ a'
    → {x : ℤ} → k ≡ pos 0
    → a ≡ pos 0
    → a' ≡ x
    → t' ≡ t +ℤ x
exchange_new t' a t k a' h hk ha hx = omega int_laws

if_sum :
    (b : Bool) (x y : ℤ)
    → (if b then x else pos 0) +ℤ (if b then y else pos 0) ≡ (if b then x +ℤ y else pos 0)
if_sum true x y = refl
if_sum false x y = omega int_laws

module _ (s : Receipt) where
  child_leaf :
      (ks : List Receipt) (root : ℕ)
      → All (IsChildOf s) ks
      → total (leaf_weight root) ks ≡ (if s.root_receipt_id == root then sum_of ks else pos 0)
  unfolding total
  child_leaf [] root h = ground arith
  child_leaf (k ∷ ks) root h =
      rw (h.0.flag, h.0.root, child_leaf ks root h.1)
        (if_sum (s.root_receipt_id == root) k.quantity (sum_of ks))

  child_child :
      (ks : List Receipt) (id : ℕ)
      → All (IsChildOf s) ks
      → total (child_weight id) ks ≡ (if s.id == id then sum_of ks else pos 0)
  unfolding total
  child_child [] id h = ground arith
  child_child (k ∷ ks) id h =
      rw (h.0.parent, child_child ks id h.1) (if_sum (s.id == id) k.quantity (sum_of ks))

  child_root :
      (ks : List Receipt) (root : ℕ) → All (IsChildOf s) ks → total (root_weight root) ks ≡ pos 0
  unfolding total
  child_root [] root h = refl
  child_root (k ∷ ks) root h = rw (h.0.parent, child_root ks root h.1) (omega int_laws)

  child_split :
      (ks : List Receipt) (id : ℕ) → All (IsChildOf s) ks → total (split_weight id) ks ≡ pos 0
  unfolding total
  child_split [] id h = refl
  child_split (k ∷ ks) id h = rw (h.0.flag, child_split ks id h.1) (omega int_laws)

-- The totals after a split: those of the rows, of the children, and the exchange of the row.
total_after :
    (w : Receipt → ℤ) (g : Receipt → Receipt) (rs ks : List Receipt) (s : Receipt)
    → UniqueIds (rs ++ ks)
    → find_unique s.id rs ≡ some s
    → total w (modify s.id g (rs ++ ks)) +ℤ w s ≡ total w rs +ℤ total w ks +ℤ w (g s)
total_after w g rs ks s u found =
    total-modify w s.id g (rs ++ ks) u (find_unique-append s.id rs ks found)
    ∙ ap (λ t. t +ℤ w (g s)) (total-append_all w rs ks)

module _ {column : ℤ → ℤ} (rs ks : List Receipt) (s : Receipt) (g : Receipt → Receipt)
    (b : IsBalanced column rs) (unique : UniqueIds (rs ++ ks))
    (found : find_unique s.id rs ≡ some s) (leaf : s.is_parent ≡ false)
    (kids : All (IsChildOf s) ks) (sums : sum_of ks ≡ s.quantity)
    (node : (x : Receipt) → IsSplitOf x (g x)) where
  n : IsSplitOf s (g s)
  n = node s

  -- What one share of the source's quantity is.
  share : (b : Bool) → ℤ
  share b = if b then s.quantity else pos 0

  kids_leaf : (root : ℕ) → total (leaf_weight root) ks ≡ share (s.root_receipt_id == root)
  unfolding share
  kids_leaf root =
      child_leaf s ks root kids ∙ ap (λ q. if s.root_receipt_id == root then q else pos 0) sums

  kids_child : (id : ℕ) → total (child_weight id) ks ≡ share (s.id == id)
  unfolding share
  kids_child id = child_child s ks id kids ∙ ap (λ q. if s.id == id then q else pos 0) sums

  pub after_leaves :
      (root : ℕ) → total (leaf_weight root) (modify s.id g (rs ++ ks)) ≡ total (leaf_weight root) rs
  unfolding share
  after_leaves root =
      exchange_none _ _ _ _ _ (total_after (leaf_weight root) g rs ks s unique found)
        (kids_leaf root) (rw leaf) (rw n.flag)

  after_roots :
      (root : ℕ) → total (root_weight root) (modify s.id g (rs ++ ks)) ≡ total (root_weight root) rs
  after_roots root =
      exchange_same _ _ _ _ _ (total_after (root_weight root) g rs ks s unique found)
        (child_root s ks root kids) (rw (n.parent, n.id, n.quantity))
      ∙ +ℤ_zero _

  after_children :
      (id : ℕ)
      → total (child_weight id) (modify s.id g (rs ++ ks))
        ≡ total (child_weight id) rs +ℤ share (s.id == id)
  after_children id =
      exchange_same _ _ _ _ _ (total_after (child_weight id) g rs ks s unique found) (kids_child id)
        (rw (n.parent, n.quantity))

  after_splits :
      (id : ℕ)
      → total (split_weight id) (modify s.id g (rs ++ ks))
        ≡ total (split_weight id) rs +ℤ share (s.id == id)
  unfolding share
  after_splits id =
      exchange_new _ _ _ _ _ (total_after (split_weight id) g rs ks s unique found)
        (child_split s ks id kids) (rw leaf) (rw (n.flag, n.id, n.quantity))

  pub split-IsBalanced : All (IsGoodRow column) ks → IsBalanced column (modify s.id g (rs ++ ks))
  split-IsBalanced good = record {
    unique = UniqueIds-modify s.id g (λ x. (node x).id) (rs ++ ks) unique;
    rows =
        All-modify (IsGoodRow column) s.id g (rs ++ ks) unique
          (All-append (IsGoodRow column) rs ks b.rows good) (find_unique-append s.id rs ks found)
          split_row;
    leaves = λ root. after_leaves root ∙ b.leaves root ∙ sym (after_roots root);
    children = λ id.
        after_children id
        ∙ ap (λ t. t +ℤ share (s.id == id)) (b.children id)
        ∙ sym (after_splits id);
  }
    where
      old : IsGoodRow column s
      old = All-find_unique (IsGoodRow column) s.id rs b.rows found

      split_row : IsGoodRow column (g s)
      split_row = record {
        flag = rw (n.flag, n.status) (unfold status_eq in refl);
        positive = rw n.quantity old.positive;
        stored = rw n.quantity old.stored;
      }
