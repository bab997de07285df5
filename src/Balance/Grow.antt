-- ===== src/Balance/Grow.antt =====
-- The rows that the ledger creates: a root, two children of a split row, or one child that holds all.
use secure_store_backend.Prelude.{
  ℕ, ◌≡◌, false, some, none, append_assoc, List, [], ◌∷◌, ◌++◌, sym, ◌∙◌,
}
use mathlib.Core.Path.{subst}
use secure_store_backend.Prelude.Int.{ℤ, ◌+ℤ◌, int_laws, +ℤ_zero}
use secure_store_backend.Receipt.{Receipt}
use secure_store_backend.Store.{find_unique, modify, clashes}
use secure_store_backend.Store.Modify.{All-append, UniqueIds-append}
use secure_store_backend.Store.Totals.{UniqueIds, total-append}
use secure_store_backend.Balance.{
  leaf_weight, root_weight, child_weight, split_weight, IsGoodRow, IsBalanced,
}
use secure_store_backend.Balance.Split.{IsChildOf, IsSplitOf, split-IsBalanced}

-- A new root with no parent is a tree of one leaf.
pub append_root-IsBalanced :
    {column : ℤ → ℤ} (rs : List Receipt) (new : Receipt)
    → IsBalanced column rs
    → clashes new rs ≡ false
    → IsGoodRow column new
    → new.parent_receipt_id ≡ none
    → new.root_receipt_id ≡ new.id
    → new.is_parent ≡ false
    → IsBalanced column (rs ++ new ∷ [])
append_root-IsBalanced {column} rs new b free good parent root flag = record {
  unique = UniqueIds-append new rs b.unique free;
  rows = All-append (IsGoodRow column) rs (new ∷ []) b.rows (good, tt);
  leaves = λ k.
      total-append (leaf_weight k) rs new
      ∙ cc (b.leaves k, same_weight k)
      ∙ sym (total-append (root_weight k) rs new);
  children = λ k.
      total-append (child_weight k) rs new
      ∙ cc (b.children k, no_weight k)
      ∙ sym (total-append (split_weight k) rs new);
}
  where
    same_weight : (k : ℕ) → leaf_weight k new ≡ root_weight k new
    same_weight k = rw (flag, parent, root)

    no_weight : (k : ℕ) → child_weight k new ≡ split_weight k new
    no_weight k = rw (flag, parent)

-- Two children created one after the other.
module _ {column : ℤ → ℤ} (rs : List Receipt) (s p m : Receipt) (g : Receipt → Receipt)
    (b : IsBalanced column rs) (found : find_unique s.id rs ≡ some s) (leaf : s.is_parent ≡ false)
    (node : (x : Receipt) → IsSplitOf x (g x)) where
  pub split_in_two-IsBalanced :
      clashes p rs ≡ false
      → clashes m (rs ++ p ∷ []) ≡ false
      → IsChildOf s p
      → IsChildOf s m
      → IsGoodRow column p
      → IsGoodRow column m
      → p.quantity +ℤ m.quantity ≡ s.quantity
      → IsBalanced column (modify s.id g ((rs ++ p ∷ []) ++ m ∷ []))
  split_in_two-IsBalanced fp fm cp cm gp gm sums =
      let same : (rs ++ p ∷ []) ++ m ∷ [] ≡ rs ++ (p ∷ m ∷ []) =
        append_assoc rs (p ∷ []) (m ∷ []) in
      let u : UniqueIds ((rs ++ p ∷ []) ++ m ∷ []) =
        UniqueIds-append m (rs ++ p ∷ []) (UniqueIds-append p rs b.unique fp) fm in
      subst (λ l. IsBalanced column (modify s.id g l)) (sym same)
        (split-IsBalanced rs (p ∷ m ∷ []) s g b (subst UniqueIds same u) found leaf (cp, (cm, tt))
          (omega (int_laws, sums)) node (gp, (gm, tt)))

-- One child that holds all of the row.
module _ {column : ℤ → ℤ} (rs : List Receipt) (s p : Receipt) (g : Receipt → Receipt)
    (b : IsBalanced column rs) (found : find_unique s.id rs ≡ some s) (leaf : s.is_parent ≡ false)
    (node : (x : Receipt) → IsSplitOf x (g x)) where
  pub split_whole-IsBalanced :
      clashes p rs ≡ false
      → IsChildOf s p
      → IsGoodRow column p
      → p.quantity ≡ s.quantity
      → IsBalanced column (modify s.id g (rs ++ p ∷ []))
  split_whole-IsBalanced fp cp gp same =
      split-IsBalanced rs (p ∷ []) s g b (UniqueIds-append p rs b.unique fp) found leaf (cp, tt)
        (+ℤ_zero p.quantity ∙ same) node (gp, tt)
