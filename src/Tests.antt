-- ===== src/Tests.antt =====
-- The theorems on the ledger, its numbers, its transactions and its audit applied to concrete tables.
use secure_store_backend.Prelude.{
  ℕ, ◌+◌, ◌<◌, ◌≡◌, refl, codes, true, false, none, some, [], ◌∷◌, ◌++◌, arith, ◌↔◌, if◌then◌else◌,
}
use secure_store_backend.Prelude.Int.{pos}
use secure_store_backend.Receipt.{
  ReceiptStatus, ApprovalStatus, ReceiptGroup, includes, statuses_for_group, group_eq, derive_group,
  approval_eq,
}
use secure_store_backend.Receipt.Groups.{derive_group_iff_statuses}
use secure_store_backend.Store.{
  with_source_event, create_receipt, empty, ok, err, serialization_failure,
}
use secure_store_backend.Store.Totals.{All}
use secure_store_backend.Suffix.{
  all_upper, next_suffix, child_number, existing_child_suffixes, successor,
}
use secure_store_backend.Suffix.Value.{value, value-successor}
use secure_store_backend.Suffix.Order.{AllSuffixes, AllUpTo, IsSuffix, next_suffix_above}
use secure_store_backend.Suffix.Fresh.{
  NumberIsFree, child_number-NumberIsFree, second_child_number-NumberIsFree,
}
use secure_store_backend.Transaction.{with_serializable_tx, transaction}
use secure_store_backend.Transaction.Retry.{
  found_last, with_serializable_tx_retries, with_serializable_tx_gives_up,
}
use secure_store_backend.Ledger.Partition.{superseded}
use secure_store_backend.Ledger.Hold.{hold}
use secure_store_backend.Ledger.HoldCase.{
  takes_all, held_row, remainder_row, held_result, held_tables,
}
use secure_store_backend.Ledger.HoldRuns.{hold_runs}
use secure_store_backend.Ledger.HoldReplay.{hold_replays}
use secure_store_backend.Ledger.Keeps.{IsBalancedDb}
use secure_store_backend.Ledger.History.{Command, execute, execute-IsBalanced, Reachable-IsBalanced}
use secure_store_backend.Recon.{verify_all}
use secure_store_backend.Recon.Sound.{verify_all-balanced}
use secure_store_backend.Recon.Exact.{HoldsChildren, verify_all_iff}
use secure_store_backend.Samples.{
  exact, exact-IsColumn, call_at, actor, withdrawal, released, released-Reachable, stock, stocked,
  split_stock, stocked-IsReady,
}

Reachable-IsBalanced_example : IsBalancedDb exact released
Reachable-IsBalanced_example = Reachable-IsBalanced exact released exact-IsColumn released-Reachable

hold_runs_example : hold (call_at 30) (actor "h") withdrawal stocked ≡ (
  ok (held_result (call_at 30) (actor "h") withdrawal stock stocked.receipts),
  held_tables (call_at 30) (actor "h") withdrawal stock stocked,
)
hold_runs_example = hold_runs (call_at 30) (actor "h") withdrawal stocked stock stocked-IsReady

child_number-NumberIsFree_example :
    NumberIsFree
      (child_number
        (codes "RCP-2026-AB12")
        (next_suffix (existing_child_suffixes (codes "RCP-2026-AB12") split_stock)))
      split_stock
child_number-NumberIsFree_example = child_number-NumberIsFree (codes "RCP-2026-AB12") split_stock

first_child_number :
    codes "RCP-2026-AB12-A"
    ≡ child_number
        (codes "RCP-2026-AB12")
        (next_suffix (existing_child_suffixes (codes "RCP-2026-AB12") (stock ∷ [])))
unfolding next_suffix existing_child_suffixes
first_child_number = refl

second_child_number-NumberIsFree_example :
    NumberIsFree
      (child_number (codes "RCP-2026-AB12") (
        next_suffix (
          existing_child_suffixes (codes "RCP-2026-AB12") (stock ∷ [])
          ++ next_suffix (existing_child_suffixes (codes "RCP-2026-AB12") (stock ∷ [])) ∷ [])))
      (stock ∷ record stock { id = 32; receipt_number = codes "RCP-2026-AB12-A" } ∷ [])
second_child_number-NumberIsFree_example =
    second_child_number-NumberIsFree (codes "RCP-2026-AB12") (stock ∷ [])
      (record stock { id = 32; receipt_number = codes "RCP-2026-AB12-A" }) first_child_number

verify_all-balanced_example : verify_all none released.receipts ≡ (true, [])
verify_all-balanced_example =
    verify_all-balanced exact none released.receipts
      (Reachable-IsBalanced exact released exact-IsColumn released-Reachable)

verify_all_iff_example :
    ((verify_all (some 1) split_stock).0 ≡ true)
    ↔ All (HoldsChildren (some 1) split_stock) split_stock
verify_all_iff_example = verify_all_iff (some 1) split_stock

execute-IsBalanced_example :
    IsBalancedDb exact
      (execute (call_at 50) (actor "s") (Command.seize 33 8 (some (pos 1000))) released)
execute-IsBalanced_example =
    execute-IsBalanced (call_at 50) (actor "s") (Command.seize 33 8 (some (pos 1000))) released
      exact-IsColumn (λ q e. refl) tt
      (Reachable-IsBalanced exact released exact-IsColumn released-Reachable)

two-AllSuffixes : AllSuffixes (codes "Z" ∷ codes "B" ∷ [])
unfolding all_upper
two-AllSuffixes = (((λ e. cc), refl), (((λ e. cc), refl), tt))

next_suffix_above_example :
    IsSuffix (next_suffix (codes "Z" ∷ codes "B" ∷ []))
    × ((n : ℕ) × AllUpTo n (codes "Z" ∷ codes "B" ∷ [])
        × (n < value (next_suffix (codes "Z" ∷ codes "B" ∷ []))))
next_suffix_above_example = next_suffix_above (codes "Z" ∷ codes "B" ∷ []) two-AllSuffixes

az_upper : all_upper (codes "AZ") ≡ true
unfolding all_upper
az_upper = refl

value-successor_example : value (successor (codes "AZ")) ≡ value (codes "AZ") + 1
value-successor_example = value-successor b'A' (codes "Z") az_upper

with_serializable_tx_retries_example :
    with_serializable_tx (empty ∷ stocked ∷ []) (create_receipt stock) empty
    ≡ transaction (create_receipt stock) (found_last empty (empty ∷ stocked ∷ []))
with_serializable_tx_retries_example =
    with_serializable_tx_retries (empty ∷ stocked ∷ []) (create_receipt stock) empty (omega arith)

with_serializable_tx_gives_up_example :
    (with_serializable_tx (empty ∷ empty ∷ empty ∷ empty ∷ []) (create_receipt stock) empty).0
    ≡ err serialization_failure
with_serializable_tx_gives_up_example =
    with_serializable_tx_gives_up (empty ∷ empty ∷ empty ∷ empty ∷ []) (create_receipt stock) empty
      (omega arith)

derive_group_iff_statuses_example :
    includes (statuses_for_group ReceiptGroup.liened) ReceiptStatus.held_lien
    ≡ group_eq (derive_group ReceiptStatus.held_lien ApprovalStatus.approved) ReceiptGroup.liened
derive_group_iff_statuses_example =
    derive_group_iff_statuses ReceiptStatus.held_lien ApprovalStatus.approved ReceiptGroup.liened
      approved_decided
  where
    approved_decided : approval_eq ApprovalStatus.approved ApprovalStatus.pending ≡ false
    approved_decided = unfold approval_eq in refl

no_children_yet : with_source_event 30 (stock ∷ []) ≡ []
unfolding with_source_event
no_children_yet = refl

hold_replays_example :
    hold
      (call_at 60)
      (actor "h")
      (record withdrawal { quantity = pos 1 })
      (held_tables (call_at 30) (actor "h") withdrawal stock stocked)
    ≡ (
      ok (record {
        source = superseded 30 stock;
        held = held_row (call_at 30) (actor "h") withdrawal stock (stock ∷ []);
        remainder =
            if takes_all (call_at 30) (actor "h") withdrawal stock
            then none
            else some (remainder_row (call_at 30) (actor "h") withdrawal stock (stock ∷ []));
      }),
      held_tables (call_at 30) (actor "h") withdrawal stock stocked,
    )
hold_replays_example =
    hold_replays (call_at 30) (actor "h") withdrawal stocked stock stocked-IsReady no_children_yet
      (call_at 60) (record withdrawal { quantity = pos 1 })
