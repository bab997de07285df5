-- ===== src/Receipt/Groups.antt =====
-- The filter groups of the receipt table: `deriveGroup` against `statusesForGroup`.
use secure_store_backend.Prelude.{◌≡◌, false, arith}
use secure_store_backend.Receipt.{
  ReceiptStatus, ApprovalStatus, pending, ReceiptGroup, includes, approval_eq, derive_group,
  statuses_for_group, group_eq,
}

-- A receipt whose approval is decided (not PENDING) is in the group that `deriveGroup` names exactly
-- when its status is in the list that `statusesForGroup` gives for the group.
pub derive_group_iff_statuses :
    (s : ReceiptStatus) (a : ApprovalStatus) (g : ReceiptGroup)
    → approval_eq a pending ≡ false
    → includes (statuses_for_group g) s ≡ group_eq (derive_group s a) g
unfolding includes statuses_for_group group_eq derive_group
derive_group_iff_statuses s pending g h = cc
derive_group_iff_statuses s ApprovalStatus.approved g h = ground arith
derive_group_iff_statuses s ApprovalStatus.rejected g h = ground arith
