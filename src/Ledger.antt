-- ===== src/Ledger.antt =====
-- src/inventory/inventory-ledger.service.ts: the tree of warehouse receipts. `Call` has what a method
-- is called with, `Rows` the methods that rewrite one row, `Deposit` the one that mints a root,
-- `Partition`, `Hold` and `Collateral` those that split a row or settle it.
pub mod Call
pub mod Rows
pub mod Rules
pub mod Keeps
pub mod KeepsPartition
pub mod KeepsHold
pub mod KeepsCollateral
pub mod HoldCase
pub mod HoldRuns
pub mod HoldReplay
pub mod History
pub mod Deposit
pub mod Partition
pub mod Hold
pub mod Collateral
