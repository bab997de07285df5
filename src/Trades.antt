-- ===== src/Trades.antt =====
-- The trades of src/trades/trades.service.ts: a receipt is listed, sold to a buyer or taken back.
pub mod Settled
use secure_store_backend.Prelude.{
  ℕ, ◌+◌, Text, text_eq, codes, Bool, true, false, not, ◌&&◌, ◌||◌, Option, none, some, List, [],
  ◌∷◌, ◌++◌, ◌==◌, if◌then◌else◌,
}
use secure_store_backend.Prelude.Int.{ℤ, pos}
use secure_store_backend.Receipt.{Receipt, TxnType, HeldStatus}
use secure_store_backend.Store.{Db, Tx, Trade, TradeStatus, trade_conflict, has_id}
use secure_store_backend.Store as Store
use secure_store_backend.Ledger.Rows.{release}
use secure_store_backend.Ledger.Hold.{HoldInput, hold}
use secure_store_backend.Ledger.Collateral.{transfer_and_release}
use secure_store_backend.Security.{Purpose}
use secure_store_backend.Security.Gate.{assert_transaction_auth}
use secure_store_backend.Service.Rows.{find_where, any_where, modify_where}
use secure_store_backend.Service.{
  done, failed, Action, answer, ask, write, refuse_if, given, branch, ◌>>=◌, ◌>>◌,
}
use secure_store_backend.Desk.{
  Desk, Refusal, Outside, Act, on_ledger, on_accounts, key, caller, or_self, receipt_in_tenant,
  trade_not_found, trade_not_available, buyer_not_found, same_party, row_clash,
}

pub record CreateTrade : Type 0 where
  pub receipt_id : ℕ
  pub pin : Option Text
  pub otp : Option Text

abbrev pub is_listed : TradeStatus → Bool
is_listed TradeStatus.listed = true
is_listed TradeStatus.pending_settlement = false
is_listed TradeStatus.settled = false
is_listed TradeStatus.cancelled = false

abbrev pub is_settled : TradeStatus → Bool
is_settled TradeStatus.listed = false
is_settled TradeStatus.pending_settlement = false
is_settled TradeStatus.settled = true
is_settled TradeStatus.cancelled = false

abbrev pub find_trade : (id tenant_id : ℕ) → List Trade → Option Trade
find_trade id tenant_id = find_where (λ t. t.id == id && t.tenant_id == tenant_id)

-- the trades that the test selects, changed
abbrev pub modify_trades : (Trade → Bool) → (Trade → Trade) → List Trade → List Trade
modify_trades = modify_where

abbrev pub some_trade : (Trade → Bool) → List Trade → Bool
some_trade = any_where

-- the row of a new trade; the price is set on settlement, outside the program
abbrev pub trade_row : {N : Type 0} → Outside N → (tenant_id seller_id : ℕ) → Receipt → Trade
trade_row o tenant_id seller_id held = record {
  id = o.new_id;
  reference = o.reference;
  tenant_id = tenant_id;
  receipt_id = held.id;
  seller_id = seller_id;
  buyer_id = none;
  quantity = o.as_float held.quantity;
  price_per_unit = pos 0;
  total_price = pos 0;
  status = TradeStatus.listed;
  settled_at = none;
}

-- `prisma.trade.upsert` with an empty update: a row that has the id stays, and references are unique
unfoldable pub upsert_trade : {N : Type 0} → Trade → Act N (Unit {0})
upsert_trade t = do
  there ← ask (λ w. some_trade (λ x. x.id == t.id) w.ledger.trades)
  branch there (answer tt) (do
    taken ← ask (λ w. some_trade (λ x. text_eq x.reference t.reference) w.ledger.trades)
    refuse_if taken row_clash
    write (λ w. record w { ledger = record (w.ledger) { trades = w.ledger.trades ++ t ∷ [] } }))

abbrev pub trade_hold : {N : Type 0} → Outside N → Receipt → HoldInput
trade_hold o receipt = record {
  source_receipt_id = receipt.id;
  quantity = receipt.quantity;
  held_status = HeldStatus.trade;
  txn_type = TxnType.trade;
  txn_id = o.new_id;
  metadata = none;
}

-- `createTrade`
unfoldable pub create_trade :
    {N : Type 0}
    → Outside N
    → (tenant_id : ℕ) → CreateTrade
    → (seller_id : ℕ) → Option ℕ
    → (is_on_behalf : Bool) → Act N (Unit {0})
unfolding upsert_trade
create_trade o tenant_id dto seller_id actor is_on_behalf = do
  on_accounts (
      assert_transaction_auth o.crypto o.call.now seller_id Purpose.trade dto.pin dto.otp
        is_on_behalf)
  receipt ← receipt_in_tenant dto.receipt_id tenant_id
  held ← on_ledger (
      hold o.call
        (caller tenant_id (some (or_self actor seller_id))
          (key o (codes "TRADE:") o.new_id (codes ":hold")))
        (trade_hold o receipt))
  upsert_trade (trade_row o tenant_id seller_id held.held)

-- `loadTrade`
unfoldable pub load_trade : {N : Type 0} → (tenant_id id : ℕ) → Act N Trade
load_trade tenant_id id = do
  row ← ask (λ w. find_trade id tenant_id w.ledger.trades)
  given row trade_not_found

abbrev pub is_open : ℕ → Trade → Bool
is_open id t = t.id == id && is_listed t.status

abbrev pub sold : ℕ → ℕ → Trade → Trade
sold buyer_id now t = record t {
  status = TradeStatus.settled;
  buyer_id = some buyer_id;
  settled_at = some now;
}

-- `withinTx`: the rows that are still listed are settled, and if there was none the transaction fails
unfoldable pub settle_within : (trade_id buyer_id now : ℕ) → Receipt → Tx (Unit {0})
settle_within trade_id buyer_id now r d =
    if some_trade (is_open trade_id) d.trades
    then (
      Store.Result.ok tt,
      record d { trades = modify_trades (is_open trade_id) (sold buyer_id now) d.trades },
    )
    else (Store.Result.err trade_conflict, d)

-- `settleTrade`: the trade as the answer shows it
unfoldable pub settle_trade :
    {N : Type 0} → Outside N → (tenant_id trade_id buyer_id : ℕ) → Act N Trade
unfolding load_trade settle_within
settle_trade o tenant_id trade_id buyer_id = do
  trade ← load_trade tenant_id trade_id
  refuse_if (trade.seller_id == buyer_id) same_party
  branch (is_settled trade.status && has_id buyer_id trade.buyer_id) (answer trade) (do
    refuse_if (not (is_listed trade.status)) (trade_not_available trade.status)
    refuse_if (not (has_id tenant_id (o.tenant_of buyer_id))) buyer_not_found
    on_ledger (
        transfer_and_release o.call
          (caller tenant_id none (key o (codes "TRADE:") trade.id (codes ":transfer")))
          trade.receipt_id buyer_id TxnType.trade trade.id
          (settle_within trade_id buyer_id o.call.now))
    answer (record trade { status = TradeStatus.settled }))

-- `prisma.trade.update` of the status of a row that is there
abbrev pub set_trade_status : {N : Type 0} → ℕ → TradeStatus → Desk N → Desk N
set_trade_status id status w = record w {
  ledger = record (w.ledger) {
    trades = modify_trades (λ t. t.id == id) (λ t. record t { status = status }) w.ledger.trades;
  };
}

-- `cancelTrade`
unfoldable pub cancel_trade : {N : Type 0} → Outside N → (tenant_id trade_id : ℕ) → Act N (Unit {0})
unfolding load_trade
cancel_trade o tenant_id trade_id = do
  trade ← load_trade tenant_id trade_id
  refuse_if (not (is_listed trade.status)) (trade_not_available trade.status)
  on_ledger (
      release o.call
        (caller tenant_id none (key o (codes "TRADE:") trade.id (codes ":cancel-release")))
        trade.receipt_id none)
  write (set_trade_status trade_id TradeStatus.cancelled)
