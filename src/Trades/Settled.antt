-- ===== src/Trades/Settled.antt =====
-- The sale of a trade by `settleTrade` of src/trades/trades.service.ts.
use secure_store_backend.Prelude.{
  negated, ℕ, codes, ◌≡◌, refl, sym, ap, ◌∙◌, Bool, true, false, ◌&&◌, Option, none, some, List, [],
  ◌∷◌, ◌==◌, inl, inr, Bool-cases, arith,
}
use mathlib.Core.Path.{subst}
use secure_store_backend.Receipt.{Receipt, ReceiptStatus, ApprovalStatus, TxnType}
use secure_store_backend.Store.{
  Db, Error, ok, err, Result, Tx, Trade, TradeStatus, find_event, find_first, modify, has_id,
}
use secure_store_backend.Store.Modify.{find_first_id}
use secure_store_backend.Store.Ensures.{
  Ensures, Ensures-load, Ensures-update, Ensures-bind, Ensures-pure,
}
use secure_store_backend.Transaction.{run_idempotent, with_serializable_tx}
use secure_store_backend.Transaction.Fresh.{run_fresh-Ensures, run_fresh_restores}
use secure_store_backend.Ledger.Call.{Call, ActorCtx, affected}
use secure_store_backend.Ledger.Collateral.{transfer_and_release, transfer_and_release_work}
use secure_store_backend.Ledger.Rules.{
  assert_held-Checks, Ensures-check, Ensures-lock, Ensures-event,
}
use secure_store_backend.Service.{done, failed, ask, answer, given, ◌>>=◌}
use secure_store_backend.Service.Undone.{Undone, refuse_if-Undone, branch-Undone, answer-Undone}
use secure_store_backend.Service.Rows.{find_where, modify_where}
use secure_store_backend.Service.Grants.{Grants, refuse_if-Grants, branch-Grants, answer-Grants}
use secure_store_backend.Desk.{Desk, Outside, Act, Refusal, key}
use secure_store_backend.Desk.Rules.{on_ledger-Grants, on_ledger-Undone}
use secure_store_backend.Trades.{
  settle_trade, load_trade, settle_within, find_trade, modify_trades, some_trade, is_open,
  is_listed, is_settled, sold,
}

-- A write that keeps the id and the tenant is found where the row was.
find_first-modify :
    (id tenant_id : ℕ) (f : Receipt → Receipt) (rs : List Receipt) {r : Receipt}
    → ((x : Receipt) → (f x).id ≡ x.id)
    → ((x : Receipt) → (f x).tenant_id ≡ x.tenant_id)
    → find_first id tenant_id rs ≡ some r
    → find_first id tenant_id (modify id f rs) ≡ some (f r)
unfolding find_first modify
find_first-modify id t f [] ids tenants h = cc
find_first-modify id t f (x ∷ xs) {r} ids tenants h = elim (Bool-cases (x.id == id)) [
  | inr other ↦ rw (other, other) (find_first-modify id t f xs ids tenants (rw other at h))
  | inl same ↦
      let again : (f x).id == id ≡ true = ap (λ k. k == id) (ids x) ∙ same in
      elim (Bool-cases (x.tenant_id == t)) [
        | inr foreign ↦
            let foreign' : (f x).tenant_id == t ≡ false = ap (λ k. k == t) (tenants x) ∙ foreign in
            rw (same, again, foreign')
              (find_first-modify id t f xs ids tenants (rw (same, foreign) at h))
        | inl own ↦
            let own' : (f x).tenant_id == t ≡ true = ap (λ k. k == t) (tenants x) ∙ own in
            let is : some x ≡ some r = rw (same, own) at h in
            rw (same, again, own')
              (ap (λ (o : Option Receipt). elim o [ none ↦ none | some y ↦ some (f y) ]) is)
      ]
]

-- The trade that was found and is listed is the one that is sold.
find_trade-sold :
    (id tenant_id buyer now : ℕ) (ts : List Trade) {t : Trade}
    → find_trade id tenant_id ts ≡ some t
    → is_listed t.status ≡ true
    → find_trade id tenant_id (modify_trades (is_open id) (sold buyer now) ts)
      ≡ some (sold buyer now t)
unfolding find_where modify_where
find_trade-sold id tenant_id buyer now [] h listed = cc
find_trade-sold id tenant_id buyer now (x ∷ xs) {t} h listed = elim (Bool-cases (x.id == id)) [
  | inr other ↦ rw (other, other) (find_trade-sold id tenant_id buyer now xs (rw other at h) listed)
  | inl same ↦ elim (Bool-cases (x.tenant_id == tenant_id)) [
    | inl own ↦
        let is : x ≡ t = ground (arith, h) in
        let open_ : is_listed x.status ≡ true = ap (λ y. is_listed y.status) is ∙ listed in
        rw (same, open_, same, own) (ap (λ y. some (sold buyer now y)) is)
    | inr foreign ↦ elim (Bool-cases (is_listed x.status)) [
      | inl open_ ↦
          rw (same, open_, same, foreign)
            (find_trade-sold id tenant_id buyer now xs (rw (same, foreign) at h) listed)
      | inr shut ↦
          rw (same, shut, same, foreign)
            (find_trade-sold id tenant_id buyer now xs (rw (same, foreign) at h) listed)
    ]
  ]
]

-- The receipt belongs to the buyer and is ACTIVE, and the trade is settled.
pub record IsSold (tenant_id receipt_id trade_id buyer now : ℕ) (t : Trade) (d : Db) : Type 0 where
  pub receipt : Receipt
  pub stands : find_first receipt_id tenant_id d.receipts ≡ some receipt
  pub owner : receipt.client_id ≡ buyer
  pub status : receipt.status ≡ ReceiptStatus.active
  pub trade : find_trade trade_id tenant_id d.trades ≡ some (sold buyer now t)

-- `withinTx` settles the trade, after the receipt has been written.
settle_within-sells :
    (tenant_id receipt_id trade_id buyer now : ℕ) (t : Trade) (y r : Receipt) (d : Db)
    → find_first receipt_id tenant_id d.receipts ≡ some y
    → y.client_id ≡ buyer
    → y.status ≡ ReceiptStatus.active
    → find_trade trade_id tenant_id d.trades ≡ some t
    → is_listed t.status ≡ true
    → Ensures
        (λ x after. IsSold tenant_id receipt_id trade_id buyer now t after)
        (settle_within trade_id buyer now r)
        d
unfolding settle_within
settle_within-sells tenant_id receipt_id trade_id buyer now t y r d stands owner status found
      listed =
    elim (Bool-cases (some_trade (is_open trade_id) d.trades)) [
      | inr gone ↦ record { holds = λ x after e. cc (rw (gone, settle_within) at e) }
      | inl there ↦ record {
        holds = λ x after e.
            subst
              (λ (p : Result (Unit {0}) × Db). elim p.0 [
                | ok u ↦ IsSold tenant_id receipt_id trade_id buyer now t p.1
                | err u ↦ Unit
              ])
              (rw (there, settle_within) at e)
              (record {
                receipt = y;
                stands = stands;
                owner = owner;
                status = status;
                trade = find_trade-sold trade_id tenant_id buyer now d.trades found listed;
              });
      }
    ]

-- the row that `transferAndRelease` writes
abbrev handed_over : ℕ → Receipt → Receipt
handed_over new_owner x = record x {
  client_id = new_owner;
  status = ReceiptStatus.active;
  approval_status = ApprovalStatus.approved;
}

-- What the work of the transaction ensures.
transfer_sells :
    (c : Call) (a : ActorCtx) (receipt_id trade_id buyer now : ℕ) (t : Trade) (d : Db)
    → find_trade trade_id a.tenant_id d.trades ≡ some t
    → is_listed t.status ≡ true
    → Ensures
        (λ x after. IsSold a.tenant_id receipt_id trade_id buyer now t after)
        (transfer_and_release_work c a receipt_id buyer TxnType.trade t.id
          (settle_within trade_id buyer now))
        d
unfolding transfer_and_release_work
transfer_sells c a receipt_id trade_id buyer now t d found listed = Ensures-lock _ _ _ d λ locked.
    Ensures-load _ _ _ d λ r there. Ensures-check _ _ d (assert_held-Checks r) λ held.
      Ensures-event c c.event_id _ _ d (
        Ensures-event c c.second_event_id _ _ _ (
          Ensures-update r.id _ _ _ λ x again.
            let id = find_first_id receipt_id a.tenant_id d.receipts there in
            let moved : find_first receipt_id a.tenant_id
                  (modify r.id (handed_over buyer) d.receipts)
                ≡ some (handed_over buyer r) =
              subst
                (λ k.
                  find_first receipt_id a.tenant_id (modify k (handed_over buyer) d.receipts)
                  ≡ some (handed_over buyer r))
                (sym id)
                (find_first-modify receipt_id a.tenant_id (handed_over buyer) d.receipts (λ y. refl)
                  (λ y. refl) there) in
            Ensures-bind _ _ _
              (settle_within-sells a.tenant_id receipt_id trade_id buyer now t (handed_over buyer r)
                _ _ moved refl refl found listed)
              λ u after sold_. Ensures-pure _ after sold_))

module _ (c : Call) (a : ActorCtx) (receipt_id trade_id buyer now : ℕ) (t : Trade) (d : Db)
    (fresh : find_event a.idempotency_key d.events ≡ none) (calm : c.aborted ≡ []) where
  abbrev Work : Tx Receipt
  Work =
      transfer_and_release_work c a receipt_id buyer TxnType.trade t.id
        (settle_within trade_id buyer now)

  abbrev Transfer : Tx Receipt
  Transfer =
      transfer_and_release c a receipt_id buyer TxnType.trade t.id
        (settle_within trade_id buyer now)

  transfer_and_release_sells :
      find_trade trade_id a.tenant_id d.trades ≡ some t
      → is_listed t.status ≡ true
      → Ensures (λ x after. IsSold a.tenant_id receipt_id trade_id buyer now t after) Transfer d
  unfolding transfer_and_release
  transfer_and_release_sells found listed =
      subst
        (λ xs.
          Ensures (λ x after. IsSold a.tenant_id receipt_id trade_id buyer now t after)
            (run_idempotent a.idempotency_key affected (with_serializable_tx xs Work)) d)
        (sym calm)
        (run_fresh-Ensures a.idempotency_key affected d fresh _
          (transfer_sells c a receipt_id trade_id buyer now t d found listed))

  transfer_and_release_restores : (e : Error) → (Transfer d).0 ≡ err e → (Transfer d).1 ≡ d
  unfolding transfer_and_release
  transfer_and_release_restores e =
      subst
        (λ xs.
          (run_idempotent a.idempotency_key affected (with_serializable_tx xs Work) d).0 ≡ err e
          → (run_idempotent a.idempotency_key affected (with_serializable_tx xs Work) d).1 ≡ d)
        (sym calm) (run_fresh_restores a.idempotency_key affected d fresh Work e)

load_trade-Grants :
    {N : Type 0} {Q : Trade → Desk N → Type 0} (tenant_id id : ℕ) (f : Trade → Act N Trade)
    (w : Desk N) (t : Trade)
    → find_trade id tenant_id w.ledger.trades ≡ some t
    → Grants Q (f t) w
    → Grants Q (load_trade tenant_id id >>= f) w
unfolding load_trade ask given
load_trade-Grants tenant_id id f w t found h = record {
  granted = λ a after e. h.granted a after (rw (found, given) at e);
}

not_settled : (s : TradeStatus) (b : Bool) → is_listed s ≡ true → is_settled s && b ≡ true → ⊥
not_settled TradeStatus.listed b h e = cc
not_settled _ b h e = cc

module _ {N : Type 0} (o : Outside N) (tenant_id id buyer : ℕ) (w : Desk N) (t : Trade)
    (fresh : find_event (key o (codes "TRADE:") t.id (codes ":transfer")) w.ledger.events ≡ none)
    (calm : o.call.aborted ≡ []) where
  -- What is shown of a sale.
  abbrev pub Sale : Desk N → Type 0
  Sale after =
      IsSold tenant_id t.receipt_id id buyer o.call.now t after.ledger
      × (t.seller_id == buyer ≡ false)
      × (has_id tenant_id (o.tenant_of buyer) ≡ true)

  sells :
      find_trade id tenant_id w.ledger.trades ≡ some t
      → is_listed t.status ≡ true
      → Grants (λ x after. Sale after) (settle_trade o tenant_id id buyer) w
  unfolding settle_trade transfer_and_release
  sells found listed = load_trade-Grants tenant_id id _ w t found (
      refuse_if-Grants _ _ _ w λ other.
        branch-Grants _ _ _ w (λ again. absurd (not_settled t.status _ listed again))
          λ first. refuse_if-Grants _ _ _ w λ open_. refuse_if-Grants _ _ _ w λ known.
            on_ledger-Grants _ w (λ r d sold_. answer-Grants _ _ (sold_, other, negated _ known)) _
              (transfer_and_release_sells o.call _ t.receipt_id id buyer o.call.now t w.ledger fresh
                calm found listed))

  load_trade-Undone :
      (f : Trade → Act N Trade)
      → find_trade id tenant_id w.ledger.trades ≡ some t
      → Undone (f t) w
      → Undone (load_trade tenant_id id >>= f) w
  unfolding load_trade ask given
  load_trade-Undone f found h = record { undone = λ e. rw (found, given) (h.undone e) }

  undoes :
      find_trade id tenant_id w.ledger.trades ≡ some t
      → Undone (settle_trade o tenant_id id buyer) w
  unfolding settle_trade answer
  undoes found = load_trade-Undone _ found (
      refuse_if-Undone _ _ _ w λ other. branch-Undone _ _ _ w (answer-Undone t w) (
        refuse_if-Undone _ _ _ w λ open_. refuse_if-Undone _ _ _ w λ known.
          on_ledger-Undone _ w (λ r w' e same. cc) _
            (transfer_and_release_restores o.call _ t.receipt_id id buyer o.call.now t w.ledger
              fresh calm)))

-- A trade is found and LISTED, no event has the key of its transfer, and no attempt of the transaction is
-- aborted. Then the sale takes effect as a whole or not at all. When `settleTrade` answers, the receipt of
-- the trade is in the tables, belongs to the buyer and is ACTIVE, the trade is SETTLED with this buyer,
-- the buyer is a user of the tenant and is not the seller. When it refuses, every table is as before.
pub settle_trade_whole :
    {N : Type 0} (o : Outside N) (tenant_id id buyer : ℕ) (w : Desk N) (t : Trade)
    → find_trade id tenant_id w.ledger.trades ≡ some t
    → is_listed t.status ≡ true
    → find_event (key o (codes "TRADE:") t.id (codes ":transfer")) w.ledger.events ≡ none
    → o.call.aborted ≡ []
    → ((x : Trade) (after : Desk N)
        → settle_trade o tenant_id id buyer w ≡ (done x, after)
        → IsSold tenant_id t.receipt_id id buyer o.call.now t after.ledger
          × (t.seller_id == buyer ≡ false)
          × (has_id tenant_id (o.tenant_of buyer) ≡ true))
      × ((e : Refusal)
          → (settle_trade o tenant_id id buyer w).0 ≡ failed e
          → (settle_trade o tenant_id id buyer w).1 ≡ w)
settle_trade_whole o tenant_id id buyer w t found listed fresh calm = (
  (sells o tenant_id id buyer w t fresh calm found listed).granted,
  (undoes o tenant_id id buyer w t fresh calm found).undone,
)
