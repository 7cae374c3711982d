-- ===== src/StockMutation/Stable.antt =====
-- What the operations of the ledger keep, stock in, stock out and purchases keep.
use tgc_bus_core.Base.{ℕ, ◌≡◌, ltb, String, Option, List, [], ◌∷◌, Bool-cases, inl, inr, ◌==◌}
use tgc_bus_core.Base.Int.{ℤ}
use tgc_bus_core.Decimal.{Number}
use tgc_bus_core.Effects.{Env, GivesFreshKeys, flush}
use tgc_bus_core.Effects.Keeps.{Keeps, Leads-bind, keeps_rules}
use tgc_bus_core.StockTables.{SourceId, CashEvent, ItemBatch, StockDb, StockSession}
use tgc_bus_core.Ledger.{fifo_consume, finish_consume, consume_loop, on_hand_qty, add_batch}
use tgc_bus_core.Ledger.Keyed.{Keyed, Keyed-fifo_consume, Keyed-add_batch}
use tgc_bus_core.StockMutation.{
  StockOutMeta, add_cash_event, perform_stock_in_base, sell, take_out, perform_stock_out_base,
}
use tgc_bus_core.StockMutation.Balance.{OfSession, Leads-on_session, Keeps-append_journal}
use tgc_bus_core.Purchases.{
  PurchaseLine, PreparedLine, PurchaseInfo, buy_line, buy_lines, perform_purchase_base,
}
use tgc_bus_core.Purchases.Balance.{prepare_lines-Keeps}

pub record IsStable (env : Env) (P : StockSession → Type 0) : Type 0 where
  pub adds :
      (item_id qty cost : ℕ) (kind : String) (source : Option SourceId)
      → Keeps P (add_batch env item_id qty cost kind source)
  pub consumes :
      (item_id : ℕ) (kind : String) (source : Option SourceId) (qty : ℕ)
      → Keeps P (fifo_consume item_id kind source qty)
  pub records : (event_of : ℕ → CashEvent) → Keeps P (add_cash_event env event_of)
  pub flushes : Keeps P flush

module _ {env : Env} {P : StockSession → Type 0} (stable : IsStable env P) where
  Keeps-adds :
      (item_id qty cost : ℕ) (kind : String) (source : Option SourceId)
      → Keeps P (add_batch env item_id qty cost kind source)
  Keeps-adds = stable.adds

  Keeps-consumes :
      (item_id : ℕ) (kind : String) (source : Option SourceId) (qty : ℕ)
      → Keeps P (fifo_consume item_id kind source qty)
  Keeps-consumes = stable.consumes

  Keeps-records : (event_of : ℕ → CashEvent) → Keeps P (add_cash_event env event_of)
  Keeps-records = stable.records

  Keeps-flushes : Keeps P flush
  Keeps-flushes = stable.flushes

  ruleset stable_rules = (
    keeps_rules, Leads-on_session, Keeps-append_journal, Keeps-adds, Keeps-consumes, Keeps-records,
    Keeps-flushes,
  )

  pub Keeps-stock_in :
      (item_id : ℕ) (qty : ℤ) (cost : Option Number) (ref kind source : Option String)
      → Keeps (OfSession P) (perform_stock_in_base env item_id qty cost ref kind source)
  unfolding perform_stock_in_base
  Keeps-stock_in item_id qty cost ref kind source = search stable_rules depth 9

  Keeps-sell :
      (item_id qty : ℕ) (ref : Option String) (meta : StockOutMeta) (reason : String)
      → Keeps P (sell env item_id qty ref meta reason)
  unfolding sell
  Keeps-sell item_id qty ref meta reason = search stable_rules depth 16

  Keeps-take_out :
      (item_id qty : ℕ) (ref : Option String) (meta : StockOutMeta) (reason : String)
      → Keeps P (take_out env item_id qty ref meta reason)
  unfolding take_out
  Keeps-take_out item_id qty ref meta reason = search (stable_rules, Keeps-sell) depth 9

  pub Keeps-stock_out :
      (item_id : ℕ) (qty : ℤ) (ref : Option String) (meta : StockOutMeta)
      → Keeps (OfSession P) (perform_stock_out_base env item_id qty ref meta)
  unfolding perform_stock_out_base
  Keeps-stock_out item_id qty ref meta = search (stable_rules, Keeps-take_out) depth 9

  Keeps-buy_line :
      (info : PurchaseInfo) (source_id : String) (line : PreparedLine)
      → Keeps (OfSession P) (buy_line env info source_id line)
  unfolding buy_line
  Keeps-buy_line info source_id line = search stable_rules depth 12

  Keeps-buy_lines :
      (info : PurchaseInfo) (source_id : String) (lines : List PreparedLine)
      → Keeps (OfSession P) (buy_lines env info source_id lines)
  unfolding buy_lines
  Keeps-buy_lines info source_id [] = search keeps_rules
  Keeps-buy_lines info source_id (line ∷ lines) =
      Leads-bind _ _ (Keeps-buy_line info source_id line) (λ bought.
        Leads-bind _ _ (Keeps-buy_lines info source_id lines) (λ rest. search keeps_rules))

  pub Keeps-purchase :
      (info : PurchaseInfo) (lines : List PurchaseLine)
      → Keeps (OfSession P) (perform_purchase_base env info lines)
  unfolding perform_purchase_base
  Keeps-purchase info lines = search (keeps_rules, prepare_lines-Keeps, Keeps-buy_lines) depth 12

pub Keyed-stable : (env : Env) → GivesFreshKeys env → IsStable env Keyed
Keyed-stable env new = record {
  adds = Keyed-add_batch env new;
  consumes = Keyed-fifo_consume;
  records = λ e. record { at = λ s h. h };
  flushes = record { at = λ s h. h };
}

-- None of the operations commits.
unfoldable pub Commits : StockDb → StockSession → Type 0
Commits d s = s.committed ≡ d

Commits-finish :
    (d : StockDb) (item_id : ℕ) (kind : String) (source : Option SourceId) (qty avail : ℕ)
    (bs : List ItemBatch)
    → Keeps (Commits d) (finish_consume item_id kind source qty avail bs)
unfolding finish_consume Commits
Commits-finish d item_id kind source qty avail bs = record {
  at = λ s h. elim (Bool-cases (ltb 0 (consume_loop item_id kind source bs qty s.rows).remaining)) [
    | inl short ↦ rw short h
    | inr enough ↦ rw enough h
  ];
}

Commits-fifo_consume :
    (d : StockDb) (item_id : ℕ) (kind : String) (source : Option SourceId) (qty : ℕ)
    → Keeps (Commits d) (fifo_consume item_id kind source qty)
unfolding fifo_consume on_hand_qty
Commits-fifo_consume d item_id kind source qty = search (keeps_rules, Commits-finish) depth 12

Commits-add_batch :
    (d : StockDb) (env : Env) (item_id qty cost : ℕ) (kind : String) (source : Option SourceId)
    → Keeps (Commits d) (add_batch env item_id qty cost kind source)
unfolding add_batch Commits
Commits-add_batch d env item_id qty cost kind source = elim (Bool-cases (qty == 0)) [
  | inl nothing ↦ rw nothing (record { at = λ s h. h })
  | inr more ↦ rw more (record { at = λ s h. h })
]

pub Commits-stable : (env : Env) (d : StockDb) → IsStable env (Commits d)
unfolding Commits
Commits-stable env d = record {
  adds = Commits-add_batch d env;
  consumes = Commits-fifo_consume d;
  records = λ e. record { at = λ s h. h };
  flushes = record { at = λ s h. h };
}
