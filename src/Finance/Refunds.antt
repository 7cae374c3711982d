-- ===== src/Finance/Refunds.antt =====
-- core/api/routes/finance_api.py: what a refund leaves in the database.
use tgc_bus_core.Base.{ℕ, String, Bool, Option}
use tgc_bus_core.Base.Int.{ℤ}
use tgc_bus_core.Decimal.{Number}
use tgc_bus_core.Effects.{Env, GivesFreshKeys, http, transaction_begun, lift, raise_if}
use tgc_bus_core.Effects.Keeps.{Leads, Keeps, Keeps-lift, Keeps-raise_if, keeps_rules}
use tgc_bus_core.StockTables.{CashEvent, StockDb, StockSession}
use tgc_bus_core.StockMutation.{add_cash_event, perform_stock_in_base}
use tgc_bus_core.StockMutation.Balance.{
  Balanced, OfSession, Leads-on_session, Keeps-add_cash_event, perform_stock_in_base-Keeps,
}
use tgc_bus_core.StockMutation.Stable.{IsStable, Keeps-stock_in, Keyed-stable, Commits-stable}
use tgc_bus_core.StockRoutes.{raise_again}
use tgc_bus_core.StockRoutes.Serve.{Started, Ended, Leads-all, Leads-in_transaction, Leads-before}
use tgc_bus_core.StockRoutes.Refused.{Undoes, Undoes-in_transaction, Undoes-before}
use tgc_bus_core.Finance.{RefundIn, lacks_cost, restock_unit_cost, restock, refund, finance_refund}
use tgc_bus_core.QuantityGuard.{Json, reject_legacy_qty_keys}

Keeps-restock_unit_cost :
    {P : StockSession → Type 0} (body : RefundIn) → Keeps P (restock_unit_cost body)
unfolding restock_unit_cost
Keeps-restock_unit_cost body = search keeps_rules depth 9

-- A refund keeps what a stock in and the recording of a cash event keep.
module _ (env : Env) {P : StockSession → Type 0}
    (stocks : (item_id : ℕ) (qty : ℤ) (cost : Option Number) (ref kind source : Option String)
      → Keeps (OfSession P) (perform_stock_in_base env item_id qty cost ref kind source))
    (records : (event_of : ℕ → CashEvent) → Keeps P (add_cash_event env event_of)) where
  Keeps-stocks :
      (item_id : ℕ) (qty : ℤ) (cost : Option Number) (ref kind source : Option String)
      → Keeps (OfSession P) (perform_stock_in_base env item_id qty cost ref kind source)
  Keeps-stocks = stocks

  Keeps-records : (event_of : ℕ → CashEvent) → Keeps P (add_cash_event env event_of)
  Keeps-records = records

  ruleset refund_rules = (keeps_rules, Leads-on_session, Keeps-stocks, Keeps-records)

  Keeps-restock : (body : RefundIn) (qty : ℕ) → Keeps (OfSession P) (restock env body qty)
  unfolding restock
  Keeps-restock body qty = search (refund_rules, Keeps-restock_unit_cost) depth 9

  Keeps-refund : (body : RefundIn) → Keeps (OfSession P) (refund env body)
  unfolding refund
  Keeps-refund body = search (refund_rules, Keeps-restock) depth 16

module _ (env : Env) where
  Balanced-refund : (body : RefundIn) → Keeps (OfSession Balanced) (refund env body)
  Balanced-refund = Keeps-refund env (perform_stock_in_base-Keeps env) (Keeps-add_cash_event env)

  stable-refund :
      {P : StockSession → Type 0}
      → IsStable env P
      → (body : RefundIn) → Keeps (OfSession P) (refund env body)
  stable-refund stable = Keeps-refund env (Keeps-stock_in stable) stable.records

  module _ (begun : Bool) (raw : Json) (body : RefundIn) where
    pub Leads-finance_refund :
        GivesFreshKeys env
        → Leads (OfSession Started) (OfSession Ended) (finance_refund env begun raw body)
    unfolding finance_refund
    Leads-finance_refund new =
        search
          (
            Leads-before,
            Leads-in_transaction,
            Keeps-lift,
            Keeps-raise_if,
            Leads-all (refund env body) (record { at = λ t h. (Balanced-refund body).at t h.1 })
                (stable-refund (Keyed-stable env new) body)
                (λ d. stable-refund (Commits-stable env d) body),
          )
          depth 9

    pub Undoes-finance_refund : (d : StockDb) → Undoes d (finance_refund env begun raw body)
    unfolding finance_refund
    Undoes-finance_refund d =
        Undoes-before d (lift (reject_legacy_qty_keys raw)) _ (Keeps-lift _) (λ passed.
          Undoes-before d
            (raise_if (lacks_cost body)
              (http 400 "restock_unit_cost_required_without_related_source_id"))
            _ (Keeps-raise_if _ _)
            (λ costed.
              Undoes-before d (raise_if begun transaction_begun) _ (Keeps-raise_if _ _) (λ idle.
                Undoes-in_transaction d raise_again _ (stable-refund (Commits-stable env d) body))))
