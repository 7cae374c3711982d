-- ===== src/Finance.antt =====
-- core/api/routes/finance_api.py: expenses and refunds. A body is what pydantic has read in it;
-- Finance.Reports has the routes that only read.
pub mod Totals
pub mod Refunds
pub mod Restock
pub mod Expenses
pub mod Agrees
pub mod Reports
pub mod Gross
pub mod Newest
pub mod Transactions
pub mod Requests
use tgc_bus_core.Base.{
  ℕ, ◌+◌, ◌*◌, ◌^◌, String, Bool, true, false, not, ◌&&◌, ◌||◌, Option, none, some, List, [], ◌∷◌,
  ◌++◌, map, ltb, ◌==◌, ◌=ₛ◌, if◌then◌else◌, keep, get_or, is_some, str,
}
use tgc_bus_core.Base.Int.{ℤ, pos, neg, pos_part, neg_part, ltb_ℤ}
use tgc_bus_core.Tables.{find_row}
use tgc_bus_core.Decimal.{Decimal, Number, of_nat, add, mul, div, quantize}
use tgc_bus_core.Effects.{
  Error, http, decimal_error, transaction_begun, Result, ok, err, Action, Env, pure, raise_if, gets,
  lift, or_raise, of_option, commit, ◌then_do◌, ◌>>=◌, ◌>>◌,
}
use tgc_bus_core.Metric.{normalize_quantity_to_base_int}
use tgc_bus_core.StockTables.{Item, ItemMovement, CashEvent, SourceId, StockSession}
use tgc_bus_core.StockMutation.{StockState, on_session, add_cash_event, perform_stock_in_base}
use tgc_bus_core.StockRoutes.{in_transaction, raise_again}
use tgc_bus_core.QuantityGuard.{Json, reject_legacy_qty_keys}

-- `abs` of an integer.
abbrev pub magnitude : ℤ → ℕ
magnitude n = pos_part n + neg_part n

-- The truth of a text that may be None.
abbrev pub is_given : Option String → Bool
is_given none = false
is_given (some s) = not (s =ₛ "")

-- What stands in the column of a text: the id of a run is written in digits.
unfoldable pub is_source : String → Option SourceId → Bool
is_source text none = false
is_source text (some (SourceId.text s)) = s =ₛ text
is_source text (some (SourceId.run n)) = str n =ₛ text

abbrev pub is_taken : ItemMovement → Bool
is_taken m = ltb_ℤ m.qty_change (pos 0)

pub record ExpenseIn : Type 0 where
  pub amount_cents : ℕ
  pub category : Option String
  pub notes : Option String
  pub created_at : Option ℕ

pub record RefundIn : Type 0 where
  pub item_id : ℕ
  pub refund_amount_cents : ℕ
  pub quantity_decimal : Number
  pub uom : String
  pub restock_inventory : Bool
  pub related_source_id : Option String
  pub restock_unit_cost_cents : Option ℤ
  pub category : Option String
  pub notes : Option String
  pub created_at : Option ℕ

unfoldable pub expense_event : Env → ExpenseIn → ℕ → CashEvent
expense_event env body id = record {
  id = id;
  kind = "expense";
  category = body.category;
  amount_cents = neg body.amount_cents;
  item_id = none;
  qty_base = none;
  unit_price_cents = none;
  source_kind = some "expense";
  source_id = none;
  related_source_id = none;
  notes = body.notes;
  created_at = get_or body.created_at env.now;
}

unfoldable pub finance_expense : Env → ExpenseIn → Action StockSession ℕ
finance_expense env body = do id ← add_cash_event env (expense_event env body); commit; pure id

-- The sums of `for m in rows: …`: the quantity, and its cost.
unfoldable pub add_taken : List ItemMovement → Decimal → Decimal → Decimal × Decimal
add_taken [] total_qty total_cost = (total_qty, total_cost)
add_taken (m ∷ rows) total_qty total_cost =
    add_taken rows (add total_qty (of_nat (magnitude m.qty_change)))
      (add total_cost (mul (of_nat (magnitude m.qty_change)) (of_nat m.unit_cost_cents)))

-- int((total_cost / total_qty).quantize(Decimal("1"), rounding=ROUND_HALF_UP))
unfoldable pub mean_cost : Decimal × Decimal → Result ℕ
mean_cost (total_qty, total_cost) =
    if total_qty.coeff == 0
    then err (http 400 "related_source_id_has_zero_qty")
    else (of_option (div total_cost total_qty) decimal_error then_do λ mean.
        of_option (quantize mean) decimal_error)

-- The weighted mean of the unit costs of a sale's movements.
unfoldable pub mean_unit_cost : List ItemMovement → Result ℕ
mean_unit_cost [] = err (http 400 "related_source_id_not_found_for_item")
mean_unit_cost (m ∷ rows) = mean_cost (add_taken (m ∷ rows) (of_nat 0) (of_nat 0))

-- The query for the movements of the sale.
unfoldable pub sale_movements : ℕ → String → List ItemMovement → List ItemMovement
sale_movements item_id related_source_id =
    keep (λ m. m.item_id == item_id && is_source related_source_id m.source_id && is_taken m)

abbrev pub as_cents : ℤ → Number
as_cents n = Number.finite (ltb_ℤ n (pos 0)) (magnitude n) 0

abbrev pub given_or_none : Option String → Option String
given_or_none s = if is_given s then s else none

unfoldable pub refund_event : Env → RefundIn → ℕ → ℕ → CashEvent
refund_event env body qty_base id = record {
  id = id;
  kind = "refund";
  category = body.category;
  amount_cents = neg body.refund_amount_cents;
  item_id = some body.item_id;
  qty_base = some qty_base;
  unit_price_cents = none;
  source_kind = some "refund";
  source_id = some env.new_token;
  related_source_id = given_or_none body.related_source_id;
  notes = body.notes;
  created_at = get_or body.created_at env.now;
}

-- The unit cost of what comes back. `int(None)` cannot be reached.
unfoldable pub restock_unit_cost : RefundIn → Action StockSession Number
restock_unit_cost body =
    if is_given body.related_source_id
    then (do
      rows ←
          gets (λ s.
            sale_movements body.item_id (get_or body.related_source_id "") s.flushed.movements)
      unit_cost_cents ← lift (mean_unit_cost rows)
      pure (Number.finite false unit_cost_cents 0))
    else pure (as_cents (get_or body.restock_unit_cost_cents (pos 0)))

unfoldable pub restock : Env → RefundIn → ℕ → Action StockState (Unit {0})
restock env body qty_base = do
  unit_cost_cents ← on_session (restock_unit_cost body)
  perform_stock_in_base env body.item_id (pos qty_base) (some unit_cost_cents) (some env.new_token)
      (some "refund_restock") (some env.new_token)
  pure tt

-- `qty_base <= 0`
unfoldable pub require_positive : ℤ → Result ℕ
require_positive n =
    if ltb_ℤ (pos 0) n then ok (pos_part n) else err (http 400 "quantity_decimal must be > 0")

-- The body of `with db.begin()`.
unfoldable pub refund : Env → RefundIn → Action StockState String
refund env body = do
  found ← gets (λ t. find_row (λ i. i.id) body.item_id t.session.rows.items)
  item ← or_raise found (http 404 "item_not_found")
  quantity ← lift (normalize_quantity_to_base_int body.quantity_decimal body.uom item.dimension)
  qty_base ← lift (require_positive quantity)
  on_session (add_cash_event env (refund_event env body qty_base))
  if body.restock_inventory then restock env body qty_base else pure tt
  pure env.new_token

abbrev pub lacks_cost : RefundIn → Bool
lacks_cost body =
    body.restock_inventory
    && not (is_given body.related_source_id)
    && not (is_some body.restock_unit_cost_cents)

-- `begun`: the session has read something for this request before, as `require_permission` does
-- where the system is claimed.
unfoldable pub finance_refund : Env → Bool → Json → RefundIn → Action StockState String
finance_refund env begun raw body = do
  lift (reject_legacy_qty_keys raw)
  raise_if (lacks_cost body) (http 400 "restock_unit_cost_required_without_related_source_id")
  raise_if begun transaction_begun
  in_transaction raise_again (refund env body)
