-- ===== src/Finance/Totals.antt =====
-- core/api/routes/finance_api.py: the rows that the reports read, their window and their totals.
use tgc_bus_core.Base.{
  ℕ, ◌+◌, ◌*◌, String, Bool, ◌&&◌, Option, none, some, List, [], ◌∷◌, ◌++◌, map, ltb, leb, ◌==◌,
  ◌=ₛ◌, if◌then◌else◌, keep, any,
}
use tgc_bus_core.Base.Int.{ℤ, pos, ◌+ℤ◌}
use tgc_bus_core.Tables.{find_row}
use tgc_bus_core.Decimal.{Decimal, of_nat, mul, div, quantize}
use tgc_bus_core.Effects.{
  http, decimal_error, overflow_error, Result, ok, err, of_option, ◌then_do◌,
}
use tgc_bus_core.Metric.{uom_multiplier}
use tgc_bus_core.StockTables.{Item, ItemMovement, CashEvent, ManufacturingRun, SourceId}
use tgc_bus_core.StockMutation.{basis_uom_for_item}
use tgc_bus_core.Finance.{magnitude, is_source}

-- Rows with the columns that only reports read; `costs` is what the JSON of a run's `meta` gives
-- for `cost_inputs_cents` and `per_output_cents`.
pub record MovementRow : Type 0 where
  pub id : ℕ
  pub move : ItemMovement
  pub created_at : ℕ

pub record RunRow : Type 0 where
  pub run : ManufacturingRun
  pub created_at : ℕ
  pub costs : ℕ × ℕ

-- What a query of a report sees.
pub record Books : Type 0 where
  pub items : List Item
  pub cash_events : List CashEvent
  pub movements : List MovementRow
  pub runs : List RunRow

-- `_human_qty_from_base`; the code of `_basis_uom_for_item` is that of the stock mutations.
unfoldable pub human_qty_from_base : ℕ → Item → Result Decimal
human_qty_from_base qty_base item = basis_uom_for_item item then_do λ basis_uom.
    let mult = uom_multiplier item.dimension basis_uom in
    if mult == 0
    then err (http 400 "invalid_uom_multiplier")
    else of_option (div (of_nat qty_base) (of_nat mult)) decimal_error

-- `_line_cost_cents`
unfoldable pub line_cost_cents : ℕ → ℕ → Item → Result ℕ
line_cost_cents unit_cost_cents qty_base item =
    human_qty_from_base qty_base item then_do λ human_qty.
    of_option (quantize (mul (of_nat unit_cost_cents) human_qty)) decimal_error

-- Times count microseconds from the start of day 0; dates count days.
abbrev pub midnight : ℕ → ℕ
midnight day = day * 86_400_000_000

-- `to_date + timedelta(days=1)`, which raises past 9999-12-31.
unfoldable pub next_day : ℕ → Result ℕ
next_day day = if leb 3_652_059 day then err overflow_error else ok (day + 1)

-- A window of times, its end exclusive.
pub record Window : Type 0 where
  pub from_dt : ℕ
  pub to_dt : ℕ

abbrev pub in_window : Window → ℕ → Bool
in_window w t = leb w.from_dt t && ltb t w.to_dt

unfoldable pub window_of : ℕ → ℕ → Result Window
window_of from_date to_date = next_day to_date then_do λ to_next.
    ok (record { from_dt = midnight from_date; to_dt = midnight to_next })

-- What `_item_cache_get` finds. A row read once is the session's object for its key, so the cache
-- in front of it changes no answer.
unfoldable pub item_of : List Item → ℕ → Result Item
unfolding find_row
item_of items item_id = of_option (find_row (λ i. i.id) item_id items) (http 400 "item_not_found")

-- The sums of the loop over the cash events.
pub record Totals : Type 0 where
  pub gross_sales_cents : ℤ
  pub returns_cents : ℤ
  pub expenses_cents : ℕ
  pub sale_source_ids : List String

abbrev pub source_ids : Option String → List String
source_ids none = []
source_ids (some s) = if s =ₛ "" then [] else s ∷ []

unfoldable pub count_event : CashEvent → Totals → Totals
count_event e t =
    if e.kind =ₛ "sale"
    then record t {
      gross_sales_cents = t.gross_sales_cents +ℤ e.amount_cents;
      sale_source_ids = t.sale_source_ids ++ source_ids e.source_id;
    }
    else if e.kind =ₛ "refund"
    then record t { returns_cents = t.returns_cents +ℤ e.amount_cents }
    else if e.kind =ₛ "expense"
    then record t { expenses_cents = t.expenses_cents + magnitude e.amount_cents }
    else t

unfoldable pub count_events : List CashEvent → Totals → Totals
count_events [] t = t
count_events (e ∷ events) t = count_events events (count_event e t)

abbrev pub no_totals : Totals
no_totals = record {
  gross_sales_cents = pos 0;
  returns_cents = pos 0;
  expenses_cents = 0;
  sale_source_ids = [];
}

abbrev pub totals_in : Window → Books → Totals
totals_in w books = count_events (keep (λ e. in_window w e.created_at) books.cash_events) no_totals

-- ItemMovement.source_id.in_(…)
unfoldable pub is_among : List String → Option SourceId → Bool
is_among sources source = any (λ s. is_source s source) sources

-- The loop over the movements of the sales.
unfoldable pub cost_of_moves : List Item → List ItemMovement → ℕ → Result ℕ
cost_of_moves items [] cogs_cents = ok cogs_cents
cost_of_moves items (m ∷ moves) cogs_cents = item_of items m.item_id then_do λ item.
    line_cost_cents m.unit_cost_cents (magnitude m.qty_change) item then_do λ line_cost.
    cost_of_moves items moves (cogs_cents + line_cost)

abbrev pub moves_of : Books → List ItemMovement
moves_of books = map (λ r. r.move) books.movements
