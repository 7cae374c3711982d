-- ===== src/Finance/Reports.antt =====
-- core/api/routes/finance_api.py: profit and summary over a window of days.
use tgc_bus_core.Base.{
  ℕ, ◌+◌, String, Bool, ◌&&◌, Option, List, [], ◌∷◌, map, ltb, ◌==◌, ◌=ₛ◌, if◌then◌else◌, keep,
  length,
}
use tgc_bus_core.Base.Int.{ℤ, pos, pos_part, ◌+ℤ◌, ◌-ℤ◌, ltb_ℤ}
use tgc_bus_core.Tables.{order_by}
use tgc_bus_core.Decimal.{Decimal}
use tgc_bus_core.Effects.{http, Result, ok, err, of_option, ◌then_do◌}
use tgc_bus_core.StockTables.{Item, ItemMovement}
use tgc_bus_core.StockMutation.{basis_uom_for_item}
use tgc_bus_core.Finance.{magnitude, is_taken}
use tgc_bus_core.Finance.Totals.{
  RunRow, Books, human_qty_from_base, Window, in_window, window_of, item_of, Totals, totals_in,
  is_among, cost_of_moves, moves_of,
}

pub record Profit : Type 0 where
  pub gross_sales_cents : ℤ
  pub returns_cents : ℤ
  pub net_sales_cents : ℤ
  pub cogs_cents : ℕ
  pub gross_profit_cents : ℤ

unfoldable pub profit_of : Totals → ℕ → Profit
profit_of t cogs_cents = record {
  gross_sales_cents = t.gross_sales_cents;
  returns_cents = t.returns_cents;
  net_sales_cents = t.gross_sales_cents +ℤ t.returns_cents;
  cogs_cents = cogs_cents;
  gross_profit_cents = (t.gross_sales_cents +ℤ t.returns_cents) -ℤ pos cogs_cents;
}

-- An entry of `units_produced` or `units_sold`, its quantity before it is printed.
pub record UnitsLine : Type 0 where
  pub item_id : ℕ
  pub quantity_decimal : Decimal
  pub uom : String

pub record Summary : Type 0 where
  pub profit : Profit
  pub expenses_cents : ℕ
  pub net_profit_cents : ℤ
  pub runs_count : ℕ
  pub units_produced : List UnitsLine
  pub units_sold : List UnitsLine

unfoldable pub summary_of : Totals → ℕ → ℕ → List UnitsLine → List UnitsLine → Summary
summary_of t cogs_cents runs_count units_produced units_sold =
    let profit = profit_of t cogs_cents in
    record {
      profit = profit;
      expenses_cents = t.expenses_cents;
      net_profit_cents = profit.gross_profit_cents -ℤ pos t.expenses_cents;
      runs_count = runs_count;
      units_produced = units_produced;
      units_sold = units_sold;
    }

-- d[item_id] = d.get(item_id, 0) + units
unfoldable pub add_units : ℕ → ℕ → List (ℕ × ℕ) → List (ℕ × ℕ)
add_units item_id units [] = (item_id, units) ∷ []
add_units item_id units ((i, n) ∷ d) =
    if i == item_id then (i, n + units) ∷ d else (i, n) ∷ add_units item_id units d

unfoldable pub tally_sold : List ItemMovement → List (ℕ × ℕ) → List (ℕ × ℕ)
tally_sold [] d = d
tally_sold (m ∷ moves) d = tally_sold moves (add_units m.item_id (magnitude m.qty_change) d)

-- Runs without output are passed over.
unfoldable pub tally_produced : List RunRow → List (ℕ × ℕ) → List (ℕ × ℕ)
tally_produced [] d = d
tally_produced (r ∷ rows) d = tally_produced rows (
    if ltb_ℤ (pos 0) r.run.output_qty
    then add_units r.run.output_item_id (pos_part r.run.output_qty) d
    else d)

-- `_qty_payload`
unfoldable pub qty_lines : List Item → List (ℕ × ℕ) → Result (List UnitsLine)
qty_lines items [] = ok []
qty_lines items ((item_id, units) ∷ d) = item_of items item_id then_do λ item.
    basis_uom_for_item item then_do λ basis_uom. human_qty_from_base units item then_do λ quantity.
    qty_lines items d then_do λ rest.
    ok (record { item_id = item_id; quantity_decimal = quantity; uom = basis_uom } ∷ rest)

unfoldable pub qty_payload : List Item → List (ℕ × ℕ) → Result (List UnitsLine)
unfolding qty_lines
qty_payload items d = qty_lines items (order_by (λ a b. ltb a.0 b.0) d)

abbrev pub is_sold : ItemMovement → Bool
is_sold m = is_taken m && m.source_kind =ₛ "sold"

abbrev pub sold_in : Window → Books → List ItemMovement
sold_in w books =
    map (λ r. r.move) (keep (λ r. in_window w r.created_at && is_sold r.move) books.movements)

abbrev pub runs_in : Window → Books → List RunRow
runs_in w books = keep (λ r. in_window w r.created_at) books.runs

-- `finance_profit`, in its window: movements of the sales, of every kind.
unfoldable pub profit_in : Window → Books → Result Profit
profit_in w books =
    let t = totals_in w books in
    let moves = keep (λ m. is_among t.sale_source_ids m.source_id && is_taken m) (moves_of books) in
    cost_of_moves books.items moves 0 then_do λ cogs_cents. ok (profit_of t cogs_cents)

-- `finance_summary`, in its window.
unfoldable pub summary_in : Window → Books → Result Summary
summary_in w books =
    let t = totals_in w books in
    let moves = keep (λ m. is_among t.sale_source_ids m.source_id && is_sold m) (moves_of books) in
    let runs = runs_in w books in
    cost_of_moves books.items moves 0 then_do λ cogs_cents.
    qty_payload books.items (tally_produced runs []) then_do λ units_produced.
    qty_payload books.items (tally_sold (sold_in w books) []) then_do λ units_sold.
    ok (summary_of t cogs_cents (length runs) units_produced units_sold)

-- `parse_date` is `datetime.strptime(text, "%Y-%m-%d").date()`, where it does not raise.
module _ (parse_date : String → Option ℕ) where
  unfoldable pub parse_window : String → String → Result Window
  parse_window from to =
      of_option (parse_date from) (http 400 "invalid_date_format_expected_YYYY_MM_DD")
      then_do λ from_date.
          of_option (parse_date to) (http 400 "invalid_date_format_expected_YYYY_MM_DD")
          then_do λ to_date. window_of from_date to_date

  -- `_parse_window_read`, with the answer that its callers make of its error.
  unfoldable pub parse_window_read : String → String → Result Window
  parse_window_read from to =
      of_option (parse_date from) (http 400 "invalid_date_format") then_do λ from_date.
      of_option (parse_date to) (http 400 "invalid_date_format") then_do λ to_date.
      if ltb to_date from_date
      then err (http 400 "invalid_date_range")
      else window_of from_date to_date

  unfoldable pub finance_profit : String → String → Books → Result Profit
  finance_profit from to books = parse_window from to then_do λ w. profit_in w books

  unfoldable pub finance_summary : String → String → Books → Result Summary
  finance_summary from to books = parse_window_read from to then_do λ w. summary_in w books
