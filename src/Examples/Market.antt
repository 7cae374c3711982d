-- ===== src/Examples/Market.antt =====
-- A day at the counter of the shop: a sale, an expense, a refund, and what the reports say of it.
use tgc_bus_core.Base.{
  ℕ, ◌+◌, ◌≡◌, refl, arith, String, true, false, Option, none, some, List, [], ◌∷◌, ◌++◌, map,
  length, ◌≤◌, if◌then◌else◌, ◌=ₛ◌, All,
}
use tgc_bus_core.Base.Int.{pos, neg, ◌+ℤ◌, ◌-ℤ◌, sum_ℤ}
use tgc_bus_core.Decimal.{Number, add, div, fix, mul, quantize, half_up, shift_of, digit_count}
use tgc_bus_core.Effects.{Error, http, ok, err, fresh}
use tgc_bus_core.StockTables.{ItemMovement, CashEvent, SourceId, StockSession}
use tgc_bus_core.StockRoutes.Requests.{begin}
use tgc_bus_core.QuantityGuard.{reject_legacy_qty_keys, find_legacy_qty_keys, walk, refuse_keys}
use tgc_bus_core.StockRoutes.{in_transaction}
use tgc_bus_core.StockMutation.{basis_uom_for_item}
use tgc_bus_core.Metric.{uom_multiplier, normalize_quantity_to_base_int, scale_to_int}
use tgc_bus_core.Tables.{find_row, order_by}
use tgc_bus_core.Finance.{
  RefundIn, ExpenseIn, sale_movements, restock_unit_cost, finance_expense, finance_refund, refund,
  restock, is_source, mean_unit_cost, mean_cost, add_taken, require_positive,
}
use tgc_bus_core.Finance.Restock.{restock_unit_cost-between}
use tgc_bus_core.Finance.Requests.{BookRequest, handle_book, handle_book_refused}
use tgc_bus_core.Finance.Reports.{
  Summary, summary_in, summary_of, profit_of, qty_payload, tally_sold, tally_produced, add_units,
  finance_summary, finance_profit, parse_window_read,
}
use tgc_bus_core.Finance.Totals.{
  Books, Window, midnight, count_events, count_event, is_among, cost_of_moves, item_of,
  line_cost_cents, human_qty_from_base, window_of, next_day,
}
use tgc_bus_core.Finance.Transactions.{
  Transaction, time_of, unsorted_transactions, list_events, list_event, add_sale, sale_cogs,
  add_cogs, cogs_of, source_text, run_transactions, inferred_purchases, is_paid_for,
  purchase_transactions, newer_tx, transactions_in, finance_transactions, first_ones,
}
use tgc_bus_core.Tables.Sorted.{Descends}
use tgc_bus_core.Finance.Gross.{listed_amount, unlisted_amount, events, transactions-gross}
use tgc_bus_core.Finance.Agrees.{finance_profit-summary}
use tgc_bus_core.Finance.Newest.{finance_transactions_newest}
use tgc_bus_core.Finance.Expenses.{finance_expense-summary}
use tgc_bus_core.Examples.Workshop.{counter, message, clean_body, stock_requests}
use tgc_bus_core.Examples.Shop.{env, nail, frame, shop}

abbrev sold_move : ℕ → ℕ → ItemMovement
sold_move qty cost = record {
  item_id = 1;
  batch_id = 1;
  qty_change = neg qty;
  unit_cost_cents = cost;
  source_kind = "sold";
  source_id = some (SourceId.text "order");
  is_oversold = false;
}

abbrev sale_event : CashEvent
sale_event = record {
  id = 1;
  kind = "sale";
  category = none;
  amount_cents = pos 500;
  item_id = some 1;
  qty_base = some 2000;
  unit_price_cents = some 250;
  source_kind = some "sold";
  source_id = some "order";
  related_source_id = none;
  notes = none;
  created_at = midnight 2 + 5;
}

abbrev day : Window
day = record { from_dt = midnight 2; to_dt = midnight 3 }

abbrev books : Books
books = record {
  items = nail ∷ frame ∷ [];
  cash_events = sale_event ∷ [];
  movements = record { id = 1; move = sold_move 2000 10; created_at = midnight 2 + 5 } ∷ [];
  runs = [];
}

abbrev summary : Summary
summary = record {
  profit = record {
    gross_sales_cents = pos 500;
    returns_cents = pos 0;
    net_sales_cents = pos 500;
    cogs_cents = 20;
    gross_profit_cents = pos 480;
  };
  expenses_cents = 0;
  net_profit_cents = pos 480;
  runs_count = 0;
  units_produced = [];
  units_sold =
      record { item_id = 1; quantity_decimal = record { coeff = 2; scale = 0 }; uom = "ea" } ∷ [];
}

summary_of_day : summary_in day books ≡ ok summary
unfolding summary_in count_events count_event is_among is_source cost_of_moves item_of
    line_cost_cents human_qty_from_base basis_uom_for_item uom_multiplier div fix mul quantize
    half_up shift_of digit_count summary_of profit_of qty_payload order_by tally_sold tally_produced
    add_units ◌+ℤ◌ ◌-ℤ◌
summary_of_day = refl

abbrev the_sale : Transaction
the_sale =
    Transaction.sale
      (record { source_id = "order"; amount_cents = pos 500; created_at = 172_800_000_005 }) 20

transactions_of_day : transactions_in day books ≡ ok (the_sale ∷ [])
unfolding transactions_in unsorted_transactions list_events list_event add_sale is_among is_source
    sale_cogs item_of line_cost_cents human_qty_from_base basis_uom_for_item uom_multiplier div fix
    mul quantize half_up shift_of digit_count add_cogs cogs_of source_text run_transactions
    inferred_purchases is_paid_for purchase_transactions order_by newer_tx ◌+ℤ◌
transactions_of_day = refl

transactions-gross_example :
    sum_ℤ listed_amount (the_sale ∷ []) +ℤ sum_ℤ unlisted_amount (events day books) ≡ pos 500
transactions-gross_example =
    transactions-gross day books summary (the_sale ∷ []) summary_of_day transactions_of_day

-- The dates that the two days are written in.
abbrev parse_date : String → Option ℕ
parse_date text = if text =ₛ "0001-01-02" then some 2 else none

window_of_day : parse_window_read parse_date "0001-01-02" "0001-01-02" ≡ ok day
unfolding parse_window_read window_of next_day
window_of_day = refl

summary_answer : finance_summary parse_date "0001-01-02" "0001-01-02" books ≡ ok summary
unfolding finance_summary
summary_answer = rw (window_of_day) summary_of_day

finance_profit-summary_example :
    finance_profit parse_date "0001-01-02" "0001-01-02" books ≡ ok summary.profit
finance_profit-summary_example =
    finance_profit-summary parse_date "0001-01-02" "0001-01-02" day books summary window_of_day
      ((λ among taken. refl), tt) summary_answer

transactions_answer :
    finance_transactions parse_date "0001-01-02" "0001-01-02" 5 books ≡ ok (the_sale ∷ [])
unfolding finance_transactions first_ones
transactions_answer = rw (window_of_day, transactions_of_day) refl

finance_transactions_newest_example :
    (w : Window) × (cut : List Transaction) × (parse_window_read parse_date "0001-01-02"
        "0001-01-02"
      ≡ ok w)
    × (transactions_in w books ≡ ok ((the_sale ∷ []) ++ cut))
    × (length (the_sale ∷ []) ≤ 5)
    × Descends time_of (the_sale ∷ [])
    × All (λ t. All (λ c. time_of c ≤ time_of t) cut) (the_sale ∷ [])
finance_transactions_newest_example =
    finance_transactions_newest parse_date "0001-01-02" "0001-01-02" 5 books (the_sale ∷ [])
      transactions_answer

-- A bill of 120 cents, paid on the same day.
abbrev bill : ExpenseIn
bill = record {
  amount_cents = 120;
  category = some "rent";
  notes = none;
  created_at = some (midnight 2 + 9);
}

abbrev desk : StockSession
desk = fresh (record shop { cash_events = sale_event ∷ [] })

finance_expense-summary_example :
    summary_in day
      (record books { cash_events = (finance_expense env bill desk).1.committed.cash_events })
    ≡ ok (record summary { expenses_cents = 0 + 120; net_profit_cents = pos 480 -ℤ pos 120 })
finance_expense-summary_example =
    finance_expense-summary env bill desk day books summary refl summary_of_day

-- One nail of the order comes back.
abbrev returned : RefundIn
returned = record {
  item_id = 1;
  refund_amount_cents = 250;
  quantity_decimal = Number.finite false 1 0;
  uom = "ea";
  restock_inventory = true;
  related_source_id = some "order";
  restock_unit_cost_cents = none;
  category = none;
  notes = none;
  created_at = none;
}

abbrev moves : List ItemMovement
moves = sold_move 2000 10 ∷ sold_move 1000 13 ∷ []

abbrev sold_desk : StockSession
sold_desk = fresh (record shop { movements = moves })

found_moves : sale_movements 1 "order" moves ≡ moves
unfolding sale_movements is_source
found_moves = refl

restock_unit_cost-between_example :
    (c : ℕ) × (restock_unit_cost returned sold_desk ≡ (ok (Number.finite false c 0), sold_desk))
    × (10 ≤ c)
    × (c ≤ 13)
restock_unit_cost-between_example =
    restock_unit_cost-between 10 13 returned sold_desk (sold_move 2000 10) (sold_move 1000 13 ∷ [])
      refl found_moves ((omega arith, omega arith), ((omega arith, omega arith), tt)) (omega arith)
      (omega arith) (omega arith)

restocked_at_mean : (restock_unit_cost returned sold_desk).0 ≡ ok (Number.finite false 11 0)
unfolding restock_unit_cost mean_unit_cost sale_movements is_source mean_cost add_taken add fix div
    quantize half_up mul shift_of digit_count
restocked_at_mean = refl

-- The order is not known to the shop: the refund is refused, and its cash event with it.
abbrev refund_request : BookRequest
refund_request = BookRequest.refund false clean_body returned

abbrev unknown : Error
unknown = http 400 "related_source_id_not_found_for_item"

refund_refused : (handle_book env message refund_request (begin counter)).0 ≡ err unknown
unfolding handle_book finance_refund in_transaction refund restock restock_unit_cost mean_unit_cost
    sale_movements is_source normalize_quantity_to_base_int uom_multiplier scale_to_int mul fix
    quantize half_up require_positive reject_legacy_qty_keys find_legacy_qty_keys walk refuse_keys
    find_row
refund_refused = refl

handle_book_refused_example :
    (handle_book env message refund_request (begin counter)).1.session.committed ≡ shop
handle_book_refused_example =
    handle_book_refused env message refund_request counter unknown refund_refused

-- Without restocking it is recorded. With a transaction begun, as for a user who has signed in, no
-- refund is.
abbrev pub book_requests : List BookRequest
book_requests =
    BookRequest.expense bill
    ∷ BookRequest.refund false clean_body (record returned { restock_inventory = false })
    ∷ BookRequest.refund true clean_body returned
    ∷ map BookRequest.stock stock_requests
