-- ===== src/Finance/Transactions.antt =====
-- core/api/routes/finance_api.py: the transactions of a window, the newest first.
use tgc_bus_core.Base.{
  ℕ, zero, suc, ◌+◌, String, Bool, false, not, ◌&&◌, ◌||◌, Option, none, some, List, [], ◌∷◌, ◌++◌,
  map, ltb, ◌==◌, ◌=ₛ◌, if◌then◌else◌, keep, any, get_or, min, str, text_before,
}
use tgc_bus_core.Base.Int.{ℤ, pos, pos_part, ◌+ℤ◌, ltb_ℤ}
use tgc_bus_core.Tables.{order_by}
use tgc_bus_core.Decimal.{Decimal}
use tgc_bus_core.Effects.{Result, ok, ◌then_do◌}
use tgc_bus_core.StockTables.{Item, ItemMovement, CashEvent, SourceId}
use tgc_bus_core.StockMutation.{basis_uom_for_item}
use tgc_bus_core.Finance.{magnitude, is_given, is_source}
use tgc_bus_core.Finance.Reports.{is_sold, runs_in, parse_window_read}
use tgc_bus_core.Finance.Totals.{
  MovementRow, RunRow, Books, Window, in_window, human_qty_from_base, line_cost_cents, item_of,
  is_among, moves_of,
}

-- `sales_cash_by_source_id` and `sales_created_at_by_source_id`, which have the same keys.
pub record Sale : Type 0 where
  pub source_id : String
  pub amount_cents : ℤ
  pub created_at : ℕ

-- The entries, by `kind`. A run's quantity is given by whether it is negative, and its digits. A cash event gives its own columns; its kind is "purchase", "refund" or
-- "expense". What follows from the parts, such as a sale's gross profit, is not repeated.
pub data Transaction : Type 0 where
  cash : String → CashEvent → Transaction
  sale : Sale → ℕ → Transaction
  manufacturing_run : RunRow → Bool → Decimal → String → Transaction
  purchase_inferred : MovementRow → Decimal → String → ℕ → Transaction

unfoldable pub add_sale : String → CashEvent → List Sale → List Sale
add_sale source_id e [] =
    record { source_id = source_id; amount_cents = e.amount_cents; created_at = e.created_at } ∷ []
add_sale source_id e (s ∷ sales) =
    if s.source_id =ₛ source_id
    then record s {
      amount_cents = s.amount_cents +ℤ e.amount_cents;
      created_at = min s.created_at e.created_at;
    }
      ∷ sales
    else s ∷ add_sale source_id e sales

-- The kind that a refund or an expense is listed under.
unfoldable pub transaction_kind : CashEvent → String
transaction_kind e =
    if e.kind =ₛ "expense" && get_or e.source_kind "" =ₛ "purchase" then "purchase" else e.kind

-- The branch of a cash event in the loop.
unfoldable pub list_event : CashEvent → List Sale × List Transaction → List Sale × List Transaction
list_event e (sales, transactions) =
    if e.kind =ₛ "sale" && is_given e.source_id
    then (add_sale (get_or e.source_id "") e sales, transactions)
    else if e.kind =ₛ "refund" || e.kind =ₛ "expense"
    then (sales, transactions ++ cash (transaction_kind e) e ∷ [])
    else (sales, transactions)

unfoldable pub list_events :
    List CashEvent → List Sale × List Transaction → List Sale × List Transaction
list_events [] listed = listed
list_events (e ∷ events) listed = list_events events (list_event e listed)

-- str(move.source_id)
unfoldable pub source_text : Option SourceId → String
source_text none = "None"
source_text (some (SourceId.text s)) = s
source_text (some (SourceId.run n)) = str n

unfoldable pub add_cogs : String → ℕ → List (String × ℕ) → List (String × ℕ)
add_cogs source_id line_cogs [] = (source_id, line_cogs) ∷ []
add_cogs source_id line_cogs ((s, n) ∷ cogs) =
    if s =ₛ source_id then (s, n + line_cogs) ∷ cogs else (s, n) ∷ add_cogs source_id line_cogs cogs

-- sales_cogs_by_source_id.get(source_id, 0)
unfoldable pub cogs_of : String → List (String × ℕ) → ℕ
cogs_of source_id [] = 0
cogs_of source_id ((s, n) ∷ cogs) = if s =ₛ source_id then n else cogs_of source_id cogs

unfoldable pub sale_cogs :
    List Item → List ItemMovement → List (String × ℕ) → Result (List (String × ℕ))
sale_cogs items [] cogs = ok cogs
sale_cogs items (m ∷ moves) cogs = item_of items m.item_id then_do λ item.
    line_cost_cents m.unit_cost_cents (magnitude m.qty_change) item then_do λ line_cogs.
    sale_cogs items moves (add_cogs (source_text m.source_id) line_cogs cogs)

unfoldable pub run_transactions : List Item → List RunRow → Result (List Transaction)
run_transactions items [] = ok []
run_transactions items (r ∷ runs) = item_of items r.run.output_item_id then_do λ item.
    human_qty_from_base (magnitude r.run.output_qty) item then_do λ quantity.
    basis_uom_for_item item then_do λ uom. run_transactions items runs then_do λ rest.
    ok (manufacturing_run r (ltb_ℤ r.run.output_qty (pos 0)) quantity uom ∷ rest)

abbrev pub is_some_source : Option String → Option SourceId → Bool
is_some_source none source = false
is_some_source (some s) source = is_source s source

-- The EXISTS of the query: a purchase's payment has the source id.
unfoldable pub is_paid_for : List CashEvent → Option SourceId → Bool
is_paid_for events none = false
is_paid_for events (some source) =
    any
      (λ e.
        e.kind =ₛ "expense"
        && get_or e.source_kind "" =ₛ "purchase"
        && is_some_source e.source_id (some source))
      events

unfoldable pub inferred_purchases : Window → Books → List MovementRow
inferred_purchases w books =
    keep
      (λ r.
        in_window w r.created_at
        && r.move.source_kind =ₛ "purchase"
        && ltb_ℤ (pos 0) r.move.qty_change
        && not (is_paid_for books.cash_events r.move.source_id))
      books.movements

unfoldable pub purchase_transactions : List Item → List MovementRow → Result (List Transaction)
purchase_transactions items [] = ok []
purchase_transactions items (r ∷ rows) = item_of items r.move.item_id then_do λ item.
    line_cost_cents r.move.unit_cost_cents (pos_part r.move.qty_change) item then_do λ amount_cents.
    human_qty_from_base (pos_part r.move.qty_change) item then_do λ quantity.
    basis_uom_for_item item then_do λ uom. purchase_transactions items rows then_do λ rest.
    ok (purchase_inferred r quantity uom amount_cents ∷ rest)

abbrev pub sale_transaction : List (String × ℕ) → Sale → Transaction
sale_transaction cogs s = sale s (cogs_of s.source_id cogs)

-- The key of the sort: the time, and `_tx_tiebreaker`.
unfoldable pub time_of : Transaction → ℕ
time_of (cash kind e) = e.created_at
time_of (sale s cogs) = s.created_at
time_of (manufacturing_run r negative quantity uom) = r.created_at
time_of (purchase_inferred r quantity uom amount) = r.created_at

unfoldable pub tx_tiebreaker : Transaction → String
tx_tiebreaker (cash kind e) = str e.id
tx_tiebreaker (sale s cogs) = s.source_id
tx_tiebreaker (manufacturing_run r negative quantity uom) = str r.run.id
tx_tiebreaker (purchase_inferred r quantity uom amount) = str r.id

unfoldable pub newer_tx : Transaction → Transaction → Bool
newer_tx a b =
    ltb (time_of b) (time_of a)
    || (time_of b == time_of a && text_before (tx_tiebreaker b) (tx_tiebreaker a))

-- The movements of the sales.
abbrev pub moves_of_sales : List Sale → Books → List ItemMovement
moves_of_sales sales books =
    keep (λ m. is_among (map (λ s. s.source_id) sales) m.source_id && is_sold m) (moves_of books)

unfoldable pub unsorted_transactions : Window → Books → Result (List Transaction)
unsorted_transactions w books =
    let (sales, listed) =
      list_events (keep (λ e. in_window w e.created_at) books.cash_events) ([], []) in
    sale_cogs books.items (moves_of_sales sales books) [] then_do λ cogs.
    run_transactions books.items (runs_in w books) then_do λ runs.
    purchase_transactions books.items (inferred_purchases w books) then_do λ purchases.
    ok (listed ++ (map (sale_transaction cogs) sales ++ (runs ++ purchases)))

unfoldable pub transactions_in : Window → Books → Result (List Transaction)
transactions_in w books =
    unsorted_transactions w books then_do λ transactions. ok (order_by newer_tx transactions)

-- transactions[: limit]
unfoldable pub first_ones {ℓ} : {A : Type ℓ} → ℕ → List A → List A
first_ones zero xs = []
first_ones (suc n) [] = []
first_ones (suc n) (x ∷ xs) = x ∷ first_ones n xs

unfoldable pub finance_transactions :
    (String → Option ℕ) → String → String → ℕ → Books → Result (List Transaction)
finance_transactions parse_date from to limit books =
    parse_window_read parse_date from to then_do λ w.
    transactions_in w books then_do λ transactions. ok (first_ones limit transactions)
