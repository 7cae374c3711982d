-- ===== src/Finance/Gross.antt =====
-- core/api/routes/finance_api.py: the sales that are listed add up to the gross sales of the summary.
use tgc_bus_core.Base.{
  ℕ, ◌≡◌, refl, sym, ap, ◌∙◌, String, not, ◌&&◌, ◌||◌, List, [], ◌∷◌, ◌++◌, map, keep, length, ◌=ₛ◌,
  if◌then◌else◌, get_or, Bool-cases, inl, inr,
}
use tgc_bus_core.Base.Int.{ℤ, pos, pos_part, neg_part, ◌+ℤ◌, sum_ℤ, sum_ℤ-append, int_laws, ltb_ℤ}
use tgc_bus_core.Tables.{order_by}
use tgc_bus_core.Tables.Order.{sum_ℤ-order_by}
use tgc_bus_core.Effects.{ok, then_do-ok}
use tgc_bus_core.StockTables.{Item, CashEvent}
use tgc_bus_core.StockMutation.{basis_uom_for_item}
use tgc_bus_core.Finance.{is_given, magnitude}
use tgc_bus_core.Finance.Reports.{
  runs_in, Summary, summary_in, qty_payload, tally_produced, tally_sold, sold_in, summary_of,
  profit_of,
}
use tgc_bus_core.Finance.Totals.{
  MovementRow, RunRow, item_of, human_qty_from_base, line_cost_cents, Books, Window, Totals,
  in_window, count_event, count_events, no_totals, totals_in, cost_of_moves,
}
use tgc_bus_core.Finance.Agrees.{summary_moves}
use tgc_bus_core.Finance.Transactions.{
  sale_cogs, moves_of_sales, Sale, Transaction, cash, sale, manufacturing_run, purchase_inferred,
  add_sale, list_event, list_events, run_transactions, purchase_transactions, sale_transaction,
  newer_tx, inferred_purchases, unsorted_transactions, transactions_in, transaction_kind,
}

-- What a listed sale, and a cash event, say was sold.
abbrev pub listed_amount : Transaction → ℤ
listed_amount (cash kind e) = pos 0
listed_amount (sale s cogs) = s.amount_cents
listed_amount (manufacturing_run r negative quantity uom) = pos 0
listed_amount (purchase_inferred r quantity uom amount) = pos 0

abbrev pub sold_amount : CashEvent → ℤ
sold_amount e = if e.kind =ₛ "sale" then e.amount_cents else pos 0

-- Sales with no source id are not listed.
abbrev pub unlisted_amount : CashEvent → ℤ
unlisted_amount e = if e.kind =ₛ "sale" && not (is_given e.source_id) then e.amount_cents else pos 0

abbrev amount : Sale → ℤ
amount s = s.amount_cents

add_sale-amount :
    (source : String) (e : CashEvent) (sales : List Sale)
    → sum_ℤ amount (add_sale source e sales) ≡ sum_ℤ amount sales +ℤ e.amount_cents
unfolding add_sale
add_sale-amount source e [] = omega int_laws
add_sale-amount source e (s ∷ sales) = elim (Bool-cases (s.source_id =ₛ source)) [
  | inl same ↦ rw same (omega int_laws)
  | inr other ↦ rw (other, add_sale-amount source e sales) (omega int_laws)
]

module _ (e : CashEvent) (sales : List Sale) (listed : List Transaction) where
  abbrev next : List Sale × List Transaction
  next = list_event e (sales, listed)

  list_event-amount : sum_ℤ amount next.0 +ℤ unlisted_amount e ≡ sum_ℤ amount sales +ℤ sold_amount e
  unfolding list_event
  list_event-amount = elim (Bool-cases (e.kind =ₛ "sale")) [
    | inl sold ↦ elim (Bool-cases (is_given e.source_id)) [
      | inl given ↦
          rw (sold, given, add_sale-amount (get_or e.source_id "") e sales) (omega int_laws)
      | inr missing ↦ elim (Bool-cases (e.kind =ₛ "refund" || e.kind =ₛ "expense")) [
        | inl out ↦ rw (sold, missing, out) refl
        | inr neither ↦ rw (sold, missing, neither) refl
      ]
    ]
    | inr other ↦ elim (Bool-cases (e.kind =ₛ "refund" || e.kind =ₛ "expense")) [
      | inl out ↦ rw (other, out) refl
      | inr neither ↦ rw (other, neither) refl
    ]
  ]

  list_event_listed : sum_ℤ listed_amount next.1 ≡ sum_ℤ listed_amount listed
  unfolding list_event
  list_event_listed = elim (Bool-cases (e.kind =ₛ "sale" && is_given e.source_id)) [
    | inl sold ↦ rw sold refl
    | inr unsold ↦ elim (Bool-cases (e.kind =ₛ "refund" || e.kind =ₛ "expense")) [
      | inl out ↦
          rw (unsold, out)
            (sum_ℤ-append listed_amount listed (cash (transaction_kind e) e ∷ []) ∙ omega int_laws)
      | inr neither ↦ rw (unsold, neither) refl
    ]
  ]

list_events-amount :
    (events : List CashEvent) (sales : List Sale) (listed : List Transaction)
    → sum_ℤ amount (list_events events (sales, listed)).0 +ℤ sum_ℤ unlisted_amount events
      ≡ sum_ℤ amount sales +ℤ sum_ℤ sold_amount events
unfolding list_events
list_events-amount [] sales listed = refl
list_events-amount (e ∷ events) sales listed =
    let (sales', listed') = list_event e (sales, listed) in
    let later = list_events-amount events sales' listed' in
    let now = list_event-amount e sales listed in
    omega (int_laws, ap pos_part later, ap neg_part later, ap pos_part now, ap neg_part now)

list_events_listed :
    (events : List CashEvent) (sales : List Sale) (listed : List Transaction)
    → sum_ℤ listed_amount (list_events events (sales, listed)).1 ≡ sum_ℤ listed_amount listed
unfolding list_events
list_events_listed [] sales listed = refl
list_events_listed (e ∷ events) sales listed =
    list_events_listed events (next e sales listed).0 (next e sales listed).1
    ∙ list_event_listed e sales listed

count_event_gross :
    (e : CashEvent) (t : Totals)
    → (count_event e t).gross_sales_cents ≡ t.gross_sales_cents +ℤ sold_amount e
unfolding count_event
count_event_gross e t = elim (Bool-cases (e.kind =ₛ "sale")) [
  | inl sold ↦ rw sold refl
  | inr other ↦ elim (Bool-cases (e.kind =ₛ "refund")) [
    | inl back ↦ rw (other, back) (omega int_laws)
    | inr kept ↦ elim (Bool-cases (e.kind =ₛ "expense")) [
      | inl spent ↦ rw (other, kept, spent) (omega int_laws)
      | inr neither ↦ rw (other, kept, neither) (omega int_laws)
    ]
  ]
]

count_events_gross :
    (events : List CashEvent) (t : Totals)
    → (count_events events t).gross_sales_cents ≡ t.gross_sales_cents +ℤ sum_ℤ sold_amount events
unfolding count_events
count_events_gross [] t = omega int_laws
count_events_gross (e ∷ events) t =
    count_events_gross events (count_event e t) ∙ rw (count_event_gross e t) (omega int_laws)

sale_transactions_amount :
    (cogs : List (String × ℕ)) (sales : List Sale)
    → sum_ℤ listed_amount (map (sale_transaction cogs) sales) ≡ sum_ℤ amount sales
sale_transactions_amount cogs [] = refl
sale_transactions_amount cogs (s ∷ sales) =
    ap (λ n. s.amount_cents +ℤ n) (sale_transactions_amount cogs sales)

run_transactions_amount :
    (items : List Item) (runs : List RunRow) (txs : List Transaction)
    → run_transactions items runs ≡ ok txs
    → sum_ℤ listed_amount txs ≡ pos 0
unfolding run_transactions
run_transactions_amount items [] txs h = let e : [] ≡ txs = cc in rw (← e) refl
run_transactions_amount items (r ∷ runs) txs h =
    let (item, i, h1) = then_do-ok (item_of items r.run.output_item_id) _ h in
    let (quantity, q, h2) =
      then_do-ok (human_qty_from_base (magnitude r.run.output_qty) item) _ h1 in
    let (uom, u, h3) = then_do-ok (basis_uom_for_item item) _ h2 in
    let (rest, found, h4) = then_do-ok (run_transactions items runs) _ h3 in
    let e : manufacturing_run r (ltb_ℤ r.run.output_qty (pos 0)) quantity uom ∷ rest ≡ txs = cc in
    rw (← e) (rw (run_transactions_amount items runs rest found) (omega int_laws))

purchase_transactions_amount :
    (items : List Item) (rows : List MovementRow) (txs : List Transaction)
    → purchase_transactions items rows ≡ ok txs
    → sum_ℤ listed_amount txs ≡ pos 0
unfolding purchase_transactions
purchase_transactions_amount items [] txs h = let e : [] ≡ txs = cc in rw (← e) refl
purchase_transactions_amount items (r ∷ rows) txs h =
    let qty = pos_part r.move.qty_change in
    let (item, i, h1) = then_do-ok (item_of items r.move.item_id) _ h in
    let (cents, c, h2) = then_do-ok (line_cost_cents r.move.unit_cost_cents qty item) _ h1 in
    let (quantity, q, h3) = then_do-ok (human_qty_from_base qty item) _ h2 in
    let (uom, u, h4) = then_do-ok (basis_uom_for_item item) _ h3 in
    let (rest, found, h5) = then_do-ok (purchase_transactions items rows) _ h4 in
    let e : purchase_inferred r quantity uom cents ∷ rest ≡ txs = cc in
    rw (← e) (rw (purchase_transactions_amount items rows rest found) (omega int_laws))

add_zeros : (a b : ℤ) → pos 0 +ℤ (a +ℤ (pos 0 +ℤ pos 0)) +ℤ b ≡ a +ℤ b
add_zeros a b = omega int_laws

summary_in_gross :
    (w : Window) (books : Books) (s : Summary)
    → summary_in w books ≡ ok s
    → s.profit.gross_sales_cents ≡ (totals_in w books).gross_sales_cents
unfolding summary_in summary_of profit_of
summary_in_gross w books s h =
    let (cogs, c, h1) = then_do-ok (cost_of_moves books.items (summary_moves w books) 0) _ h in
    let (produced, p, h2) =
      then_do-ok (qty_payload books.items (tally_produced (runs_in w books) [])) _ h1 in
    let (sold, q, h3) =
      then_do-ok (qty_payload books.items (tally_sold (sold_in w books) [])) _ h2 in
    let e : summary_of (totals_in w books) cogs (length (runs_in w books)) produced sold ≡ s = cc in
    rw (← e) refl

module _ (w : Window) (books : Books) where
  abbrev pub events : List CashEvent
  events = keep (λ e. in_window w e.created_at) books.cash_events

  unsorted_gross :
      (txs : List Transaction)
      → unsorted_transactions w books ≡ ok txs
      → sum_ℤ listed_amount txs +ℤ sum_ℤ unlisted_amount events
        ≡ (totals_in w books).gross_sales_cents
  unfolding unsorted_transactions
  unsorted_gross txs h =
      let (sales, listed) = list_events events ([], []) in
      let (cogs, c, h1) = then_do-ok (sale_cogs books.items (moves_of_sales sales books) []) _ h in
      let (runs, made, h2) = then_do-ok (run_transactions books.items (runs_in w books)) _ h1 in
      let (bought, paid, h3) =
        then_do-ok (purchase_transactions books.items (inferred_purchases w books)) _ h2 in
      let e : listed ++ (map (sale_transaction cogs) sales ++ (runs ++ bought)) ≡ txs = cc in
      let of_sales = map (sale_transaction cogs) sales in
      rw (← e) (
        rw
          (
            sum_ℤ-append listed_amount listed (of_sales ++ (runs ++ bought)),
            sum_ℤ-append listed_amount of_sales (runs ++ bought),
            sum_ℤ-append listed_amount runs bought,
            list_events_listed events [] [],
            sale_transactions_amount cogs sales,
            run_transactions_amount books.items (runs_in w books) runs made,
            purchase_transactions_amount books.items (inferred_purchases w books) bought paid,
          )
          (add_zeros (sum_ℤ amount sales) (sum_ℤ unlisted_amount events)
            ∙ list_events-amount events [] []
            ∙ sym (count_events_gross events no_totals)))

-- Where the summary and the list of transactions of a window both return, the amounts of the sales
-- that are listed, with those of the sale events that have no source id and are not listed, add up
-- to the gross sales of the summary.
pub transactions-gross :
    (w : Window) (books : Books) (s : Summary) (txs : List Transaction)
    → summary_in w books ≡ ok s
    → transactions_in w books ≡ ok txs
    → sum_ℤ listed_amount txs +ℤ sum_ℤ unlisted_amount (events w books) ≡ s.profit.gross_sales_cents
unfolding transactions_in
transactions-gross w books s txs h k =
    let (all, found, sorted) = then_do-ok (unsorted_transactions w books) _ k in
    let e : order_by newer_tx all ≡ txs = cc in
    rw (← e) (
      rw (sum_ℤ-order_by newer_tx listed_amount all)
        (unsorted_gross w books all found ∙ sym (summary_in_gross w books s h)))
