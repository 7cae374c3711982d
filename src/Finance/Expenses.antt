-- ===== src/Finance/Expenses.antt =====
-- core/api/routes/finance_api.py: what an expense changes in the summary.
use mathlib.Core.List.{append-nil}
use tgc_bus_core.Base.{
  ℕ, ◌+◌, ◌≡◌, refl, ap, ◌∙◌, arith, ◌&&◌, List, [], ◌∷◌, ◌++◌, keep, keep-append, length,
  if◌then◌else◌, get_or, Bool-cases, inl, inr,
}
use tgc_bus_core.Base.Int.{ℤ, pos, neg, ◌+ℤ◌, ◌-ℤ◌, int_laws}
use tgc_bus_core.Effects.{ok, Env, Result-cases}
use tgc_bus_core.StockTables.{ItemMovement, CashEvent, StockSession}
use tgc_bus_core.Finance.{ExpenseIn, magnitude, expense_event, finance_expense}
use tgc_bus_core.Finance.Reports.{
  Summary, UnitsLine, summary_of, is_sold, qty_payload, tally_produced, tally_sold, sold_in,
  runs_in, profit_of, summary_in,
}
use tgc_bus_core.Finance.Totals.{
  Window, Books, Totals, in_window, count_event, count_events, no_totals, totals_in, is_among,
  moves_of, cost_of_moves,
}

count_events-append :
    (xs ys : List CashEvent) (t : Totals)
    → count_events (xs ++ ys) t ≡ count_events ys (count_events xs t)
unfolding count_events
count_events-append [] ys t = refl
count_events-append (e ∷ xs) ys t = count_events-append xs ys (count_event e t)

magnitude-neg : (n : ℕ) → magnitude (neg n) ≡ n
magnitude-neg n = ground arith

sub-add : (a : ℤ) (n m : ℕ) → a -ℤ pos (n + m) ≡ (a -ℤ pos n) -ℤ pos m
sub-add a n m = omega int_laws

abbrev with_events : List CashEvent → Books → Books
with_events events books = record books { cash_events = books.cash_events ++ events }

module _ (env : Env) (body : ExpenseIn) (id : ℕ) (w : Window) (books : Books) where
  abbrev when : ℕ
  when = get_or body.created_at env.now

  abbrev after : Books
  after = with_events (expense_event env body id ∷ []) books

  counted_expense :
      (t : Totals)
      → count_events (expense_event env body id ∷ []) t
        ≡ record t { expenses_cents = t.expenses_cents + body.amount_cents }
  unfolding count_events count_event expense_event
  counted_expense t = rw (magnitude-neg body.amount_cents)

  totals-after : totals_in w after ≡ (
      if in_window w when
      then record (totals_in w books) {
        expenses_cents = (totals_in w books).expenses_cents + body.amount_cents;
      }
      else totals_in w books)
  unfolding expense_event
  totals-after =
      let old = keep (λ (e : CashEvent). in_window w e.created_at) books.cash_events in
      rw (keep-append (λ (e : CashEvent). in_window w e.created_at) books.cash_events _)
        (elim (Bool-cases (in_window w when)) [
          | inr out ↦ rw out (ap (λ events. count_events events no_totals) (append-nil old))
          | inl inside ↦ rw inside (count_events-append old _ no_totals ∙ counted_expense _)
        ])

  -- What the expense changes.
  abbrev spend : Summary → Summary
  spend s = record s {
    expenses_cents = s.expenses_cents + body.amount_cents;
    net_profit_cents = s.net_profit_cents -ℤ pos body.amount_cents;
  }

  summary_of-spent :
      (t : Totals) (cogs runs : ℕ) (made listed : List UnitsLine)
      → summary_of
          (record t { expenses_cents = t.expenses_cents + body.amount_cents })
          cogs
          runs
          made
          listed
        ≡ spend (summary_of t cogs runs made listed)
  unfolding summary_of profit_of
  summary_of-spent t cogs runs made listed = rw (
      sub-add ((t.gross_sales_cents +ℤ t.returns_cents) -ℤ pos cogs) t.expenses_cents
        body.amount_cents)

  abbrev moves : List ItemMovement
  moves =
      keep (λ m. is_among (totals_in w books).sale_source_ids m.source_id && is_sold m)
        (moves_of books)

  summary-after :
      (s : Summary)
      → summary_in w books ≡ ok s
      → summary_in w after ≡ ok (if in_window w when then spend s else s)
  unfolding summary_in
  summary-after s h = elim (Bool-cases (in_window w when)) [
    | inr out ↦ rw (totals-after, out) h
    | inl inside ↦
        rw (totals-after, inside)
          (elim (Result-cases (cost_of_moves books.items moves 0)) [
            | inr (e, failed) ↦ (let e' = rw failed at h in cc)
            | inl (cogs, counted) ↦
                elim (Result-cases
                  (qty_payload books.items (tally_produced (runs_in w books) []))) [
                    | inr (e, failed) ↦ (let e' = rw (counted, failed) at h in cc)
                    | inl (produced, made) ↦
                        elim (Result-cases
                          (qty_payload books.items (tally_sold (sold_in w books) []))) [
                            | inr (e, failed) ↦ (let e' = rw (counted, made, failed) at h in cc)
                            | inl (sold, listed) ↦
                                (let whole = rw (counted, made, listed) at h in
                                  let same : summary_of (totals_in w books) cogs
                                        (length (runs_in w books)) produced sold
                                      ≡ s =
                                    cc in
                                  rw (counted, made, listed)
                                    (ap ok (
                                      summary_of-spent (totals_in w books) cogs _ produced sold
                                      ∙ ap spend same)))
                          ]
                  ]
          ])
  ]

-- An expense that is recorded at a time in the window is counted in the summary's expenses and taken
-- from its net profit, and leaves the rest of the summary; outside the window it changes nothing.
pub finance_expense-summary :
    (env : Env) (body : ExpenseIn) (session : StockSession) (w : Window) (books : Books)
    (s : Summary)
    → books.cash_events ≡ session.rows.cash_events
    → summary_in w books ≡ ok s
    → summary_in w
        (record books { cash_events = (finance_expense env body session).1.committed.cash_events })
      ≡ ok (
          if in_window w (get_or body.created_at env.now)
          then record s {
            expenses_cents = s.expenses_cents + body.amount_cents;
            net_profit_cents = s.net_profit_cents -ℤ pos body.amount_cents;
          }
          else s)
unfolding finance_expense
finance_expense-summary env body session w books s same h =
    rw (← same) (summary-after env body _ w books s h)
