-- ===== src/Finance/Agrees.antt =====
-- core/api/routes/finance_api.py: the profit of a window is the profit of its summary.
use tgc_bus_core.Base.{
  ℕ, ◌≡◌, refl, String, Bool, true, ◌&&◌, Option, List, [], ◌∷◌, keep, length, ltb, ◌=ₛ◌, All,
  All-map, Bool-cases, Option-cases, inl, inr,
}
use tgc_bus_core.Effects.{ok, Result-cases}
use tgc_bus_core.StockTables.{ItemMovement}
use tgc_bus_core.Finance.{is_taken}
use tgc_bus_core.Finance.Reports.{
  Summary, UnitsLine, summary_of, is_sold, qty_payload, tally_produced, tally_sold, sold_in,
  runs_in, profit_of, profit_in, summary_in, parse_window, parse_window_read, finance_profit,
  finance_summary,
}
use tgc_bus_core.Finance.Totals.{
  Window, Books, Totals, totals_in, is_among, moves_of, cost_of_moves,
}

keep-same :
    {A : Type 0} (p q : A → Bool) (xs : List A) → All (λ x. p x ≡ q x) xs → keep p xs ≡ keep q xs
keep-same p q [] _ = refl
keep-same p q (x ∷ xs) (h, hs) = rw (h, keep-same p q xs hs)

-- What was taken under the id of one of the sales was sold.
abbrev pub TakenAsSold : List String → ItemMovement → Type 0
TakenAsSold sources m =
    is_among sources m.source_id ≡ true → is_taken m ≡ true → (m.source_kind =ₛ "sold") ≡ true

same-test :
    (sources : List String) (m : ItemMovement)
    → TakenAsSold sources m
    → (is_among sources m.source_id && is_taken m) ≡ (is_among sources m.source_id && is_sold m)
same-test sources m sold = elim (Bool-cases (is_among sources m.source_id)) [
  | inr apart ↦ rw apart refl
  | inl among ↦ elim (Bool-cases (is_taken m)) [
    | inr brought ↦ rw (among, brought) refl
    | inl taken ↦ rw (among, taken, sold among taken) refl
  ]
]

parse_window_of_read :
    (parse_date : String → Option ℕ) (from to : String) (w : Window)
    → parse_window_read parse_date from to ≡ ok w
    → parse_window parse_date from to ≡ ok w
unfolding parse_window parse_window_read
parse_window_of_read parse_date from to w h = elim (Option-cases (parse_date from)) [
  | inl bad ↦ (let e = rw bad at h in cc)
  | inr (from_date, read_from) ↦ elim (Option-cases (parse_date to)) [
    | inl bad ↦ (let e = rw (read_from, bad) at h in cc)
    | inr (to_date, read_to) ↦ elim (Bool-cases (ltb to_date from_date)) [
      | inl bad ↦ (let e = rw (read_from, read_to, bad) at h in cc)
      | inr good ↦ rw (read_from, read_to) (rw (read_from, read_to, good) at h)
    ]
  ]
]

summary_of-profit :
    (t : Totals) (cogs runs : ℕ) (made listed : List UnitsLine)
    → (summary_of t cogs runs made listed).profit ≡ profit_of t cogs
unfolding summary_of
summary_of-profit t cogs runs made listed = refl

module _ (w : Window) (books : Books) where
  abbrev profit_moves : List ItemMovement
  profit_moves =
      keep (λ m. is_among (totals_in w books).sale_source_ids m.source_id && is_taken m)
        (moves_of books)

  abbrev pub summary_moves : List ItemMovement
  summary_moves =
      keep (λ m. is_among (totals_in w books).sale_source_ids m.source_id && is_sold m)
        (moves_of books)

  summary_in-profit :
      (s : Summary)
      → profit_moves ≡ summary_moves
      → summary_in w books ≡ ok s
      → profit_in w books ≡ ok s.profit
  unfolding profit_in summary_in
  summary_in-profit s same h = elim (Result-cases (cost_of_moves books.items summary_moves 0)) [
    | inr (e, failed) ↦ (let e' = rw failed at h in cc)
    | inl (cogs, counted) ↦
        elim (Result-cases (qty_payload books.items (tally_produced (runs_in w books) []))) [
          | inr (e, failed) ↦ (let e' = rw (counted, failed) at h in cc)
          | inl (produced, made) ↦
              elim (Result-cases (qty_payload books.items (tally_sold (sold_in w books) []))) [
                | inr (e, failed) ↦ (let e' = rw (counted, made, failed) at h in cc)
                | inl (sold, listed) ↦
                    (let same_s = rw (counted, made, listed) at h in
                      rw (same, counted)
                        (cc (
                          summary_of-profit (totals_in w books) cogs (length (runs_in w books))
                            produced sold)))
              ]
        ]
  ]

-- Where everything taken under the ids of the sales in the window was taken as sold, and the days
-- are in order, the figures of the profit route are those of the summary route.
pub finance_profit-summary :
    (parse_date : String → Option ℕ) (from to : String) (w : Window) (books : Books) (s : Summary)
    → parse_window_read parse_date from to ≡ ok w
    → All (TakenAsSold (totals_in w books).sale_source_ids) (moves_of books)
    → finance_summary parse_date from to books ≡ ok s
    → finance_profit parse_date from to books ≡ ok s.profit
unfolding finance_profit finance_summary
finance_profit-summary parse_date from to w books s read sold h =
    let sources = (totals_in w books).sale_source_ids in
    rw (parse_window_of_read parse_date from to w read) (
      summary_in-profit w books s
        (keep-same _ _ (moves_of books)
          (All-map (TakenAsSold sources) _ (moves_of books) (same-test sources) sold))
        (rw read at h))
