-- ===== src/Finance/Newest.antt =====
-- core/api/routes/finance_api.py: the list of transactions is the newest ones, in order.
use tgc_bus_core.Base.{
  ℕ, zero, suc, ◌≤◌, ◌≡◌, refl, ap, String, true, false, Option, List, [], ◌∷◌, ◌++◌, arith, All,
  length,
}
use tgc_bus_core.Tables.{order_by}
use tgc_bus_core.Tables.Sorted.{Descends, Descends-order_by}
use tgc_bus_core.Effects.{ok, Result-cases}
use tgc_bus_core.Base.{inl, inr}
use tgc_bus_core.Finance.Reports.{parse_window_read}
use tgc_bus_core.Finance.Totals.{Books, Window}
use tgc_bus_core.Finance.Transactions.{
  Transaction, time_of, newer_tx, unsorted_transactions, transactions_in, first_ones,
  finance_transactions,
}

newer-first : (a b : Transaction) → newer_tx a b ≡ true → time_of b ≤ time_of a
unfolding newer_tx
newer-first a b h = ground arith

older-later : (a b : Transaction) → newer_tx a b ≡ false → time_of a ≤ time_of b
unfolding newer_tx
older-later a b h = ground arith

length-first_ones : {A : Type 0} (n : ℕ) (xs : List A) → length (first_ones n xs) ≤ n
unfolding first_ones
length-first_ones zero xs = omega arith
length-first_ones (suc n) [] = omega arith
length-first_ones (suc n) (x ∷ xs) = omega (arith, length-first_ones n xs)

-- The part that is cut off.
unfoldable pub rest_after {ℓ} : {A : Type ℓ} → ℕ → List A → List A
rest_after zero xs = xs
rest_after (suc n) [] = []
rest_after (suc n) (x ∷ xs) = rest_after n xs

first_ones-rest : {A : Type 0} (n : ℕ) (xs : List A) → first_ones n xs ++ rest_after n xs ≡ xs
unfolding first_ones rest_after
first_ones-rest zero xs = refl
first_ones-rest (suc n) [] = refl
first_ones-rest (suc n) (x ∷ xs) = ap (λ ys. x ∷ ys) (first_ones-rest n xs)

All-left : {A : Type 0} (P : A → Type 0) (xs ys : List A) → All P (xs ++ ys) → All P xs × All P ys
All-left P [] ys h = (tt, h)
All-left P (x ∷ xs) ys (h, hs) = let (l, r) = All-left P xs ys hs in ((h, l), r)

Descends-parts :
    {A : Type 0} (m : A → ℕ) (xs ys : List A)
    → Descends m (xs ++ ys)
    → Descends m xs × All (λ x. All (λ y. m y ≤ m x) ys) xs
Descends-parts m [] ys h = (tt, tt)
Descends-parts m (x ∷ xs) ys (least, h) =
    let (l, r) = All-left (λ y. m y ≤ m x) xs ys least in
    let (ds, all) = Descends-parts m xs ys h in ((l, ds), (r, all))

-- The route answers with at most `limit` transactions, from the newest on, and every transaction
-- of the window that it leaves out is no newer than any that it lists.
pub finance_transactions_newest :
    (parse_date : String → Option ℕ) (from to : String) (limit : ℕ) (books : Books)
    (listed : List Transaction)
    → finance_transactions parse_date from to limit books ≡ ok listed
    → (w : Window) × (cut : List Transaction) × (parse_window_read parse_date from to ≡ ok w)
      × (transactions_in w books ≡ ok (listed ++ cut))
      × (length listed ≤ limit)
      × Descends time_of listed
      × All (λ t. All (λ c. time_of c ≤ time_of t) cut) listed
unfolding finance_transactions transactions_in
finance_transactions_newest parse_date from to limit books listed h =
    elim (Result-cases (parse_window_read parse_date from to)) [
      | inr (e, failed) ↦ (let e' = rw failed at h in cc)
      | inl (w, read) ↦ elim (Result-cases (unsorted_transactions w books)) [
        | inr (e, failed) ↦ (let e' = rw (read, failed) at h in cc)
        | inl (all, found) ↦
            let sorted = order_by newer_tx all in
            let same : first_ones limit sorted ≡ listed = (let e' = rw (read, found) at h in cc) in
            let whole : listed ++ rest_after limit sorted ≡ sorted =
              rw (← same) (first_ones-rest limit sorted) in
            let (ordered, older) =
              Descends-parts time_of listed (rest_after limit sorted)
                (rw whole (Descends-order_by time_of newer_tx newer-first older-later all)) in
            (
              w,
              rest_after limit sorted,
              read,
              rw (found, whole),
              rw (← same) (length-first_ones limit sorted),
              ordered,
              older,
            )
      ]
    ]
