-- ===== src/Manufacturing/Consumed.antt =====
-- The quantities that a run consumes, by item, and what they do to the stored quantities.
use tgc_bus_core.Base.{
  ℕ, ◌+◌, ◌≡◌, refl, sym, ap, ◌∙◌, arith, List, [], ◌∷◌, map, ◌==◌, if◌then◌else◌, All-map, sum_by,
  Bool-cases, inl, inr,
}
use tgc_bus_core.Base.Int.{pos, neg, neg_part}
use tgc_bus_core.Tables.{IsKeyed}
use tgc_bus_core.Tables.Rows.{IsKeyed-update}
use tgc_bus_core.StockTables.{Item, StockDb}
use tgc_bus_core.Ledger.{add_stored}
use tgc_bus_core.Ledger.Balance.{IsStored, IsStored-change, sub-pos, net, neg-add, zero-add}
use tgc_bus_core.Manufacturing.{Allocation}
use tgc_bus_core.Manufacturing.Slices.{allocated}
use tgc_bus_core.Manufacturing.Execute.{add_consumed, consumed_of, store_consumed, used}

-- What the dict holds for one item.
abbrev pub total : ℕ → List (ℕ × ℕ) → ℕ
total i = sum_by (λ e. if e.0 == i then e.1 else 0)

total-add_consumed :
    (i j q : ℕ) (c : List (ℕ × ℕ))
    → total i (add_consumed j q c) ≡ total i c + (if j == i then q else 0)
unfolding add_consumed
total-add_consumed i j q [] = ground arith
total-add_consumed i j q ((k, n) ∷ c) = ground (arith, total-add_consumed i j q c)

pub total-consumed_of :
    (i : ℕ) (c : List (ℕ × ℕ)) (allocations : List Allocation)
    → total i (consumed_of c allocations) ≡ total i c + allocated i allocations
unfolding consumed_of
total-consumed_of i c [] = omega arith
total-consumed_of i c (a ∷ allocations) =
    total-consumed_of i (add_consumed a.item_id a.qty c) allocations
    ∙ rw (total-add_consumed i a.item_id a.qty c) (omega arith)

no_more : (n : ℕ) → n ≡ 0 + n
no_more n = omega arith

-- The movements of the allocations take out what is allocated.
pub net-used :
    (i run_id : ℕ) (allocations : List Allocation)
    → net i (map (used run_id) allocations) ≡ neg (allocated i allocations)
unfolding used
net-used i run_id [] = refl
net-used i run_id (a ∷ allocations) = elim (Bool-cases (a.item_id == i)) [
  | inl same ↦
      let back : neg_part (neg a.qty) ≡ a.qty = ground arith in
      rw (same, net-used i run_id allocations) (neg-add a.qty a.qty _ back)
  | inr other ↦ rw (other, net-used i run_id allocations) (zero-add _ ∙ ap neg (no_more _))
]

pub store_consumed-IsKeyed :
    (c : List (ℕ × ℕ)) (db : StockDb)
    → IsKeyed (λ (i : Item). i.id) db.items
    → IsKeyed (λ (i : Item). i.id) (store_consumed c db).items
unfolding store_consumed add_stored
store_consumed-IsKeyed [] db h = h
store_consumed-IsKeyed ((j, n) ∷ c) db h =
    store_consumed-IsKeyed c _ (IsKeyed-update (λ (i : Item). i.id) j _ db.items (λ o. refl) h)

-- Nothing but the items is written.
pub store_consumed-db :
    (c : List (ℕ × ℕ)) (db : StockDb)
    → store_consumed c db ≡ record db { items = (store_consumed c db).items }
unfolding store_consumed add_stored
store_consumed-db [] db = refl
store_consumed-db ((j, n) ∷ c) db = store_consumed-db c _

same : (a b : ℕ) → a + 0 ≡ b → a ≡ b
same a b h = omega arith

pub store_consumed-IsStored :
    (c : List (ℕ × ℕ)) (db : StockDb) (held held' : ℕ → ℕ)
    → ((i : ℕ) → held' i + total i c ≡ held i)
    → IsKeyed (λ (i : Item). i.id) db.items
    → IsStored held db.items
    → IsStored held' (store_consumed c db).items
unfolding store_consumed add_stored
store_consumed-IsStored [] db held held' e keyed stored =
    All-map _ _ db.items (λ (i : Item) s. s ∙ ap pos (sym (same (held' i.id) (held i.id) (e i.id))))
      stored
store_consumed-IsStored ((j, n) ∷ c) db held held' e keyed stored =
    let between : ℕ → ℕ = λ i. held' i + total i c in
    store_consumed-IsStored c _ between held' (λ i. refl)
      (IsKeyed-update (λ (i : Item). i.id) j _ db.items (λ o. refl) keyed)
      (IsStored-change j (neg n) held between db.items (λ i other. ground (arith, e i))
        (sub-pos _ _ n (ground (arith, e j))) keyed stored)
