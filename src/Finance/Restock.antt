-- ===== src/Finance/Restock.antt =====
-- core/api/routes/finance_api.py: the unit cost at which a refund takes goods back.
use tgc_bus_core.Base.{
  ℕ, ◌+◌, ◌*◌, ◌^◌, ◌≤◌, ◌<◌, ◌≡◌, ◌∙◌, arith, String, true, false, ◌&&◌, List, [], ◌∷◌, sum_by,
  ◌==◌, All, split_and, get_or, keep-All,
}
use tgc_bus_core.Decimal.{Number, of_nat}
use tgc_bus_core.Decimal.Means.{add-of_nat, mul-of_nat, div-quantize}
use mathlib.Core.Path.{subst}
use native.Mathlib.Nat.{zero-add, mul-le-mul_left}
use tgc_bus_core.Effects.{ok}
use tgc_bus_core.StockTables.{ItemMovement, StockSession}
use tgc_bus_core.Finance.{
  RefundIn, magnitude, is_given, is_source, is_taken, add_taken, mean_cost, mean_unit_cost,
  sale_movements, restock_unit_cost,
}

abbrev pub quantity : List ItemMovement → ℕ
quantity = sum_by (λ m. magnitude m.qty_change)

abbrev pub cost : List ItemMovement → ℕ
cost = sum_by (λ m. magnitude m.qty_change * m.unit_cost_cents)

add_taken_sums :
    (rows : List ItemMovement) (q c : ℕ)
    → q + quantity rows < 10 ^ 28
    → c + cost rows < 10 ^ 28
    → add_taken rows (of_nat q) (of_nat c) ≡ (of_nat (q + quantity rows), of_nat (c + cost rows))
unfolding add_taken
add_taken_sums [] q c hq hc = ground arith
add_taken_sums (m ∷ rows) q c hq hc =
    let n = magnitude m.qty_change in
    rw
      (
        add-of_nat q n (omega arith),
        mul-of_nat n m.unit_cost_cents (omega arith),
        add-of_nat c (n * m.unit_cost_cents) (omega arith),
        add_taken_sums rows (q + n) (c + n * m.unit_cost_cents) (omega arith) (omega arith),
      )
      (ground arith)

add_taken_all :
    (rows : List ItemMovement)
    → quantity rows < 10 ^ 28
    → cost rows < 10 ^ 28
    → add_taken rows (of_nat 0) (of_nat 0) ≡ (of_nat (quantity rows), of_nat (cost rows))
add_taken_all rows few cheap =
    add_taken_sums rows 0 0 (omega arith) (omega arith)
    ∙ rw (zero-add (quantity rows), zero-add (cost rows))

-- The unit costs lie between two bounds, and the rows took something.
abbrev Costs : ℕ → ℕ → ItemMovement → Type 0
Costs lo hi m = (lo ≤ m.unit_cost_cents) × (m.unit_cost_cents ≤ hi)

module _ (lo hi : ℕ) where
  cost-above : (rows : List ItemMovement) → All (Costs lo hi) rows → lo * quantity rows ≤ cost rows
  cost-above [] _ = omega arith
  cost-above (m ∷ rows) (h, hs) =
      omega (arith, cost-above rows hs, mul-le-mul_left (magnitude m.qty_change) h.0)

  cost-below : (rows : List ItemMovement) → All (Costs lo hi) rows → cost rows ≤ hi * quantity rows
  cost-below [] _ = omega arith
  cost-below (m ∷ rows) (h, hs) =
      omega (arith, cost-below rows hs, mul-le-mul_left (magnitude m.qty_change) h.1)

  mean_unit_cost-between :
      (m : ItemMovement) (rows : List ItemMovement)
      → hi < 10 ^ 28
      → is_taken m ≡ true
      → All (Costs lo hi) (m ∷ rows)
      → quantity (m ∷ rows) < 10 ^ 28
      → cost (m ∷ rows) < 10 ^ 28
      → (c : ℕ) × (mean_unit_cost (m ∷ rows) ≡ ok c) × (lo ≤ c) × (c ≤ hi)
  unfolding mean_unit_cost mean_cost
  mean_unit_cost-between m rows fits taken costs few cheap =
      let q = quantity (m ∷ rows) in
      let some_q : 0 < q = ground arith in
      let nonzero : (q == 0) ≡ false = ground arith in
      let (x, c, divided, rounded, above, below) =
        div-quantize lo hi fits (cost (m ∷ rows)) q some_q (cost-above (m ∷ rows) costs)
          (cost-below (m ∷ rows) costs) in
      (c, rw (add_taken_all (m ∷ rows) few cheap, nonzero, divided, rounded), above, below)

taken-of_found :
    (item_id : ℕ) (source : String) (ms : List ItemMovement) (m : ItemMovement)
    (rows : List ItemMovement)
    → sale_movements item_id source ms ≡ m ∷ rows
    → is_taken m ≡ true
unfolding sale_movements
taken-of_found item_id source ms m rows found =
    let p =
      λ (m : ItemMovement). m.item_id == item_id && is_source source m.source_id && is_taken m in
    let all : All (λ m. p m ≡ true) (m ∷ rows) =
      subst (All (λ m. p m ≡ true)) found (keep-All p ms) in
    (split_and (m.item_id == item_id && is_source source m.source_id) (is_taken m) all.0).1

-- Where a refund restocks for a sale whose movements took the item at unit costs between two
-- bounds, it finds a unit cost between the same bounds, for all roundings; the sums of quantities
-- and costs have at most 28 digits.
pub restock_unit_cost-between :
    (lo hi : ℕ) (body : RefundIn) (s : StockSession) (m : ItemMovement) (rows : List ItemMovement)
    → is_given body.related_source_id ≡ true
    → sale_movements body.item_id (get_or body.related_source_id "") s.flushed.movements ≡ m ∷ rows
    → All (Costs lo hi) (m ∷ rows)
    → hi < 10 ^ 28
    → quantity (m ∷ rows) < 10 ^ 28
    → cost (m ∷ rows) < 10 ^ 28
    → (c : ℕ) × (restock_unit_cost body s ≡ (ok (Number.finite false c 0), s)) × (lo ≤ c) × (c ≤ hi)
unfolding restock_unit_cost
restock_unit_cost-between lo hi body s m rows given found costs fits few cheap =
    let (c, mean, above, below) =
      mean_unit_cost-between lo hi m rows fits
        (taken-of_found body.item_id (get_or body.related_source_id "") s.flushed.movements m rows
          found)
        costs few cheap in
    (c, rw (given, found, mean), above, below)
