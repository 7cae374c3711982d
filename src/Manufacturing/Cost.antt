-- ===== src/Manufacturing/Cost.antt =====
-- What a cost comes to: the same half-up rounding in a run and a sale.
use tgc_bus_core.Base.{ℕ, ◌*◌, ◌^◌, ◌<◌, ◌≡◌, ◌≢◌, false, arith, ◌==◌, inl, inr}
use tgc_bus_core.Decimal.{of_nat, mul, div, quantize, half_up}
use tgc_bus_core.Decimal.Rounding.{div-ten_pow, quantize-mul-shifted_by}
use tgc_bus_core.Effects.{ok, decimal_error, of_option, ◌then_do◌}
use tgc_bus_core.Metric.{uom_multiplier}
use tgc_bus_core.Metric.Conversion.{uom_multiplier_power}
use tgc_bus_core.StockTables.{Item}
use tgc_bus_core.StockMutation.{sale_amount_cents}
use tgc_bus_core.Manufacturing.{dimension_of}
use tgc_bus_core.Manufacturing.Execute.{human_qty_from_base, cost_cents_for_base_qty}

module _ (unit_cost qty : ℕ) (few : qty < 10 ^ 28) (fits : unit_cost * qty < 10 ^ 28) where
  -- Dividing by a power of ten, multiplying and rounding is one half-up division.
  price_of :
      (j : ℕ)
      → (of_option (div (of_nat qty) (of_nat (10 ^ j))) decimal_error then_do λ human_qty.
          of_option (quantize (mul (of_nat unit_cost) human_qty)) decimal_error)
        ≡ ok (half_up (unit_cost * qty) (10 ^ j))
  price_of j = rw (div-ten_pow qty j few, quantize-mul-shifted_by qty j unit_cost fits)

  module _ (item : Item) (known : uom_multiplier (dimension_of item) item.uom ≢ 0) where
    -- Inputs cost their unit cost times their quantity in the item's unit, rounded half up to the
    -- cent, where the numbers have at most 28 digits.
    pub cost_cents_rounds :
        cost_cents_for_base_qty unit_cost qty item
        ≡ ok (half_up (unit_cost * qty) (uom_multiplier (dimension_of item) item.uom))
    unfolding cost_cents_for_base_qty human_qty_from_base
    cost_cents_rounds =
        let no_zero : (uom_multiplier (dimension_of item) item.uom == 0) ≡ false = ground arith in
        elim (uom_multiplier_power (dimension_of item) item.uom) [
          | inl zero_m ↦ absurd (known zero_m)
          | inr (j, _, power) ↦ rw (no_zero, power, price_of j)
        ]

-- Where the quantity and the price times it are both below 10 ^ 28, a sale's amount is the price
-- times the quantity in pieces, a thousandth of the base quantity, rounded half up to the cent.
pub sale_amount_rounds :
    (price qty : ℕ)
    → qty < 10 ^ 28
    → price * qty < 10 ^ 28
    → sale_amount_cents price qty ≡ ok (half_up (price * qty) 1000)
unfolding sale_amount_cents
sale_amount_rounds price qty few fits = price_of price qty few fits 3
