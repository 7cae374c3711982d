-- ===== src/Examples/Money.antt =====
-- Amounts and quantities in the shop.
use tgc_bus_core.Base.{◌*◌, ◌^◌, ◌≡◌, ◌≢◌, refl, arith, false}
use tgc_bus_core.Decimal.{Number, half_up}
use tgc_bus_core.Effects.{ok}
use tgc_bus_core.Metric.{uom_multiplier, signed, normalize_quantity_to_base_int}
use tgc_bus_core.Metric.Conversion.{normalize_quantity_rounds}
use tgc_bus_core.StockMutation.{sale_amount_cents}
use tgc_bus_core.Manufacturing.Execute.{cost_cents_for_base_qty}
use tgc_bus_core.Manufacturing.Cost.{cost_cents_rounds, sale_amount_rounds}
use tgc_bus_core.Examples.Shop.{nail}

kilogram : uom_multiplier "weight" "kg" ≡ 1_000_000
unfolding uom_multiplier
kilogram = refl

piece : uom_multiplier "count" "ea" ≡ 1000
unfolding uom_multiplier
piece = refl

known : uom_multiplier "weight" "kg" ≢ 0
known e = omega (arith, kilogram, e)

known_piece : uom_multiplier "count" "ea" ≢ 0
known_piece e = omega (arith, piece, e)

normalize_quantity_rounds_example :
    normalize_quantity_to_base_int (Number.finite false 12345678 8) "kg" "weight"
    ≡ ok (signed false (half_up (12345678 * uom_multiplier "weight" "kg") (10 ^ 8)))
normalize_quantity_rounds_example =
    normalize_quantity_rounds false 12345678 8 "kg" "weight" known (rw kilogram (omega arith))

cost_cents_rounds_example :
    cost_cents_for_base_qty 15 2500 nail ≡ ok (half_up (15 * 2500) (uom_multiplier "count" "ea"))
cost_cents_rounds_example = cost_cents_rounds 15 2500 (omega arith) (omega arith) nail known_piece

sale_amount_rounds_example : sale_amount_cents 250 1500 ≡ ok (half_up (250 * 1500) 1000)
sale_amount_rounds_example = sale_amount_rounds 250 1500 (omega arith) (omega arith)
