-- ===== src/Examples/Floor.antt =====
-- The shop floor: frames are made by their recipe, while the office sells and books.
use tgc_bus_core.Base.{ℕ, ◌≡◌, refl, arith, false, none, List, ◌∷◌, ◌++◌, map, All}
use tgc_bus_core.Decimal.{Number}
use tgc_bus_core.Effects.{Result, ok, err, http, fresh}
use tgc_bus_core.StockTables.{ManufacturingRun}
use tgc_bus_core.Manufacturing.{
  RunRequest, recipe_run, validate_run, scale_ratio, require_scaled, scaled_requirement,
}
use tgc_bus_core.ManufactureRoutes.{
  canonical_manufacture, check_payload, has_key, bad_keys, execute_manufacture, checked_output,
  attempt_answered, attempt, refuse_short, record_failed_run, failed_quantity, answer_error,
}
use tgc_bus_core.Tables.{find_row, order_by}
use tgc_bus_core.Ledger.{on_hand_qty, on_hand}
use tgc_bus_core.Metric.{normalize_quantity_to_base_int, uom_multiplier, scale_to_int}
use tgc_bus_core.Decimal.{mul, fix, quantize, half_up, div, shift_of, digit_count}
use tgc_bus_core.ManufactureRoutes.Failing.{HasFailed}
use tgc_bus_core.ManufactureRoutes.Ends.{canonical_manufacture_refused}
use tgc_bus_core.QuantityGuard.{Json, Members}
use tgc_bus_core.Requests.{ShopRequest, serve_shop, serve_shop-IsSound}
use tgc_bus_core.StockRoutes.Serve.{IsSound}
use tgc_bus_core.Examples.Shop.{env, shop, shop-IsBalanced}
use tgc_bus_core.Examples.Market.{book_requests}
use tgc_bus_core.Examples.Workshop.{message, env-GivesFreshKeys, counter}

abbrev body : Json
body = Json.object (
    Members.member "quantity_decimal" Json.scalar
      (Members.member "uom" Json.scalar (Members.member "recipe_id" Json.scalar Members.no_member)))

-- So many frames, by the recipe.
abbrev frames : ℕ → Json → Result RunRequest
frames n raw = ok (recipe_run 1 (Number.finite false n 0) "ea" none)

-- One frame takes four nails, and there are eight: two can be made, three cannot.
abbrev shop_requests : List ShopRequest
shop_requests =
    ShopRequest.manufacture body
    ∷ ShopRequest.manufacture Json.scalar
    ∷ map ShopRequest.book book_requests

serve_shop-IsSound_example : IsSound (serve_shop env message (frames 2) shop_requests counter).db
serve_shop-IsSound_example =
    serve_shop-IsSound env message (frames 2) env-GivesFreshKeys shop_requests counter
      (record { balanced = shop-IsBalanced; keyed = ((λ e. ground arith, tt), (tt, tt)) })

too_many :
    (canonical_manufacture env (frames 3) body (fresh shop)).0 ≡ err (http 400 "insufficient_stock")
unfolding canonical_manufacture check_payload has_key bad_keys execute_manufacture checked_output
    attempt_answered attempt validate_run refuse_short record_failed_run failed_quantity
    answer_error find_row on_hand_qty on_hand normalize_quantity_to_base_int uom_multiplier
    scale_to_int mul fix quantize half_up scale_ratio div shift_of digit_count require_scaled
    scaled_requirement order_by
too_many = refl

canonical_manufacture_refused_example :
    (failed : List ManufacturingRun) × All HasFailed failed
    × ((canonical_manufacture env (frames 3) body (fresh shop)).1.committed
        ≡ record shop { runs = shop.runs ++ failed })
canonical_manufacture_refused_example =
    canonical_manufacture_refused env (frames 3) body shop (http 400 "insufficient_stock") too_many
