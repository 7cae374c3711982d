-- ===== src/Metric.antt =====
-- core/metrics/metric.py: units of measure and the conversion to base integers.
pub mod Conversion
use tgc_bus_core.Base.{
  ℕ, ◌*◌, ◌^◌, ◌≡◌, String, Bool, true, false, ◌||◌, Option, none, some, List, [], ◌∷◌, map, ◌==◌,
  if◌then◌else◌, get_or, lookup, strip, lower, replace_char, ◌=ₛ◌,
}
use tgc_bus_core.Base.Int.{ℤ, pos, neg}
use tgc_bus_core.Decimal.{Decimal, Number, of_nat, mul, div, quantize, quantize_cents}
use tgc_bus_core.Decimal
use tgc_bus_core.Effects.{
  Error, value_error, key_error, decimal_error, Result, ok, err, ◌then_do◌, of_option,
}

-- UNIT_MULTIPLIER
unfoldable pub unit_multiplier : List (String × List (String × ℕ))
unit_multiplier =
    ("length", ("mm", 1) ∷ ("cm", 10) ∷ ("m", 1000) ∷ [])
    ∷ ("area", ("mm2", 1) ∷ ("cm2", 100) ∷ ("m2", 1_000_000) ∷ [])
    ∷ (
      "volume",
      ("mm3", 1) ∷ ("cm3", 1_000) ∷ ("ml", 1_000) ∷ ("l", 1_000_000) ∷ ("m3", 1_000_000_000) ∷ [],
    )
    ∷ ("weight", ("mg", 1) ∷ ("g", 1_000) ∷ ("kg", 1_000_000) ∷ [])
    ∷ ("count", ("mc", 1) ∷ ("ea", 1_000) ∷ [])
    ∷ []

-- BASE_UNIT_LABEL
unfoldable pub base_unit_label : List (String × String)
base_unit_label =
    ("length", "mm") ∷ ("area", "mm2") ∷ ("volume", "mm3") ∷ ("weight", "mg") ∷ ("count", "mc") ∷ []

-- `_norm_unit`
unfoldable pub norm_unit : String → String
unfolding strip lower replace_char
norm_unit u =
    let normalized = replace_char "³" "3" (replace_char "²" "2" (lower (strip u))) in
    if normalized =ₛ "piece" then "ea" else normalized

-- `_norm_dimension`
unfoldable pub norm_dimension : String → String
unfolding strip lower
norm_dimension d = let d0 = lower (strip d) in if d0 =ₛ "mass" then "weight" else d0

unfoldable pub allowed_units_for : String → List String
unfolding norm_dimension unit_multiplier lookup
allowed_units_for dimension =
    map (λ e. e.0) (get_or (lookup (norm_dimension dimension) unit_multiplier) [])

unfoldable pub uom_multiplier : String → String → ℕ
unfolding norm_dimension norm_unit unit_multiplier lookup
uom_multiplier dimension unit =
    let units = get_or (lookup (norm_dimension dimension) unit_multiplier) [] in
    get_or (lookup (norm_unit unit) units) 0

-- The KeyError of an unknown dimension is left to the caller.
unfoldable pub default_unit_for : String → Result String
unfolding norm_dimension base_unit_label lookup
default_unit_for dimension = of_option (lookup (norm_dimension dimension) base_unit_label) key_error

abbrev pub signed : Bool → ℕ → ℤ
signed negative n = if negative then neg n else pos n

-- `int((q * Decimal(multiplier)).quantize(Decimal("1"), rounding=ROUND_HALF_UP))`. The rounding
-- is on the magnitude. A NaN reaches `int`, which raises ValueError, and an infinity is refused by
-- `quantize`.
unfoldable pub scale_to_int : Number → ℕ → Result ℤ
scale_to_int Number.malformed m = err decimal_error
scale_to_int Number.nan m = err (value_error "cannot convert NaN to integer")
scale_to_int (Number.infinity _) m = err decimal_error
scale_to_int (Number.finite negative coeff scale) m =
    of_option (quantize (mul (record { coeff = coeff; scale = scale }) (of_nat m))) decimal_error
    then_do λ n. ok (signed negative n)

unfoldable pub normalize_quantity_to_base_int : Number → String → String → Result ℤ
normalize_quantity_to_base_int Number.malformed uom dimension = err decimal_error
normalize_quantity_to_base_int q uom dimension =
    if uom_multiplier dimension uom == 0
    then err (value_error "unsupported_uom")
    else scale_to_int q (uom_multiplier dimension uom)

-- `from_base_qty`, in hundredths of the unit.
unfoldable pub from_base_qty : ℕ → String → String → Result ℕ
from_base_qty qty_base dimension unit =
    let mult = uom_multiplier (norm_dimension dimension) (norm_unit unit) in
    if mult == 0
    then err (value_error "Unsupported uom")
    else (of_option (div (of_nat qty_base) (of_nat mult)) decimal_error then_do λ q.
        of_option (quantize_cents q) decimal_error)
