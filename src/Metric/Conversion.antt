-- ===== src/Metric/Conversion.antt =====
-- The multipliers of core/metrics/metric.py, and what the conversion to base integers gives.
use tgc_bus_core.Base.{
  ℕ, ◌+◌, ◌*◌, ◌/◌, ◌^◌, ◌≤◌, ◌<◌, ◌≡◌, ◌≢◌, refl, ◌∙◌, ◌⊎◌, inl, inr, String, Bool, false, Option,
  none, some, List, [], arith, lt→ltb, ◌==◌, ◌=ₛ◌, Bool-cases, Option-cases, lookup, lookup-All,
  All, get_or,
}
use tgc_bus_core.Base.Int.{pos}
use tgc_bus_core.Decimal.{Number, mul, quantize, half_up}
use tgc_bus_core.Decimal.Rounding.{half_up-le, fix-small, ten-pos}
use tgc_bus_core.Effects.{ok, err, key_error}
use tgc_bus_core.Metric.{
  unit_multiplier, base_unit_label, norm_unit, norm_dimension, uom_multiplier, default_unit_for,
  signed, scale_to_int, normalize_quantity_to_base_int,
}

abbrev pub IsPowerOfTen : ℕ → Type 0
IsPowerOfTen m = (j : ℕ) × (j ≤ 9) × (m ≡ 10 ^ j)

units_powers : All (λ e. All (λ u. IsPowerOfTen u.1) e.1) unit_multiplier
unfolding unit_multiplier
units_powers = (
  ((0, omega arith, refl), ((1, omega arith, refl), ((3, omega arith, refl), tt))),
  (
    ((0, omega arith, refl), ((2, omega arith, refl), ((6, omega arith, refl), tt))),
    (
      (
        (0, omega arith, refl),
        (
          (3, omega arith, refl),
          ((3, omega arith, refl), ((6, omega arith, refl), ((9, omega arith, refl), tt))),
        ),
      ),
      (
        ((0, omega arith, refl), ((3, omega arith, refl), ((6, omega arith, refl), tt))),
        (((0, omega arith, refl), ((3, omega arith, refl), tt)), tt),
      ),
    ),
  ),
)

powers-get :
    (o : Option (List (String × ℕ)))
    → ((us : List (String × ℕ)) → o ≡ some us → All (λ u. IsPowerOfTen u.1) us)
    → All (λ u. IsPowerOfTen u.1) (get_or o [])
powers-get none h = tt
powers-get (some us) h = h us refl

power-get :
    (o : Option ℕ)
    → ((m : ℕ) → o ≡ some m → IsPowerOfTen m)
    → (get_or o 0 ≡ 0) ⊎ IsPowerOfTen (get_or o 0)
power-get none h = inl refl
power-get (some m) h = inr (h m refl)

-- For any texts, the multiplier is 0, which says that the unit is not one of the dimension's, or a
-- power of ten up to 10⁹.
pub uom_multiplier_power :
    (dimension unit : String)
    → (uom_multiplier dimension unit ≡ 0) ⊎ IsPowerOfTen (uom_multiplier dimension unit)
unfolding uom_multiplier
uom_multiplier_power dimension unit =
    let units = get_or (lookup (norm_dimension dimension) unit_multiplier) [] in
    let powers : All (λ u. IsPowerOfTen u.1) units = powers-get _ (λ us found.
      lookup-All (λ us. All (λ u. IsPowerOfTen u.1) us) (norm_dimension dimension) unit_multiplier
        us units_powers found) in
    power-get _ (λ m found. lookup-All IsPowerOfTen (norm_unit unit) units m powers found)

-- The label of a dimension's base unit is a unit of that dimension.
label_unit :
    (d u : String)
    → lookup d base_unit_label ≡ some u
    → get_or (lookup (norm_unit u) (get_or (lookup d unit_multiplier) [])) 0 ≡ 1
unfolding lookup base_unit_label unit_multiplier norm_unit
label_unit d u found = elim (Bool-cases ("length" =ₛ d)) [
  | inl here ↦
      let labelled : some "mm" ≡ some u = rw here at found in
      let same : "mm" ≡ u = cc in rw (here, ← same)
  | inr not_length ↦ elim (Bool-cases ("area" =ₛ d)) [
    | inl here ↦
        let labelled : some "mm2" ≡ some u = rw (not_length, here) at found in
        let same : "mm2" ≡ u = cc in rw (not_length, here, ← same)
    | inr not_area ↦ elim (Bool-cases ("volume" =ₛ d)) [
      | inl here ↦
          let labelled : some "mm3" ≡ some u = rw (not_length, not_area, here) at found in
          let same : "mm3" ≡ u = cc in rw (not_length, not_area, here, ← same)
      | inr not_volume ↦ elim (Bool-cases ("weight" =ₛ d)) [
        | inl here ↦
            let labelled : some "mg" ≡ some u =
              rw (not_length, not_area, not_volume, here) at found in
            let same : "mg" ≡ u = cc in rw (not_length, not_area, not_volume, here, ← same)
        | inr not_weight ↦ elim (Bool-cases ("count" =ₛ d)) [
          | inl here ↦
              let labelled : some "mc" ≡ some u =
                rw (not_length, not_area, not_volume, not_weight, here) at found in
              let same : "mc" ≡ u = cc in
              rw (not_length, not_area, not_volume, not_weight, here, ← same)
          | inr not_count ↦
              let none_found : none ≡ some u =
                rw (not_length, not_area, not_volume, not_weight, not_count) at found in
              cc
        ]
      ]
    ]
  ]
]

-- The default unit of a dimension is its base unit: its multiplier is 1.
pub default_unit_for_base :
    (dimension unit : String)
    → default_unit_for dimension ≡ ok unit
    → uom_multiplier dimension unit ≡ 1
unfolding default_unit_for uom_multiplier
default_unit_for_base dimension unit given =
    elim (Option-cases (lookup (norm_dimension dimension) base_unit_label)) [
      | inl missing ↦ let refused : err key_error ≡ ok unit = rw missing at given in cc
      | inr (u, found) ↦
          let labelled : ok u ≡ ok unit = rw found at given in
          let same : u ≡ unit = cc in rw (← same) (label_unit (norm_dimension dimension) u found)
    ]

module _ (negative : Bool) (coeff scale : ℕ) (uom dimension : String) where
  -- A quantity in a known unit converts to its value in base units, rounded half up, where the
  -- product has at most 28 digits.
  pub normalize_quantity_rounds :
      uom_multiplier dimension uom ≢ 0
      → coeff * uom_multiplier dimension uom < 10 ^ 28
      → normalize_quantity_to_base_int (Number.finite negative coeff scale) uom dimension
        ≡ ok (signed negative (half_up (coeff * uom_multiplier dimension uom) (10 ^ scale)))
  unfolding normalize_quantity_to_base_int scale_to_int mul quantize
  normalize_quantity_rounds known fits =
      let m = uom_multiplier dimension uom in
      let no_zero : (m == 0) ≡ false = ground arith in
      let bound : half_up (coeff * m) (10 ^ scale) < 10 ^ 28 =
        omega (arith, half_up-le (coeff * m) (10 ^ scale) (ten-pos scale)) in
      let same : scale + 0 ≡ scale = omega arith in
      rw (
        no_zero,
        fix-small (record { coeff = coeff * m; scale = scale + 0 }) fits,
        same,
        lt→ltb _ _ bound,
      )

-- A whole number of units converts exactly.
pub normalize_quantity_whole :
    (n : ℕ) (uom dimension : String)
    → uom_multiplier dimension uom ≢ 0
    → n * uom_multiplier dimension uom < 10 ^ 28
    → normalize_quantity_to_base_int (Number.finite false n 0) uom dimension
      ≡ ok (pos (n * uom_multiplier dimension uom))
unfolding half_up
normalize_quantity_whole n uom dimension known fits =
    let exact : (2 * (n * uom_multiplier dimension uom) + 1) / 2
        ≡ n * uom_multiplier dimension uom =
      omega arith in
    normalize_quantity_rounds false n 0 uom dimension known fits ∙ rw exact
