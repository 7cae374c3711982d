-- ===== src/Jobs/LineValues.antt =====
-- core/services/jobs.py: the values of a line of a job, and their checks.
use tgc_bus_core.Base.{
  ℕ, ◌/◌, ◌%◌, ◌^◌, String, not, ◌&&◌, ◌||◌, Option, none, some, List, [], ◌∷◌, ◌==◌, ◌=ₛ◌,
  mem_text, if◌then◌else◌, get_or, strip, lower, lookup,
}
use tgc_bus_core.Base.Int.{ℤ, pos, ltb_ℤ}
use tgc_bus_core.Tables.{find_row}
use tgc_bus_core.Decimal.{Number}
use tgc_bus_core.Effects.{
  http, value_error, Result, ok, err, Action, pure, gets, lift, or_raise, of_option, ◌then_do◌,
  ◌>>=◌,
}
use tgc_bus_core.Metric.{allowed_units_for, normalize_quantity_to_base_int}
use tgc_bus_core.StockTables.{Item, Recipe}
use tgc_bus_core.JobTables.{LineStatus, JobSession}

-- JOB_LINE_TYPES
abbrev pub job_line_types : List String
job_line_types = "product" ∷ "service" ∷ "fee" ∷ "note" ∷ []

-- `_validate_line_type`
unfoldable pub check_line_type : Option String → Result String
check_line_type line_type =
    let value = lower (strip (get_or line_type "")) in
    if mem_text value job_line_types then ok value else err (http 400 "invalid_job_line_type")

-- JOB_LINE_STATUSES
unfoldable pub job_line_statuses : List (String × LineStatus)
job_line_statuses =
    ("pending", LineStatus.pending)
    ∷ ("produced", LineStatus.produced)
    ∷ ("delivered", LineStatus.delivered)
    ∷ ("cancelled", LineStatus.cancelled)
    ∷ []

-- `_validate_line_status`
unfoldable pub validate_line_status : Option String → Result LineStatus
unfolding job_line_statuses lookup
validate_line_status status =
    of_option (lookup (lower (strip (get_or status ""))) job_line_statuses)
      (http 400 "invalid_job_line_status")

-- `_validate_unit_price_cents`
unfoldable pub check_unit_price : Option Number → Result (Option ℕ)
check_unit_price none = ok none
check_unit_price (some (Number.finite negative coeff scale)) =
    if (negative && not (coeff == 0)) || not (coeff % 10 ^ scale == 0)
    then err (http 400 "unit_price_cents_invalid")
    else ok (some (coeff / 10 ^ scale))
check_unit_price (some _) = err (http 400 "unit_price_cents_invalid")

-- `_validate_item_recipe`: a key that is given must be a row's.
unfoldable pub fetch_item : Option ℕ → Action JobSession (Option Item)
unfolding find_row
fetch_item none = pure none
fetch_item (some item_id) = do
  found ← gets (λ s. find_row (λ i. i.id) item_id s.rows.items)
  item ← or_raise found (http 404 "item_not_found")
  pure (some item)

unfoldable pub fetch_recipe : Option ℕ → Action JobSession (Option Recipe)
unfolding find_row
fetch_recipe none = pure none
fetch_recipe (some recipe_id) = do
  found ← gets (λ s. find_row (λ r. r.id) recipe_id s.rows.recipes)
  recipe ← or_raise found (http 404 "recipe_not_found")
  pure (some recipe)

unfoldable pub validate_item_recipe :
    Option ℕ → Option ℕ → Action JobSession (Option Item × Option Recipe)
validate_item_recipe item_id recipe_id = do
  item ← fetch_item item_id
  recipe ← fetch_recipe recipe_id
  pure (item, recipe)

-- `_quantity_authority_item`
unfoldable pub quantity_authority_item :
    Option Item → Option Recipe → Action JobSession (Option Item)
unfolding find_row
quantity_authority_item (some item) recipe = pure (some item)
quantity_authority_item none none = pure none
quantity_authority_item none (some recipe) = do
  found ← gets (λ s. find_row (λ i. i.id) recipe.output_item_id s.rows.items)
  item ← or_raise found (http 400 "recipe_output_item_not_found")
  pure (some item)

-- The dimension that the quantity is in: the item's, and "count" for a service or a fee in pieces.
unfoldable pub quantity_dimension : String → String → Option Item → Result String
quantity_dimension line_type display_uom (some item) = ok item.dimension
quantity_dimension line_type display_uom none =
    if not (mem_text line_type ("service" ∷ "fee" ∷ []))
    then err (http 400 "item_or_recipe_required_for_quantity")
    else if not (display_uom =ₛ "ea")
    then err (http 400 "invalid_uom")
    else ok "count"

-- Every error of the conversion is one of two HTTP errors.
unfoldable pub as_quantity_error : Result ℤ → Result ℤ
as_quantity_error (ok n) = ok n
as_quantity_error (err (value_error text)) =
    if text =ₛ "unsupported_uom"
    then err (http 400 "invalid_uom")
    else err (http 400 "invalid_quantity")
as_quantity_error (err _) = err (http 400 "invalid_quantity")

-- The conversion and the checks around it.
unfoldable pub to_line_quantity : Number → String → String → Result ℤ
to_line_quantity quantity display_uom dimension =
    if not (mem_text display_uom (allowed_units_for dimension))
    then err (http 400 "invalid_uom")
    else (as_quantity_error (normalize_quantity_to_base_int quantity display_uom dimension)
        then_do λ qty_base.
            if ltb_ℤ (pos 0) qty_base
            then ok qty_base
            else err (http 400 "quantity_decimal_must_be_positive"))

-- The unit of a quantity, and the refusal of a note's.
unfoldable pub quantity_uom : String → Option String → Result String
quantity_uom line_type uom =
    let display_uom = lower (strip (get_or uom "")) in
    if display_uom =ₛ ""
    then err (http 400 "uom_required")
    else if line_type =ₛ "note"
    then err (http 400 "quantity_not_allowed_for_note_line")
    else ok display_uom

-- `_normalize_line_quantity`
unfoldable pub normalize_line_quantity :
    String
    → Option ℕ
    → Option ℕ
    → Option Number
    → Option String
    → Action JobSession (Option ℤ × Option String)
normalize_line_quantity line_type item_id recipe_id none uom = pure (none, uom)
normalize_line_quantity line_type item_id recipe_id (some quantity) uom = do
  display_uom ← lift (quantity_uom line_type uom)
  (item, recipe) ← validate_item_recipe item_id recipe_id
  authority_item ← quantity_authority_item item recipe
  dimension ← lift (quantity_dimension line_type display_uom authority_item)
  qty_base ← lift (to_line_quantity quantity display_uom dimension)
  pure (some qty_base, some display_uom)
