-- ===== src/Manufacturing.antt =====
-- core/manufacturing/service.py: `validate_run` and the allocation, costing and transaction of a
-- manufacturing run.
pub mod Execute
pub mod Stable
pub mod Keyed
pub mod Transaction
pub mod Cost
pub mod Allocate
pub mod Slices
pub mod Drawn
pub mod Recorded
pub mod Consumed
pub mod Balance
use tgc_bus_core.Base.{
  ℕ, ◌+◌, ◌-◌, min, String, Bool, true, false, ◌&&◌, Option, none, some, List, [], ◌∷◌, ◌++◌, map,
  ltb, ◌==◌, ◌=ₛ◌, if◌then◌else◌, sum_by, keep, not,
}
use tgc_bus_core.Base.Int.{ℤ, pos, negsuc, neg, pos_part, neg_part, ltb_ℤ}
use tgc_bus_core.Tables.{find_row, update_row, order_by}
use tgc_bus_core.Decimal.{Decimal, Number, of_nat, mul, div, quantize}
use tgc_bus_core.Effects.{
  Error, http, value_error, decimal_error, insufficient_stock, Result, ok, err, Action, Session,
  pure, raise, raise_if, gets, lift, or_raise, write, commit, rollback, of_option, ◌then_do◌, ◌>>=◌,
  ◌>>◌,
}
use tgc_bus_core.Metric.{uom_multiplier, normalize_quantity_to_base_int}
use tgc_bus_core.StockTables.{Item, ItemBatch, RecipeItem, Recipe, StockDb, StockSession}
use tgc_bus_core.Ledger.{on_hand_qty, open_batches, draw}

-- An entry of the list that `fifo.allocate` returns.
pub record Allocation : Type 0 where
  pub item_id : ℕ
  pub batch_id : ℕ
  pub qty : ℕ
  pub unit_cost_cents : ℕ

pub record Allocated : Type 0 where
  pub slices : List Allocation
  pub db : StockDb

module _ (item_id : ℕ) where
  unfoldable pub slice_of : ItemBatch → ℕ → Allocation
  slice_of batch taken = record {
    item_id = item_id;
    batch_id = batch.id;
    qty = taken;
    unit_cost_cents = batch.unit_cost_cents;
  }

  -- for batch in batches: …, with its `break` and its `continue`.
  unfoldable pub allocate_loop : List ItemBatch → ℕ → StockDb → Allocated
  allocate_loop [] remaining db = record { slices = []; db = db }
  allocate_loop (batch ∷ batches) remaining db =
      let taken = min batch.qty_remaining remaining in
      let rest =
        allocate_loop batches (remaining - taken)
          (if taken == 0 then db else draw batch.id taken db) in
      if remaining == 0
      then record { slices = []; db = db }
      else if taken == 0
      then rest
      else record rest { slices = slice_of batch taken ∷ rest.slices }

  -- `fifo.allocate`
  unfoldable pub allocate : ℕ → Action StockSession (List Allocation)
  allocate qty = if qty == 0 then pure [] else do
    batches ← gets (open_batches item_id)
    let available = sum_by (λ (b : ItemBatch). b.qty_remaining) batches
    raise_if (ltb available qty) (
        insufficient_stock (
          record {
            item_id = item_id;
            required = qty;
            on_hand = available;
            missing = qty - available;
          }
          ∷ []))
    allocated ← gets (λ s. allocate_loop batches qty s.rows)
    write (λ _. allocated.db)
    pure allocated.slices

-- `getattr(item, "dimension", None) or "count"`
abbrev pub dimension_of : Item → String
dimension_of item = if item.dimension =ₛ "" then "count" else item.dimension

-- `_to_base_qty_for_item`. The detail of the 404 goes on with the item's id.
unfoldable pub to_base_qty_for_item : ℕ → Number → String → Action StockSession ℤ
unfolding find_row
to_base_qty_for_item item_id quantity_decimal uom = do
  found ← gets (λ s. find_row (λ i. i.id) item_id s.rows.items)
  item ← or_raise found (http 404 "item_not_found")
  lift (normalize_quantity_to_base_int quantity_decimal uom (dimension_of item))

-- A decimal with its sign.
pub record SignedDecimal : Type 0 where
  pub negative : Bool
  pub magnitude : Decimal

abbrev is_negative : ℤ → Bool
is_negative (pos _) = false
is_negative (negsuc _) = true

abbrev magnitude_of : ℤ → ℕ
magnitude_of n = pos_part n + neg_part n

-- `_scale_ratio`
unfoldable pub scale_ratio : ℤ → ℤ → Result SignedDecimal
scale_ratio output_qty_base recipe_output_qty_base =
    if ltb_ℤ (pos 0) recipe_output_qty_base
    then (of_option
          (div (of_nat (magnitude_of output_qty_base)) (of_nat (pos_part recipe_output_qty_base)))
          decimal_error
        then_do λ q. ok (record { negative = is_negative output_qty_base; magnitude = q }))
    else err (value_error "recipe_output_qty_base_must_be_positive")

-- The `except ValueError` around it.
abbrev as_bad_recipe : {A : Type 0} → Result A → Result A
as_bad_recipe (err (value_error _)) = err (http 400 "Recipe has invalid output quantity")
as_bad_recipe r = r

-- int((Decimal(qty_required) * scale).quantize(Decimal("1"), rounding=ROUND_HALF_UP))
unfoldable pub scaled_requirement : ℕ → SignedDecimal → Result ℤ
scaled_requirement qty_required scale =
    of_option (quantize (mul (of_nat qty_required) scale.magnitude)) decimal_error then_do λ n.
    ok (if scale.negative then neg n else pos n)

pub record Required : Type 0 where
  pub item_id : ℕ
  pub required_base : ℤ
  pub is_optional : Bool

unfoldable pub require_scaled : SignedDecimal → List RecipeItem → Result (List Required)
require_scaled scale [] = ok []
require_scaled scale (it ∷ its) = scaled_requirement it.qty_required scale then_do λ n.
    require_scaled scale its then_do λ rest.
    ok (record { item_id = it.item_id; required_base = n; is_optional = it.is_optional } ∷ rest)

pub record Component : Type 0 where
  pub item_id : ℕ
  pub quantity_decimal : Option Number
  pub uom : Option String
  pub is_optional : Bool

-- RecipeRunRequest and AdhocRunRequest of core/api/schemas/manufacturing.py.
pub data RunRequest : Type 0 where
  recipe_run : ℕ → Number → String → Option String → RunRequest
  adhoc_run : ℕ → Number → String → List Component → Option String → RunRequest

require_component : Component → Action StockSession Required
unfolding to_base_qty_for_item
require_component c = elim (c.quantity_decimal) [
  | none ↦ raise (http 400 "adhoc_component_quantity_decimal_and_uom_required")
  | some quantity ↦ elim (c.uom) [
    | none ↦ raise (http 400 "adhoc_component_quantity_decimal_and_uom_required")
    | some uom ↦ do
      n ← to_base_qty_for_item c.item_id quantity uom
      pure (record { item_id = c.item_id; required_base = n; is_optional = c.is_optional })
  ]
]

unfoldable pub require_components : List Component → Action StockSession (List Required)
unfolding require_component
require_components [] = pure []
require_components (c ∷ cs) = do
  r ← require_component c
  rest ← require_components cs
  pure (r ∷ rest)

-- An entry that `format_shortages` makes.
pub record RunShortage : Type 0 where
  pub item_id : ℕ
  pub required : ℤ
  pub available : ℕ

-- A component that is not optional and asks for more than is on hand.
abbrev pub is_short : Required → ℕ → Bool
is_short r on_hand_base = not r.is_optional && ltb_ℤ (pos on_hand_base) r.required_base

unfoldable pub find_shortages : List Required → Action StockSession (List RunShortage)
find_shortages [] = pure []
find_shortages (r ∷ rs) = do
  on_hand_base ← on_hand_qty r.item_id
  rest ← find_shortages rs
  pure (
      if is_short r on_hand_base
      then (record { item_id = r.item_id; required = r.required_base; available = on_hand_base }
          ∷ rest)
      else rest)

-- What `validate_run` returns.
pub record Validated : Type 0 where
  pub output_item_id : ℕ
  pub required : List Required
  pub output_qty_base : ℤ
  pub shortages : List RunShortage

required_of : RunRequest → Action StockSession (ℕ × List Required × ℤ)
unfolding find_row to_base_qty_for_item require_components require_scaled scale_ratio order_by
required_of (recipe_run recipe_id quantity uom _) = do
  found ← gets (λ s. find_row (λ r. r.id) recipe_id s.rows.recipes)
  recipe ← or_raise found (http 404 "Recipe not found")
  raise_if (recipe.output_item_id == 0) (http 400 "Recipe has no output_item_id")
  output_qty_base ← to_base_qty_for_item recipe.output_item_id quantity uom
  scale ← lift (as_bad_recipe (scale_ratio output_qty_base recipe.output_qty))
  its ← gets (λ s.
      order_by (λ a b. ltb a.sort_order b.sort_order)
        (keep (λ it. it.recipe_id == recipe_id) s.flushed.recipe_items))
  required ← lift (require_scaled scale its)
  pure (recipe.output_item_id, required, output_qty_base)
required_of (adhoc_run output_item_id quantity uom components _) = do
  output_qty_base ← to_base_qty_for_item output_item_id quantity uom
  required ← require_components components
  pure (output_item_id, required, output_qty_base)

unfoldable pub validate_run : RunRequest → Action StockSession Validated
unfolding required_of find_shortages
validate_run body = do
  (output_item_id, required, output_qty_base) ← required_of body
  shortages ← find_shortages required
  pure (record {
    output_item_id = output_item_id;
    required = required;
    output_qty_base = output_qty_base;
    shortages = shortages;
  })
