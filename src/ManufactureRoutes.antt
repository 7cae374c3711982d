-- ===== src/ManufactureRoutes.antt =====
-- core/api/routes/manufacturing.py: the request of a run. `parse` is `parse_run_request` of
-- core/api/schemas/manufacturing.py, which pydantic does. The journal is left out: an append that
-- fails is swallowed.
pub mod Failing
pub mod Ends
use tgc_bus_core.Base.{
  ℕ, String, Bool, true, false, ◌||◌, not, Option, none, some, List, [], ◌∷◌, ◌++◌, map, ◌==◌, ◌=ₛ◌,
  if◌then◌else◌, keep,
}
use tgc_bus_core.Base.Int.{ℤ, pos, ltb_ℤ}
use tgc_bus_core.Tables.{find_row}
use tgc_bus_core.Decimal.{Number}
use tgc_bus_core.Effects.{
  Error, http, active_invoice_exists, legacy_keys, insufficient_stock, stock_shortages, Result, ok,
  err, Action, Env, pure, raise, raise_if, gets, lift, or_raise, write, commit, rollback, ◌>>=◌,
  ◌>>◌,
}
use tgc_bus_core.Metric.{normalize_quantity_to_base_int}
use tgc_bus_core.StockTables.{Item, ManufacturingRun, StockSession}
use tgc_bus_core.Manufacturing.{
  RunRequest, recipe_run, adhoc_run, dimension_of, RunShortage, Validated, validate_run,
}
use tgc_bus_core.Manufacturing.Execute.{RunResult, recipe_of, notes_of, execute_run_txn}
use tgc_bus_core.QuantityGuard.{Json, scalar, array, object, Members, no_member, member}

-- key in payload
unfoldable pub has_key : String → Members → Bool
has_key key no_member = false
has_key key (member k v ms) = k =ₛ key || has_key key ms

-- `_reject_legacy_qty_keys`: the keys that are there.
unfoldable pub bad_keys : Members → List String
bad_keys payload =
    keep (λ k. has_key k payload)
      ("qty" ∷ "qty_base" ∷ "quantity_int" ∷ "quantity" ∷ "output_qty" ∷ [])

abbrev pub refuse_bad : List String → Result (Unit {0})
refuse_bad [] = ok tt
refuse_bad (k ∷ ks) = err (legacy_keys (k ∷ ks))

unfoldable pub check_payload : Json → Action StockSession (Unit {0})
check_payload (array vs) = raise (http 400 "single run only")
check_payload scalar = raise (http 400 "invalid payload")
check_payload (object payload) = do
  lift (refuse_bad (bad_keys payload))
  raise_if (not (has_key "quantity_decimal" payload)) (http 400 "quantity_decimal_required")
  raise_if (not (has_key "uom" payload)) (http 400 "uom_required")

abbrev pub quantity_of : RunRequest → Number
quantity_of (recipe_run _ quantity _ _) = quantity
quantity_of (adhoc_run _ quantity _ _ _) = quantity

abbrev pub unit_of : RunRequest → String
unit_of (recipe_run _ _ uom _) = uom
unit_of (adhoc_run _ _ uom _ _) = uom

-- `getattr(item, "dimension", None) or "count"`
abbrev pub dimension_or_count : Option Item → String
dimension_or_count none = "count"
dimension_or_count (some item) = dimension_of item

-- The quantity that a failed run is recorded with.
unfoldable pub failed_quantity : RunRequest → Option Item → Result ℤ
failed_quantity body item =
    normalize_quantity_to_base_int (quantity_of body) (unit_of body) (dimension_or_count item)

-- The checks on the recipe, before the run: the item that is made.
unfoldable pub checked_output : RunRequest → Action StockSession ℕ
checked_output (adhoc_run output_item_id _ _ _ _) = pure output_item_id
checked_output (recipe_run recipe_id _ _ _) = do
  found ← gets (λ s. find_row (λ r. r.id) recipe_id s.rows.recipes)
  recipe ← or_raise found (http 404 "Recipe not found")
  raise_if recipe.archived (http 400 "Recipe is archived")
  raise_if (recipe.output_item_id == 0) (http 400 "Recipe has no output item")
  raise_if (not (ltb_ℤ (pos 0) recipe.output_qty)) (http 400 "Recipe has invalid output quantity")
  pure recipe.output_item_id

-- `on_before_commit` is not given.
abbrev pub no_hook : RunResult → Result (Unit {0})
no_hook result = ok tt

module _ (env : Env) (body : RunRequest) where
  abbrev pub failed_run : ℕ → ℤ → ℕ → ManufacturingRun
  failed_run output_item_id output_qty id = record {
    id = id;
    recipe_id = recipe_of body;
    output_item_id = output_item_id;
    output_qty = output_qty;
    status = "failed_insufficient_stock";
    executed_at = none;
    notes = notes_of body;
  }

  -- `_record_failed_run`: the id of the run.
  unfoldable pub record_failed_run : ℕ → Action StockSession ℕ
  record_failed_run output_item_id = do
    found ← gets (λ s. find_row (λ i. i.id) output_item_id s.rows.items)
    output_qty ← lift (failed_quantity body found)
    id ← gets (λ s. env.next_id (map (λ r. r.id) s.rows.runs))
    write (λ db. record db { runs = db.runs ++ failed_run output_item_id output_qty id ∷ [] })
    commit
    pure id

  -- The answer for a shortage, after the run is recorded as failed.
  unfoldable pub refuse_short : ℕ → Action StockSession RunResult
  refuse_short output_item_id = do
    record_failed_run output_item_id
    raise (http 400 "insufficient_stock")

  abbrev pub run_or_refuse : Validated → List RunShortage → Action StockSession RunResult
  run_or_refuse v [] =
      execute_run_txn env no_hook body v.output_item_id v.required v.output_qty_base
  run_or_refuse v (shortage ∷ shortages) = refuse_short v.output_item_id

  -- The body of the `try`.
  unfoldable pub attempt : Action StockSession RunResult
  attempt = do v ← validate_run body; run_or_refuse v v.shortages

  -- The `except` clauses.
  unfoldable pub answer_error : ℕ → Error → Action StockSession RunResult
  answer_error output_item_id (insufficient_stock _) = rollback >> refuse_short output_item_id
  answer_error output_item_id (stock_shortages []) = rollback >> raise (stock_shortages [])
  answer_error output_item_id (stock_shortages (shortage ∷ shortages)) =
      rollback >> refuse_short output_item_id
  answer_error output_item_id (http status detail) = rollback >> raise (http status detail)
  answer_error output_item_id (active_invoice_exists id) =
      rollback >> raise (active_invoice_exists id)
  answer_error output_item_id (legacy_keys keys) = rollback >> raise (legacy_keys keys)
  answer_error output_item_id e = rollback >> raise (http 500 "failed_error")

  abbrev pub answer_run : ℕ → Result RunResult → Action StockSession RunResult
  answer_run output_item_id (ok result) = pure result
  answer_run output_item_id (err e) = answer_error output_item_id e

  -- try: … / except …
  unfoldable pub attempt_answered : ℕ → Action StockSession RunResult
  attempt_answered output_item_id s = let (r, t) = attempt s in answer_run output_item_id r t

  -- `_execute_manufacture`
  unfoldable pub execute_manufacture : Action StockSession RunResult
  execute_manufacture = do output_item_id ← checked_output body; attempt_answered output_item_id

unfoldable pub canonical_manufacture :
    Env → (Json → Result RunRequest) → Json → Action StockSession RunResult
canonical_manufacture env parse raw = do
  check_payload raw
  body ← lift (parse raw)
  execute_manufacture env body
