-- ===== src/Manufacturing/Execute.antt =====
-- `execute_run_txn` of core/manufacturing/service.py, and the transaction around it.
use tgc_bus_core.Base.{
  ℕ, ◌+◌, String, false, ◌&&◌, Option, none, some, List, [], ◌∷◌, ◌++◌, map, ltb, ◌==◌,
  if◌then◌else◌,
}
use tgc_bus_core.Base.Int.{ℤ, pos, negsuc, neg}
use tgc_bus_core.Tables.{find_row, update_row}
use tgc_bus_core.Decimal.{Decimal, of_nat, mul, div, quantize}
use tgc_bus_core.Effects.{
  http, value_error, decimal_error, Result, ok, err, Action, Env, pure, raise, gets, lift, or_raise,
  write, flush, commit, rollback, of_option, ◌then_do◌, ◌>>=◌, ◌>>◌,
}
use tgc_bus_core.Metric.{uom_multiplier}
use tgc_bus_core.StockTables.{Item, ItemBatch, ItemMovement, run, StockDb, StockSession}
use tgc_bus_core.Ledger.{on_hand_qty, add_stored, received}
use tgc_bus_core.Manufacturing.{
  Allocation, allocate, dimension_of, Required, RunRequest, recipe_run, adhoc_run,
}

-- `_basis_uom_for_item`: `uom_multiplier` returns 0 for an unknown unit and raises nothing, so the
-- branch behind `except` is never taken.
abbrev pub basis_uom_of : Item → String
basis_uom_of item = item.uom

-- `_human_qty_from_base`
unfoldable pub human_qty_from_base : ℕ → String → String → Result Decimal
human_qty_from_base qty_base dimension basis_uom =
    let mult = uom_multiplier dimension basis_uom in
    if mult == 0
    then err (value_error "invalid_uom_multiplier")
    else of_option (div (of_nat qty_base) (of_nat mult)) decimal_error

-- `_cost_cents_for_base_qty`
unfoldable pub cost_cents_for_base_qty : ℕ → ℕ → Item → Result ℕ
cost_cents_for_base_qty unit_cost_cents qty_base item =
    human_qty_from_base qty_base (dimension_of item) (basis_uom_of item) then_do λ human_qty.
    of_option (quantize (mul (of_nat unit_cost_cents) human_qty)) decimal_error

-- round_half_up_cents(Decimal(cost_inputs_cents) / output_human_qty)
unfoldable pub per_output_of : ℕ → Decimal → Result ℕ
per_output_of cost_inputs_cents output_human_qty =
    of_option (div (of_nat cost_inputs_cents) output_human_qty) decimal_error then_do λ q.
    of_option (quantize q) decimal_error

-- The dict `consumed_per_item_base`, in order of insertion.
unfoldable pub add_consumed : ℕ → ℕ → List (ℕ × ℕ) → List (ℕ × ℕ)
add_consumed item_id qty [] = (item_id, qty) ∷ []
add_consumed item_id qty ((j, n) ∷ consumed) =
    if j == item_id then (j, n + qty) ∷ consumed else (j, n) ∷ add_consumed item_id qty consumed

unfoldable pub consumed_of : List (ℕ × ℕ) → List Allocation → List (ℕ × ℕ)
consumed_of consumed [] = consumed
consumed_of consumed (a ∷ allocations) =
    consumed_of (add_consumed a.item_id a.qty consumed) allocations

-- An optional component without enough on hand is left out; so is one that needs nothing.
unfoldable pub allocate_component : Required → Action StockSession (List Allocation)
allocate_component r = elim (r.required_base) [
  | negsuc _ ↦ pure []
  | pos required_base ↦ if required_base == 0 then pure [] else do
    on_hand ← on_hand_qty r.item_id
    if r.is_optional && ltb on_hand required_base then pure [] else allocate r.item_id required_base
]

unfoldable pub allocate_all : List Required → Action StockSession (List Allocation)
allocate_all [] = pure []
allocate_all (r ∷ rs) = do
  slices ← allocate_component r
  rest ← allocate_all rs
  pure (slices ++ rest)

unfoldable pub used : ℕ → Allocation → ItemMovement
used run_id a = record {
  item_id = a.item_id;
  batch_id = a.batch_id;
  qty_change = neg a.qty;
  unit_cost_cents = a.unit_cost_cents;
  source_kind = "manufacturing";
  source_id = some (run run_id);
  is_oversold = false;
}

-- One round of the loop over the allocations: its movement, and its cost.
unfoldable pub record_input : ℕ → Allocation → Action StockSession ℕ
unfolding find_row
record_input run_id a = do
  write (λ db. record db { movements = db.movements ++ used run_id a ∷ [] })
  found ← gets (λ s. find_row (λ i. i.id) a.item_id s.rows.items)
  item ← or_raise found (http 404 "item_not_found")
  lift (cost_cents_for_base_qty a.unit_cost_cents a.qty item)

unfoldable pub record_inputs : ℕ → List Allocation → Action StockSession ℕ
record_inputs run_id [] = pure 0
record_inputs run_id (a ∷ allocations) = do
  cost ← record_input run_id a
  rest ← record_inputs run_id allocations
  pure (cost + rest)

-- for item_id, qty_base in consumed_per_item_base.items(): …
unfoldable pub store_consumed : List (ℕ × ℕ) → StockDb → StockDb
store_consumed [] db = db
store_consumed ((item_id, qty) ∷ consumed) db =
    store_consumed consumed (add_stored item_id (neg qty) db)

unfoldable pub produced : Env → ℕ → ℕ → ℕ → ℕ → ℕ → ItemBatch
produced env run_id output_item_id qty per_output_cents id = record {
  id = id;
  item_id = output_item_id;
  qty_initial = qty;
  qty_remaining = qty;
  unit_cost_cents = per_output_cents;
  source_kind = "manufacturing";
  source_id = some (run run_id);
  is_oversold = false;
  created_at = env.now;
}

-- The output's quantity must come out positive in the item's own unit.
unfoldable pub output_human_qty : ℤ → Item → Result (ℕ × Decimal)
output_human_qty (negsuc _) item =
    if uom_multiplier (dimension_of item) (basis_uom_of item) == 0
    then err (value_error "invalid_uom_multiplier")
    else err (http 400 "invalid_output_qty")
output_human_qty (pos qty) item =
    human_qty_from_base qty (dimension_of item) (basis_uom_of item) then_do λ human_qty.
    if qty == 0 then err (http 400 "invalid_output_qty") else ok (qty, human_qty)

-- What the run returns, and its `meta`.
pub record RunResult : Type 0 where
  pub run_id : ℕ
  pub allocations : List Allocation
  pub cost_inputs_cents : ℕ
  pub per_output_cents : ℕ
  pub output_batch_id : ℕ

unfoldable pub recipe_of : RunRequest → Option ℕ
recipe_of (recipe_run recipe_id _ _ _) = some recipe_id
recipe_of (adhoc_run _ _ _ _ _) = none

unfoldable pub notes_of : RunRequest → Option String
notes_of (recipe_run _ _ _ notes) = notes
notes_of (adhoc_run _ _ _ _ notes) = notes

module _ (env : Env) (body : RunRequest) (output_item_id : ℕ) (output_qty_base : ℤ) where
  unfoldable pub start_run : Action StockSession ℕ
  unfolding recipe_of notes_of
  start_run = do
    run_id ← gets (λ s. env.next_id (map (λ r. r.id) s.rows.runs))
    write (λ db. record db {
      runs =
          db.runs
          ++ record {
            id = run_id;
            recipe_id = recipe_of body;
            output_item_id = output_item_id;
            output_qty = output_qty_base;
            status = "created";
            executed_at = none;
            notes = notes_of body;
          }
            ∷ [];
    })
    flush
    pure run_id

  -- The output batch, its movement, the stored quantities and the run's status.
  unfoldable pub finish_run : ℕ → List Allocation → ℕ → ℕ → ℕ → Action StockSession ℕ
  unfolding update_row
  finish_run run_id allocations qty cost_inputs_cents per_output_cents = do
    batch_id ← gets (λ s. env.next_id (map (λ b. b.id) s.rows.batches))
    write (λ db. record db {
      batches = db.batches ++ produced env run_id output_item_id qty per_output_cents batch_id ∷ [];
    })
    flush
    write (λ db. record db {
      movements =
          db.movements
          ++ received output_item_id batch_id qty per_output_cents "manufacturing"
              (some (run run_id))
            ∷ [];
    })
    write (store_consumed (consumed_of [] allocations))
    write (add_stored output_item_id (pos qty))
    write (λ db. record db {
      runs =
          update_row (λ r. r.id) run_id
            (λ r. record r { status = "completed"; executed_at = some env.now }) db.runs;
    })
    pure batch_id

  -- The body of `execute_run_txn`.
  unfoldable pub execute_run : List Required → Action StockSession RunResult
  unfolding find_row
  execute_run required_components = do
    run_id ← start_run
    allocations ← allocate_all required_components
    cost_inputs_cents ← record_inputs run_id allocations
    found ← gets (λ s. find_row (λ i. i.id) output_item_id s.rows.items)
    output_item ← or_raise found (http 404 "item_not_found")
    (qty, human_qty) ← lift (output_human_qty output_qty_base output_item)
    per_output_cents ← lift (per_output_of cost_inputs_cents human_qty)
    batch_id ← finish_run run_id allocations qty cost_inputs_cents per_output_cents
    pure (record {
      run_id = run_id;
      allocations = allocations;
      cost_inputs_cents = cost_inputs_cents;
      per_output_cents = per_output_cents;
      output_batch_id = batch_id;
    })

-- The body, and the hook on its result. The hook gets no session: it returns or raises.
unfoldable pub hooked :
    {A : Type 0} → (A → Result (Unit {0})) → Action StockSession A → Action StockSession A
hooked on_before_commit body = do result ← body; lift (on_before_commit result); pure result

-- `transactional`: a return commits, and any exception rolls back and goes on.
unfoldable pub transactional :
    {A : Type 0} → (A → Result (Unit {0})) → Action StockSession A → Action StockSession A
unfolding hooked
transactional on_before_commit body s = let (r, t) = hooked on_before_commit body s in settle r t
  where
    settle : {A : Type 0} → Result A → Action StockSession A
    settle (ok a) = commit >> pure a
    settle (err e) = rollback >> raise e

-- `execute_run_txn`
unfoldable pub execute_run_txn :
    Env
    → (RunResult → Result (Unit {0}))
    → RunRequest
    → ℕ
    → List Required
    → ℤ
    → Action StockSession RunResult
unfolding transactional
execute_run_txn env on_before_commit body output_item_id required_components output_qty_base =
    transactional on_before_commit
      (execute_run env body output_item_id output_qty_base required_components)
