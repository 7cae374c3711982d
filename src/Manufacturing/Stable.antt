-- ===== src/Manufacturing/Stable.antt =====
-- core/manufacturing/service.py: what the steps of a run keep, the body of the run keeps.
use tgc_bus_core.Base.{ℕ, String, Option, none, some, List, [], ◌∷◌, ◌++◌}
use tgc_bus_core.Base.Int.{ℤ, pos, negsuc}
use tgc_bus_core.Effects.{Action, Env, write}
use tgc_bus_core.Effects.Keeps.{Keeps, Leads-bind, Keeps-gets, Keeps-pure, keeps_rules}
use tgc_bus_core.StockTables.{StockSession}
use tgc_bus_core.Ledger.{on_hand_qty}
use tgc_bus_core.Manufacturing.{
  Allocation, allocate, Required, RunRequest, recipe_run, adhoc_run, Component,
  to_base_qty_for_item, require_component, require_components, find_shortages, required_of,
  validate_run,
}
use tgc_bus_core.Decimal.{Number}
use tgc_bus_core.Manufacturing.Execute.{
  used, allocate_component, allocate_all, record_input, record_inputs, execute_run, start_run,
  finish_run,
}

-- The movement of one round of the loop over the allocations.
abbrev pub record_movement : ℕ → Allocation → Action StockSession (Unit {0})
record_movement run_id a =
    write (λ db. record db { movements = db.movements ++ used run_id a ∷ [] })

pub record IsRunStable (env : Env) (P : StockSession → Type 0) : Type 0 where
  pub starts :
      (body : RunRequest) (output_item_id : ℕ) (output_qty : ℤ)
      → Keeps P (start_run env body output_item_id output_qty)
  pub draws : (item_id qty : ℕ) → Keeps P (allocate item_id qty)
  pub uses : (run_id : ℕ) (a : Allocation) → Keeps P (record_movement run_id a)
  pub ends :
      (body : RunRequest) (output_item_id : ℕ) (output_qty : ℤ) (run_id : ℕ)
      (allocations : List Allocation) (qty cost per : ℕ)
      → Keeps P (finish_run env body output_item_id output_qty run_id allocations qty cost per)

module _ {env : Env} {P : StockSession → Type 0} (stable : IsRunStable env P) where
  Keeps-draws : (item_id qty : ℕ) → Keeps P (allocate item_id qty)
  Keeps-draws = stable.draws

  Keeps-uses : (run_id : ℕ) (a : Allocation) → Keeps P (record_movement run_id a)
  Keeps-uses = stable.uses

  Keeps-component : (r : Required) → Keeps P (allocate_component r)
  unfolding allocate_component on_hand_qty
  Keeps-component r = of_sign r.required_base
    where
      of_sign : (n : ℤ) → Keeps P (allocate_component (record r { required_base = n }))
      of_sign (negsuc n) = search keeps_rules
      of_sign (pos n) = search (keeps_rules, Keeps-draws) depth 9

  Keeps-allocate_all : (rs : List Required) → Keeps P (allocate_all rs)
  unfolding allocate_all
  Keeps-allocate_all [] = search keeps_rules
  Keeps-allocate_all (r ∷ rs) =
      Leads-bind _ _ (Keeps-component r)
        (λ slices. Leads-bind _ _ (Keeps-allocate_all rs) (λ rest. search keeps_rules))

  Keeps-record_input : (run_id : ℕ) (a : Allocation) → Keeps P (record_input run_id a)
  unfolding record_input
  Keeps-record_input run_id a = search (keeps_rules, Keeps-uses) depth 9

  Keeps-record_inputs :
      (run_id : ℕ) (allocations : List Allocation) → Keeps P (record_inputs run_id allocations)
  unfolding record_inputs
  Keeps-record_inputs run_id [] = search keeps_rules
  Keeps-record_inputs run_id (a ∷ allocations) =
      Leads-bind _ _ (Keeps-record_input run_id a) (λ cost.
        Leads-bind _ _ (Keeps-record_inputs run_id allocations) (λ rest. search keeps_rules))

  module _ (body : RunRequest) (output_item_id : ℕ) (output_qty : ℤ) where
    Keeps-starts : Keeps P (start_run env body output_item_id output_qty)
    Keeps-starts = stable.starts body output_item_id output_qty

    Keeps-ends :
        (run_id : ℕ) (allocations : List Allocation) (qty cost per : ℕ)
        → Keeps P (finish_run env body output_item_id output_qty run_id allocations qty cost per)
    Keeps-ends = stable.ends body output_item_id output_qty

    pub Keeps-execute_run :
        (required : List Required)
        → Keeps P (execute_run env body output_item_id output_qty required)
    unfolding execute_run
    Keeps-execute_run required =
        search (keeps_rules, Keeps-starts, Keeps-allocate_all, Keeps-record_inputs, Keeps-ends)
          depth 16

-- The checks of a run write nothing.
module _ {P : StockSession → Type 0} where
  Keeps-base_qty :
      (item_id : ℕ) (q : Number) (uom : String) → Keeps P (to_base_qty_for_item item_id q uom)
  unfolding to_base_qty_for_item
  Keeps-base_qty item_id q uom = search keeps_rules depth 9

  Keeps-require_component : (c : Component) → Keeps P (require_component c)
  unfolding require_component
  Keeps-require_component c = of_fields c.quantity_decimal c.uom
    where
      of_fields :
          (q : Option Number) (u : Option String)
          → Keeps P (require_component (record c { quantity_decimal = q; uom = u }))
      of_fields none u = search keeps_rules
      of_fields (some q) none = search keeps_rules
      of_fields (some q) (some u) = search (keeps_rules, Keeps-base_qty) depth 9

  Keeps-require_components : (cs : List Component) → Keeps P (require_components cs)
  unfolding require_components
  Keeps-require_components [] = search keeps_rules
  Keeps-require_components (c ∷ cs) =
      Leads-bind _ _ (Keeps-require_component c)
        (λ r. Leads-bind _ _ (Keeps-require_components cs) (λ rest. search keeps_rules))

  Keeps-on_hand : (item_id : ℕ) → Keeps P (on_hand_qty item_id)
  unfolding on_hand_qty
  Keeps-on_hand item_id = Keeps-gets _

  Keeps-find_shortages : (rs : List Required) → Keeps P (find_shortages rs)
  unfolding find_shortages
  Keeps-find_shortages [] = search keeps_rules
  Keeps-find_shortages (r ∷ rs) =
      Leads-bind _ _ (Keeps-on_hand r.item_id)
        (λ n. Leads-bind _ _ (Keeps-find_shortages rs) (λ rest. Keeps-pure _))

  Keeps-required_of : (body : RunRequest) → Keeps P (required_of body)
  unfolding required_of
  Keeps-required_of (recipe_run recipe_id q uom notes) =
      search (keeps_rules, Keeps-base_qty) depth 16
  Keeps-required_of (adhoc_run item_id q uom cs notes) =
      search (keeps_rules, Keeps-base_qty, Keeps-require_components) depth 12

  pub Keeps-validate_run : (body : RunRequest) → Keeps P (validate_run body)
  unfolding validate_run
  Keeps-validate_run body = search (keeps_rules, Keeps-required_of, Keeps-find_shortages) depth 12
