-- ===== src/Examples/Workshop.antt =====
-- Jobs of the shop's workshop, and what its counter asks for.
use tgc_bus_core.Base.{
  strip, lower, ℕ, suc, ◌≤◌, ◌≡◌, ◌≢◌, refl, arith, false, String, ◌&&◌, none, some, List, [], ◌∷◌,
  All, sum_by, mem_text,
}
use tgc_bus_core.Base.Int.{pos}
use tgc_bus_core.Decimal.{Number}
use tgc_bus_core.Tables.{find_row}
use tgc_bus_core.Effects.{Error, value_error, GivesFreshKeys, fresh, ok}
use tgc_bus_core.JobTables.{JobStatus, Job, JobDb}
use tgc_bus_core.Jobs.{validate_job_status}
use tgc_bus_core.Jobs.Changes.{transition_job_status}
use tgc_bus_core.Jobs.Moves.{transition_job_status_moves}
use tgc_bus_core.Jobs.Requests.{JobOperation, serve}
use tgc_bus_core.Jobs.Closed.{IsMarked, serve-IsMarked}
use tgc_bus_core.Jobs.Board.{BoardSteps, board_of}
use tgc_bus_core.Jobs.Refines.{serve-BoardSteps}
use tgc_bus_core.QuantityGuard.{
  Json, scalar, object, array, member, no_member, value, no_value, find_legacy_qty_keys,
  legacy_qty_keys,
}
use tgc_bus_core.QuantityGuard.Finds.{occurs, find_legacy_qty_keys_lem}
use tgc_bus_core.StockRoutes.Requests.{StockRequest, Store}
use tgc_bus_core.Examples.Shop.{env, shop}

above : (n : ℕ) (ids : List ℕ) → sum_by (λ i. i) ids ≤ n → All (λ i. i ≢ suc n) ids
above n [] h = tt
above n (i ∷ ids) h = ((λ e. ground arith), above n ids (omega arith))

pub env-GivesFreshKeys : GivesFreshKeys env
env-GivesFreshKeys ids = above (sum_by (λ i. i) ids) ids (omega arith)

abbrev frame : Job
frame = record {
  id = 1;
  contact_id = none;
  title = "Frame";
  status = JobStatus.active;
  priority = pos 0;
  due_date = none;
  notes = none;
  closed_at = none;
}

abbrev workshop : JobDb
workshop = record {
  contacts = [];
  items = [];
  recipes = [];
  jobs = frame ∷ [];
  lines = [];
  events = [];
}

abbrev job_requests : List JobOperation
job_requests =
    JobOperation.create (record {
      contact_id = none;
      title = some "Table";
      status = none;
      priority = none;
      due_date = none;
      notes = none;
    })
    ∷ JobOperation.transition 1 "done"
    ∷ []

serve-IsMarked_example : All IsMarked (serve env job_requests workshop).jobs
serve-IsMarked_example = serve-IsMarked env job_requests workshop (refl, tt)

serve-BoardSteps_example :
    BoardSteps
      (board_of workshop.jobs)
      job_requests
      (board_of (serve env job_requests workshop).jobs)
serve-BoardSteps_example = serve-BoardSteps env env-GivesFreshKeys job_requests workshop

ready_is_read : validate_job_status (some "Ready ") ≡ ok JobStatus.ready
unfolding validate_job_status strip lower
ready_is_read = refl

transition_job_status_moves_example :
    let (r, s) = transition_job_status env 1 "Ready " (fresh workshop) in
    (r ≡ ok tt) × (board_of s.committed.jobs 1 ≡ some JobStatus.ready)
unfolding find_row
transition_job_status_moves_example =
    transition_job_status_moves env workshop 1 "Ready " frame JobStatus.ready refl ready_is_read

-- {"item": 1, "lines": [{"qty": 2}]}
abbrev raw_body : Json
raw_body = object (
    member "item" scalar
      (member "lines" (array (value (object (member "qty" scalar no_member)) no_value)) no_member))

find_legacy_qty_keys_example :
    mem_text "qty" (find_legacy_qty_keys raw_body)
    ≡ (mem_text "qty" legacy_qty_keys && occurs "qty" raw_body)
find_legacy_qty_keys_example = find_legacy_qty_keys_lem "qty" raw_body

-- {"item": 1}
abbrev pub clean_body : Json
clean_body = object (member "item" scalar no_member)

abbrev pub counter : Store
counter = record { db = shop; journal = [] }

abbrev pub message : Error → String
message (value_error text) = text
message _ = "error"

abbrev too_many : StockRequest
too_many =
    StockRequest.post_consume
      (record { item_id = 1; qty = 9000; source_kind = "consume"; source_id = none })

abbrev pub stock_requests : List StockRequest
stock_requests =
    StockRequest.post_stock_in clean_body (record {
      item_id = 1;
      quantity_decimal = Number.finite false 5 0;
      uom = "ea";
      unit_cost_cents = some 12;
      source_id = none;
    })
    ∷ too_many
    ∷ []
