-- ===== src/Jobs.antt =====
-- core/services/jobs.py: the checks of what a request gives, and jobs with their states and events.
pub mod Changes
pub mod LineValues
pub mod Lines
pub mod Stable
pub mod Requests
pub mod Closed
pub mod Board
pub mod Refines
pub mod Moves
use tgc_bus_core.Base.{
  ℕ, suc, ◌/◌, ◌%◌, ◌^◌, String, Bool, true, false, not, ◌&&◌, ◌||◌, Option, none, some, List, [],
  ◌∷◌, ◌++◌, map, ◌==◌, ◌=ₛ◌, mem_text, if◌then◌else◌, get_or, strip, lower, lookup, join,
}
use tgc_bus_core.Base.Int.{ℤ, pos}
use tgc_bus_core.Tables.{find_row, update_row}
use tgc_bus_core.Decimal.{Number}
use tgc_bus_core.Effects.{
  http, Result, ok, err, Action, Env, Session, pure, raise, raise_if, gets, lift, or_raise, write,
  flush, commit, of_option, ◌then_do◌, ◌>>=◌, ◌>>◌,
}
use tgc_bus_core.StockTables.{Item, Recipe}
use tgc_bus_core.JobTables.{JobStatus, Job, LineStatus, JobLine, JobEvent, JobDb, JobSession}

-- `_clean_required_text`; the detail ends in "_required".
unfoldable pub clean_required : Option String → String → Result String
clean_required value field =
    let cleaned = strip (get_or value "") in
    if cleaned =ₛ "" then err (http 400 (join field "_required")) else ok cleaned

-- JOB_STATUSES
unfoldable pub job_statuses : List (String × JobStatus)
job_statuses =
    ("draft", JobStatus.draft)
    ∷ ("active", JobStatus.active)
    ∷ ("blocked", JobStatus.blocked)
    ∷ ("ready", JobStatus.ready)
    ∷ ("done", JobStatus.done)
    ∷ ("cancelled", JobStatus.cancelled)
    ∷ []

unfoldable pub status_text : JobStatus → String
status_text JobStatus.draft = "draft"
status_text JobStatus.active = "active"
status_text JobStatus.blocked = "blocked"
status_text JobStatus.ready = "ready"
status_text JobStatus.done = "done"
status_text JobStatus.cancelled = "cancelled"

-- `_validate_job_status`
unfoldable pub validate_job_status : Option String → Result JobStatus
unfolding job_statuses lookup
validate_job_status status =
    of_option (lookup (lower (strip (get_or status ""))) job_statuses)
      (http 400 "invalid_job_status")

-- CLOSED_JOB_STATUSES
abbrev pub is_closed : JobStatus → Bool
is_closed JobStatus.done = true
is_closed JobStatus.cancelled = true
is_closed _ = false

-- `_get_job`
unfoldable pub fetch_job : ℕ → Action JobSession Job
unfolding find_row
fetch_job job_id = do
  found ← gets (λ s. find_row (λ j. j.id) job_id s.rows.jobs)
  or_raise found (http 404 "job_not_found")

-- `_get_job_line`
unfoldable pub fetch_line : ℕ → ℕ → Action JobSession JobLine
unfolding find_row
fetch_line job_id line_id = do
  found ← gets (λ s. find_row (λ l. l.id) line_id s.rows.lines)
  line ← or_raise found (http 404 "job_line_not_found")
  raise_if (not (line.job_id == job_id)) (http 404 "job_line_not_found")
  pure line

-- `_validate_contact`
unfoldable pub validate_contact : Option ℕ → Action JobSession (Unit {0})
unfolding find_row
validate_contact none = pure tt
validate_contact (some contact_id) = do
  found ← gets (λ s. find_row (λ c. c) contact_id s.rows.contacts)
  or_raise found (http 404 "contact_not_found")
  pure tt

-- `_apply_closed_at`
unfoldable pub apply_closed_at : ℕ → JobStatus → Job → Job
apply_closed_at now status job = record job {
  closed_at = if is_closed status then some (get_or job.closed_at now) else none;
}

-- A `meta`: a text, with whether `json.loads` takes it, or another value, as `json.dumps` writes it.
pub data Meta : Type 0 where
  text_meta : Bool → String → Meta
  value_meta : String → Meta

-- `_normalize_meta`
unfoldable pub normalize_meta : Option Meta → Result (Option String)
normalize_meta none = ok none
normalize_meta (some (Meta.text_meta is_json text)) =
    if is_json then ok (some text) else err (http 400 "meta_must_be_json")
normalize_meta (some (Meta.value_meta text)) = ok (some text)

-- Python's `text or None`.
abbrev pub text_or_none : Option String → Option String
text_or_none none = none
text_or_none (some s) = if s =ₛ "" then none else some s

-- The arguments of `_add_event`.
pub record EventPayload : Type 0 where
  pub event_type : Option String
  pub message : Option String
  pub source_kind : Option String
  pub source_id : Option String
  pub meta : Option Meta

-- An event with a type and a message only.
abbrev pub plain_event : String → String → EventPayload
plain_event event_type message = record {
  event_type = some event_type;
  message = some message;
  source_kind = none;
  source_id = none;
  meta = none;
}

-- Changes to the rows of events, lines and jobs.
unfoldable pub set_events : (List JobEvent → List JobEvent) → Action JobSession (Unit {0})
set_events f = write (λ db. record db { events = f db.events })

unfoldable pub set_lines : (List JobLine → List JobLine) → Action JobSession (Unit {0})
set_lines f = write (λ db. record db { lines = f db.lines })

unfoldable pub set_job : ℕ → (Job → Job) → Action JobSession (Unit {0})
unfolding update_row
set_job job_id f = write (λ db. record db { jobs = update_row (λ j. j.id) job_id f db.jobs })
