-- ===== src/Jobs/Board.antt =====
-- What core/services/jobs.py promises of the states of jobs, as a specification: from the keys to
-- the states, with one step for a new job and one for a change of state, and nothing else.
use tgc_bus_core.Base.{ℕ, ◌≡◌, ◌≢◌, String, Option, none, some, List, [], ◌∷◌, ◌==◌, if◌then◌else◌}
use tgc_bus_core.Tables.{find_row}
use tgc_bus_core.Effects.{ok}
use tgc_bus_core.JobTables.{JobStatus, Job}
use tgc_bus_core.Jobs.{validate_job_status}
use tgc_bus_core.Jobs.Changes.{JobPayload}
use tgc_bus_core.Jobs.Requests.{JobOperation}

-- The abstract state: which jobs there are, and the state of each.
abbrev pub Board : Type 0
Board = ℕ → Option JobStatus

abbrev pub place_job : Board → ℕ → JobStatus → Board
place_job board id status k = if id == k then some status else board k

-- A request's step on the board: only `create_job` opens a job, under a key that was free, and
-- only `transition_job_status` moves one, the one it names.
pub data BoardStep (board : Board) : JobOperation → Board → Type 0 where
  stays : (op : JobOperation) → BoardStep board op board
  opens :
      (payload : JobPayload) (id : ℕ) (status : JobStatus)
      → board id ≡ none
      → BoardStep board (JobOperation.create payload) (place_job board id status)
  moves :
      (id : ℕ) (text : String) (status : JobStatus)
      → validate_job_status (some text) ≡ ok status
      → board id ≢ none
      → BoardStep board (JobOperation.transition id text) (place_job board id status)

-- The steps of a sequence of requests.
pub data BoardSteps : Board → List JobOperation → Board → Type 0 where
  rest : (board : Board) → BoardSteps board [] board
  then_on :
      {board : Board} (next : Board) {last : Board} {op : JobOperation} {ops : List JobOperation}
      → BoardStep board op next
      → BoardSteps next ops last
      → BoardSteps board (op ∷ ops) last

unfoldable pub status_of : Option Job → Option JobStatus
status_of none = none
status_of (some j) = some j.status

-- The board that a database implements.
unfoldable pub board_of : List Job → Board
unfolding find_row status_of
board_of jobs id = status_of (find_row (λ j. j.id) id jobs)
