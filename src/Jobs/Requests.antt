-- ===== src/Jobs/Requests.antt =====
-- The operations of core/services/jobs.py as requests, each in a session of its own.
use tgc_bus_core.Base.{ℕ, String, List, [], ◌∷◌}
use tgc_bus_core.Effects.{Env, fresh}
use tgc_bus_core.JobTables.{JobDb, JobSession}
use tgc_bus_core.Jobs.{EventPayload}
use tgc_bus_core.Jobs.Changes.{
  JobPayload, JobPatch, create_job, update_job, transition_job_status, create_event,
}
use tgc_bus_core.Jobs.Lines.{JobLinePayload, JobLinePatch, create_line, update_line, delete_line}

-- The operations that change jobs, with their arguments.
pub data JobOperation : Type 0 where
  create : JobPayload → JobOperation
  update : ℕ → JobPatch → JobOperation
  transition : ℕ → String → JobOperation
  add_line : ℕ → JobLinePayload → JobOperation
  change_line : ℕ → ℕ → JobLinePatch → JobOperation
  remove_line : ℕ → ℕ → JobOperation
  add_note : ℕ → EventPayload → JobOperation

-- What an operation does to a session.
unfoldable pub perform : Env → JobOperation → JobSession → JobSession
perform env (create payload) s = (create_job env payload s).1
perform env (update id patch) s = (update_job env id patch s).1
perform env (transition id status) s = (transition_job_status env id status s).1
perform env (add_line id payload) s = (create_line env id payload s).1
perform env (change_line id line patch) s = (update_line env id line patch s).1
perform env (remove_line id line) s = (delete_line env id line s).1
perform env (add_note id payload) s = (create_event env id payload s).1

-- A sequence of requests.
unfoldable pub serve : Env → List JobOperation → JobDb → JobDb
serve env [] d = d
serve env (op ∷ ops) d = serve env ops (perform env op (fresh d)).committed
