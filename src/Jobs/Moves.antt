-- ===== src/Jobs/Moves.antt =====
-- core/services/jobs.py: a job that is there can be moved to any state.
use tgc_bus_core.Base.{ℕ, ◌≡◌, refl, String, false, some, ◌=ₛ◌, cons_not_empty, strip, join}
use tgc_bus_core.Tables.{find_row}
use tgc_bus_core.Tables.Rows.{find_row-update_self}
use tgc_bus_core.Effects.{Env, ok, fresh}
use tgc_bus_core.JobTables.{JobStatus, Job, JobDb}
use tgc_bus_core.Jobs.{
  clean_required, status_text, validate_job_status, fetch_job, set_job, normalize_meta, set_events,
  apply_closed_at,
}
use tgc_bus_core.Jobs.Changes.{status_message, add_event, transition_job_status}
use tgc_bus_core.Jobs.Board.{board_of}

not_empty : (p n : JobStatus) → (strip (status_message p n) =ₛ "") ≡ false
unfolding status_message status_text strip join
not_empty p n = cons_not_empty _ _

clean_type : clean_required (some "job.status_changed") "event_type" ≡ ok "job.status_changed"
unfolding clean_required strip
clean_type = refl

clean_message :
    (p n : JobStatus)
    → clean_required (some (status_message p n)) "message" ≡ ok (strip (status_message p n))
unfolding clean_required
clean_message p n = rw (not_empty p n) refl

-- A job that is there and a text that is a state: the request to move the job there succeeds, and
-- the job is in that state in what is committed, whatever state it was in.
pub transition_job_status_moves :
    (env : Env) (d : JobDb) (id : ℕ) (text : String) (j : Job) (status : JobStatus)
    → find_row (λ (r : Job). r.id) id d.jobs ≡ some j
    → validate_job_status (some text) ≡ ok status
    → let (r, s) = transition_job_status env id text (fresh d) in
      (r ≡ ok tt) × (board_of s.committed.jobs id ≡ some status)
unfolding transition_job_status fetch_job set_job add_event normalize_meta set_events board_of
transition_job_status_moves env d id text j status found valid =
    rw (found, valid, clean_type, clean_message j.status status)
      (
        refl,
        rw
            (find_row-update_self (λ (r : Job). r.id) id
              (λ r. apply_closed_at env.now status (record r { status = status })) d.jobs
              (λ r. unfold apply_closed_at in refl) found)
            (unfold apply_closed_at in refl),
      )
