-- ===== src/Jobs/Closed.antt =====
-- core/services/jobs.py, `_apply_closed_at`: which jobs have a closing time.
use tgc_bus_core.Base.{
  ℕ, ◌≡◌, refl, sym, ap, ◌∙◌, String, List, [], ◌∷◌, ◌==◌, is_some, All, All-append, Bool-cases,
  inl, inr,
}
use tgc_bus_core.Tables.{update_row}
use tgc_bus_core.Effects.{Env, fresh}
use tgc_bus_core.Effects.Keeps.{Keeps, Leads-bind, keeps_rules}
use tgc_bus_core.JobTables.{JobStatus, Job, JobDb, JobSession}
use tgc_bus_core.Jobs.{is_closed, apply_closed_at, set_job}
use tgc_bus_core.Jobs.Changes.{JobPayload, insert_job, new_job, create_job, transition_job_status}
use tgc_bus_core.Jobs.Stable.{
  IsStable, Keeps-flush, Keeps-commit, Keeps-fetch_job, Keeps-validate_contact, Keeps-add_event,
  Keeps-update_job, Keeps-create_event, Keeps-create_line, Keeps-update_line, Keeps-delete_line,
}
use tgc_bus_core.Jobs.Requests.{JobOperation, perform, serve}

-- The job has a closing time if its status is a closed one, and else none.
abbrev pub IsMarked : Job → Type 0
IsMarked j = is_some j.closed_at ≡ is_closed j.status

abbrev pub StaysMarked : JobSession → Type 0
StaysMarked s = All IsMarked s.rows.jobs × All IsMarked s.committed.jobs

apply_closed_at-IsMarked :
    (now : ℕ) (status : JobStatus) (j : Job)
    → j.status ≡ status
    → IsMarked (apply_closed_at now status j)
unfolding apply_closed_at
apply_closed_at-IsMarked now status j h = elim (Bool-cases (is_closed status)) [
  | inl closed ↦ rw (h, closed) refl
  | inr still ↦ rw (h, still) refl
]

-- A change that leaves the jobs marked.
update-IsMarked :
    (k : ℕ) (f : Job → Job) (jobs : List Job)
    → ((j : Job) → IsMarked j → IsMarked (f j))
    → All IsMarked jobs
    → All IsMarked (update_row (λ j. j.id) k f jobs)
unfolding update_row
update-IsMarked k f [] keeps ms = tt
update-IsMarked k f (j ∷ jobs) keeps (m, ms) = elim (Bool-cases (j.id == k)) [
  | inl here ↦ rw here (keeps j m, ms)
  | inr later ↦ rw later (m, update-IsMarked k f jobs keeps ms)
]

Keeps-set_any :
    (k : ℕ) (f : Job → Job)
    → ((j : Job) → IsMarked j → IsMarked (f j))
    → Keeps StaysMarked (set_job k f)
unfolding set_job
Keeps-set_any k f keeps = record { at = λ s (h, c). (update-IsMarked k f s.rows.jobs keeps h, c) }

stable : IsStable StaysMarked
stable = record {
  writes = λ f same. record { at = λ s (h, c). (rw (same s.rows) h, c) };
  sets = λ k f keeps.
      Keeps-set_any k f
        (λ j m. ap is_some (keeps.closed_at j) ∙ m ∙ sym (ap is_closed (keeps.status j)));
  flushes = record { at = λ s h. h };
  commits = record { at = λ s (h, c). (h, h) };
}

module _ (env : Env) where
  Keeps-insert_job :
      (job_at : ℕ → Job)
      → ((id : ℕ) → IsMarked (job_at id))
      → Keeps StaysMarked (insert_job env job_at)
  unfolding insert_job
  Keeps-insert_job job_at marked = record {
    at = λ s (h, c). (All-append IsMarked s.rows.jobs _ h (marked _, tt), c);
  }

  new_job-IsMarked :
      (payload : JobPayload) (title : String) (status : JobStatus) (id : ℕ)
      → IsMarked (new_job env payload title status id)
  unfolding new_job
  new_job-IsMarked payload title status id = apply_closed_at-IsMarked env.now status _ refl

  ruleset closed_rules = (
    keeps_rules, Keeps-insert_job, new_job-IsMarked, stable, Keeps-fetch_job,
    Keeps-validate_contact, Keeps-add_event, Keeps-flush, Keeps-commit,
  )

  Keeps-create_job : (payload : JobPayload) → Keeps StaysMarked (create_job env payload)
  unfolding create_job
  Keeps-create_job payload = search closed_rules depth 16

  Keeps-transition :
      (id : ℕ) (status : String) → Keeps StaysMarked (transition_job_status env id status)
  unfolding transition_job_status
  Keeps-transition id status = Leads-bind _ _ (Keeps-fetch_job stable id) (λ job.
      Leads-bind _ _ (record { at = λ s h. h })
        (λ next.
          Leads-bind _ _ (Keeps-set_any id _ (λ j m. apply_closed_at-IsMarked env.now next _ refl))
            (λ u. search closed_rules depth 9)))

  perform-StaysMarked :
      (op : JobOperation) (s : JobSession) → StaysMarked s → StaysMarked (perform env op s)
  unfolding perform
  perform-StaysMarked (JobOperation.create payload) s h = (Keeps-create_job payload).at s h
  perform-StaysMarked (JobOperation.update id patch) s h =
      (Keeps-update_job stable env id patch).at s h
  perform-StaysMarked (JobOperation.transition id status) s h = (Keeps-transition id status).at s h
  perform-StaysMarked (JobOperation.add_line id payload) s h =
      (Keeps-create_line stable env id payload).at s h
  perform-StaysMarked (JobOperation.change_line id line patch) s h =
      (Keeps-update_line stable env id line patch).at s h
  perform-StaysMarked (JobOperation.remove_line id line) s h =
      (Keeps-delete_line stable env id line).at s h
  perform-StaysMarked (JobOperation.add_note id payload) s h =
      (Keeps-create_event stable env id payload).at s h

  -- Where in the database exactly the jobs that are done or cancelled have a closing time, that
  -- holds too after any sequence of requests to the service, whether they succeed or fail.
  pub serve-IsMarked :
      (ops : List JobOperation) (d : JobDb)
      → All IsMarked d.jobs
      → All IsMarked (serve env ops d).jobs
  unfolding serve
  serve-IsMarked [] d h = h
  serve-IsMarked (op ∷ ops) d h = serve-IsMarked ops _ (perform-StaysMarked op (fresh d) (h, h)).1
