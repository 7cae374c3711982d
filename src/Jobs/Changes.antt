-- ===== src/Jobs/Changes.antt =====
-- core/services/jobs.py: the operations on jobs and their events.
use tgc_bus_core.Base.{
  ℕ, String, Option, none, some, [], ◌∷◌, ◌++◌, map, ◌=ₛ◌, if◌then◌else◌, get_or, join,
}
use tgc_bus_core.Base.Int.{ℤ, pos}
use tgc_bus_core.Effects.{
  http, Result, ok, err, Action, Env, pure, gets, lift, write, flush, commit, ◌then_do◌, ◌>>=◌,
  ◌>>◌,
}
use tgc_bus_core.JobTables.{JobStatus, Job, JobSession}
use tgc_bus_core.Jobs.{
  clean_required, status_text, validate_job_status, fetch_job, validate_contact, apply_closed_at,
  Meta, normalize_meta, text_or_none, EventPayload, plain_event, set_events, set_job,
}

-- The payload of `create_job`.
pub record JobPayload : Type 0 where
  pub contact_id : Option ℕ
  pub title : Option String
  pub status : Option String
  pub priority : Option ℤ
  pub due_date : Option ℕ
  pub notes : Option String

-- The keys of a payload for `update_job`: `none` is a key that is not there.
pub record JobPatch : Type 0 where
  pub status : Option (Option String)
  pub contact_id : Option (Option ℕ)
  pub title : Option (Option String)
  pub priority : Option (Option ℤ)
  pub due_date : Option (Option ℕ)
  pub notes : Option (Option String)

-- A status key is refused, after it is checked.
unfoldable pub refuse_status : Option (Option String) → Result (Unit {0})
refuse_status none = ok tt
refuse_status (some status) =
    validate_job_status status then_do λ _. err (http 400 "use_status_endpoint")

-- Python's `text or default`.
abbrev pub text_or : Option String → String → Option String
text_or none d = some d
text_or (some s) d = if s =ₛ "" then some d else some s

unfoldable pub status_message : JobStatus → JobStatus → String
unfolding status_text
status_message previous next =
    join "Job status changed from "
      (join (status_text previous) (join " to " (join (status_text next) ".")))

-- json.dumps({"previous_status": …, "status": …}) without blanks.
unfoldable pub status_meta : JobStatus → JobStatus → String
unfolding status_text
status_meta previous next =
    join "{\"previous_status\":\""
      (join (status_text previous) (join "\",\"status\":\"" (join (status_text next) "\"}")))

module _ (env : Env) where
  -- `_add_event`
  unfoldable pub add_event : ℕ → EventPayload → Action JobSession ℕ
  add_event job_id payload = do
    event_type ← lift (clean_required payload.event_type "event_type")
    message ← lift (clean_required payload.message "message")
    meta ← lift (normalize_meta payload.meta)
    id ← gets (λ s. env.next_id (map (λ e. e.id) s.rows.events))
    set_events (λ events.
        events
        ++ record {
          id = id;
          job_id = job_id;
          event_type = event_type;
          message = message;
          source_kind = text_or_none payload.source_kind;
          source_id = text_or_none payload.source_id;
          meta = meta;
        }
          ∷ [])
    pure id

  -- db.add(Job(…))
  unfoldable pub insert_job : (ℕ → Job) → Action JobSession ℕ
  insert_job job_at = do
    id ← gets (λ s. env.next_id (map (λ j. j.id) s.rows.jobs))
    write (λ db. record db { jobs = db.jobs ++ job_at id ∷ [] })
    pure id

  unfoldable pub new_job : JobPayload → String → JobStatus → ℕ → Job
  new_job payload title status id = apply_closed_at env.now status (record {
    id = id;
    contact_id = payload.contact_id;
    title = title;
    status = status;
    priority = get_or payload.priority (pos 0);
    due_date = payload.due_date;
    notes = payload.notes;
    closed_at = none;
  })

  unfoldable pub create_job : JobPayload → Action JobSession ℕ
  create_job payload = do
    status ← lift (validate_job_status (text_or payload.status "draft"))
    validate_contact payload.contact_id
    title ← lift (clean_required payload.title "title")
    id ← insert_job (new_job payload title status)
    flush
    add_event id (plain_event "job.created" "Job created.")
    commit
    pure id

  module _ (job_id : ℕ) where
    unfoldable pub patch_contact : Option (Option ℕ) → Action JobSession (Unit {0})
    patch_contact none = pure tt
    patch_contact (some contact_id) = do
      validate_contact contact_id
      set_job job_id (λ j. record j { contact_id = contact_id })

    unfoldable pub patch_title : Option (Option String) → Action JobSession (Unit {0})
    patch_title none = pure tt
    patch_title (some title) = do
      cleaned ← lift (clean_required title "title")
      set_job job_id (λ j. record j { title = cleaned })

    unfoldable pub update_job : JobPatch → Action JobSession (Unit {0})
    update_job patch = do
      job ← fetch_job job_id
      lift (refuse_status patch.status)
      patch_contact patch.contact_id
      patch_title patch.title
      set_job job_id (λ j. record j {
        priority = get_or (get_or patch.priority none) j.priority;
        due_date = get_or patch.due_date j.due_date;
        notes = get_or patch.notes j.notes;
      })
      add_event job_id (plain_event "job.updated" "Job updated.")
      commit

    unfoldable pub transition_job_status : String → Action JobSession (Unit {0})
    transition_job_status status = do
      job ← fetch_job job_id
      next_status ← lift (validate_job_status (some status))
      set_job job_id (λ j. apply_closed_at env.now next_status (record j { status = next_status }))
      add_event job_id (record {
        event_type = some "job.status_changed";
        message = some (status_message job.status next_status);
        source_kind = none;
        source_id = none;
        meta = some (Meta.value_meta (status_meta job.status next_status));
      })
      commit

    unfoldable pub create_event : EventPayload → Action JobSession ℕ
    create_event payload = do job ← fetch_job job_id; id ← add_event job_id payload; commit; pure id
