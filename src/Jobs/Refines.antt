-- ===== src/Jobs/Refines.antt =====
-- core/services/jobs.py implements the specification of Jobs.Board.
use tgc_bus_core.Base.{
  ℕ, ◌≡◌, ◌≢◌, refl, sym, ap, fun_ext, ◌∙◌, ◌⊎◌, arith, String, Option, none, some, List, [], ◌∷◌,
  ◌++◌, map, ◌==◌, All, ==→eq, Bool-cases, Option-cases, inl, inr,
}
use tgc_bus_core.Tables.{find_row, update_row}
use tgc_bus_core.Tables.Rows.{
  find_row-absent, find_row-new, update_row-absent, find_row-update_ne, find_row-update_self,
}
use tgc_bus_core.Effects.{Result-cases, ok, Action, Env, GivesFreshKeys, fresh}
use tgc_bus_core.Effects.Keeps.{Leads, Keeps, Leads-bind, Leads-after, Keeps-lift, keeps_rules}
use tgc_bus_core.JobTables.{JobStatus, Job, JobDb, JobSession}
use tgc_bus_core.Jobs.{apply_closed_at, set_job, validate_job_status}
use tgc_bus_core.Jobs.Changes.{JobPayload, insert_job, new_job, create_job, transition_job_status}
use tgc_bus_core.Jobs.Stable.{
  KeepsState, IsStable, Keeps-flush, Keeps-commit, Keeps-fetch_job, Keeps-validate_contact,
  Keeps-add_event, Keeps-update_job, Keeps-create_event, Keeps-create_line, Keeps-update_line,
  Keeps-delete_line,
}
use tgc_bus_core.Jobs.Requests.{JobOperation, perform, serve}
use tgc_bus_core.Jobs.Board.{Board, place_job, BoardStep, BoardSteps, status_of, board_of}

-- The objects show one board, what is committed that board or the one before.
abbrev Shows : Board → Board → JobSession → Type 0
Shows before board s =
    (board_of s.rows.jobs ≡ board)
    × ((board_of s.committed.jobs ≡ before) ⊎ (board_of s.committed.jobs ≡ board))

board-keep :
    (k : ℕ) (f : Job → Job) (jobs : List Job) (id : ℕ)
    → KeepsState f
    → board_of (update_row (λ j. j.id) k f jobs) id ≡ board_of jobs id
unfolding board_of update_row
board-keep k f [] id keeps = refl
board-keep k f (j ∷ jobs) id keeps = elim (Bool-cases (j.id == k)) [
  | inl here ↦ rw here (elim (Bool-cases (j.id == id)) [
    | inl found ↦ rw (keeps.id j, found) (ap some (keeps.status j))
    | inr other ↦ rw (keeps.id j, other) refl
  ])
  | inr later ↦ rw later (elim (Bool-cases (j.id == id)) [
    | inl found ↦ rw found refl
    | inr other ↦ rw other (board-keep k f jobs id keeps)
  ])
]

stable : (before board : Board) → IsStable (Shows before board)
stable before board = record {
  writes = λ f same. record { at = λ s (h, c). (ap board_of (same s.rows) ∙ h, c) };
  sets = λ k f keeps. record {
    at = λ s (h, c). (unfold set_job in (fun_ext (λ i. board-keep k f s.rows.jobs i keeps) ∙ h, c));
  };
  flushes = record { at = λ s h. h };
  commits = record { at = λ s (h, c). (h, inr h) };
}

-- A step was done, or none yet.
abbrev Stepped : Board → JobOperation → JobSession → Type 0
Stepped before op s = (board : Board) × BoardStep before op board × Shows before board s

Stepped-stable : (before : Board) (op : JobOperation) → IsStable (Stepped before op)
Stepped-stable before op = record {
  writes = λ f same. record {
    at = λ s (b, step, h). (b, step, ((stable before b).writes f same).at s h);
  };
  sets = λ k f keeps. record {
    at = λ s (b, step, h). (b, step, ((stable before b).sets k f keeps).at s h);
  };
  flushes = record { at = λ s h. h };
  commits = record { at = λ s (b, step, h). (b, step, (h.0, inr h.0)) };
}

begins :
    (before : Board) (op : JobOperation) (s : JobSession)
    → Shows before before s
    → Stepped before op s
begins before op s h = (before, BoardStep.stays op, h)

unchanged :
    {A : Type 0} (before : Board) (op : JobOperation) {m : Action JobSession A}
    → Keeps (Shows before before) m
    → (s : JobSession) → Shows before before s
    → Stepped before op (m s).1
unchanged before op {m = m} k s h = begins before op (m s).1 (k.at s h)

one : {A : Type 0} → A ⊎ A → A
one (inl a) = a
one (inr a) = a

status-none : (o : Option Job) → status_of o ≡ none → o ≡ none
unfolding status_of
status-none none h = refl
status-none (some j) h = cc

board-free :
    (jobs : List Job) (id : ℕ) → All (λ i. i ≢ id) (map (λ j. j.id) jobs) → board_of jobs id ≡ none
unfolding board_of status_of
board-free jobs id others = rw (find_row-absent (λ (r : Job). r.id) id jobs others) refl

board-new :
    (jobs : List Job) (j : Job)
    → board_of jobs j.id ≡ none
    → board_of (jobs ++ j ∷ []) ≡ place_job (board_of jobs) j.id j.status
unfolding board_of
board-new jobs j free = fun_ext (λ id. elim (Bool-cases (j.id == id)) [
  | inl same ↦ rw (find_row-new (λ (r : Job). r.id) id jobs j (status-none _ free), same) refl
  | inr other ↦ rw (find_row-new (λ (r : Job). r.id) id jobs j (status-none _ free), other) refl
])

board-set :
    (k : ℕ) (f : Job → Job) (status : JobStatus) (jobs : List Job)
    → ((j : Job) → (f j).id ≡ j.id)
    → ((j : Job) → (f j).status ≡ status)
    → (board_of (update_row (λ j. j.id) k f jobs) ≡ board_of jobs)
      ⊎ ((board_of jobs k ≢ none)
          × (board_of (update_row (λ j. j.id) k f jobs) ≡ place_job (board_of jobs) k status))
unfolding board_of
board-set k f status jobs ids statuses = elim (Option-cases (find_row (λ j. j.id) k jobs)) [
  | inl absent ↦ inl (rw (update_row-absent (λ (r : Job). r.id) k f jobs absent) refl)
  | inr (j, found) ↦ inr (
    λ e. let n : status_of (some j) ≡ none = rw found at e in (unfold status_of in cc),
    fun_ext (λ id. elim (Bool-cases (k == id)) [
      | inl same ↦
          let at : k ≡ id = ==→eq k id same in
          rw (same, sym at, find_row-update_self (λ (r : Job). r.id) k f jobs ids found)
            (unfold status_of in ap some (statuses j))
      | inr other ↦
          rw (other, find_row-update_ne (λ (r : Job). r.id) id k f jobs ids (λ e. ground arith))
            refl
    ]),
  )
]

module _ (env : Env) (fresh_keys : GivesFreshKeys env) where
  Leads-insert_job :
      (before : Board) (payload : JobPayload) (title : String) (status : JobStatus)
      → Leads
          (Shows before before)
          (Stepped before (JobOperation.create payload))
          (insert_job env (new_job env payload title status))
  unfolding insert_job
  Leads-insert_job before payload title status = record {
    at = λ s (h, c).
        let keys = map (λ (r : Job). r.id) s.rows.jobs in
        let j = new_job env payload title status (env.next_id keys) in
        let free : board_of s.rows.jobs j.id ≡ none =
          board-free s.rows.jobs j.id (unfold new_job apply_closed_at in fresh_keys keys) in
        (
          place_job before j.id j.status,
          BoardStep.opens payload j.id j.status (rw h at free),
          (rw (sym h) (board-new s.rows.jobs j free), inl (one c)),
        );
  }

  Leads-create :
      (before : Board) (payload : JobPayload)
      → Leads
          (Shows before before)
          (Stepped before (JobOperation.create payload))
          (create_job env payload)
  unfolding create_job
  Leads-create before payload =
      let op = JobOperation.create payload in
      let st = Stepped-stable before op in
      Leads-after _ _ (begins before op) (Keeps-lift _) (λ status.
        Leads-after _ _ (begins before op) (Keeps-validate_contact (stable before before) _) (λ u.
          Leads-after _ _ (begins before op) (Keeps-lift _) (λ title.
            Leads-bind _ _ (Leads-insert_job before payload title status) (λ id.
              search (keeps_rules, st, Keeps-flush, Keeps-commit, Keeps-add_event) depth 9))))

  Leads-set_status :
      (before : Board) (id : ℕ) (text : String) (status : JobStatus)
      → validate_job_status (some text) ≡ ok status
      → Leads
          (Shows before before)
          (Stepped before (JobOperation.transition id text))
          (set_job id (λ j. apply_closed_at env.now status (record j { status = status })))
  unfolding set_job
  Leads-set_status before id text status valid = record {
    at = λ s (h, c).
        let f : Job → Job = λ j. apply_closed_at env.now status (record j { status = status }) in
        elim (board-set id f status s.rows.jobs (λ j. unfold apply_closed_at in refl)
          (λ j. unfold apply_closed_at in refl)) [
            | inl same ↦ (before, BoardStep.stays _, (same ∙ h, inl (one c)))
            | inr (there, set) ↦ (
              place_job before id status,
              BoardStep.moves id text status valid (rw h at there),
              (rw (sym h) set, inl (one c)),
            )
          ];
  }

  Leads-transition :
      (before : Board) (id : ℕ) (text : String)
      → Leads
          (Shows before before)
          (Stepped before (JobOperation.transition id text))
          (transition_job_status env id text)
  unfolding transition_job_status
  Leads-transition before id text =
      let op = JobOperation.transition id text in
      let st = Stepped-stable before op in
      Leads-after _ _ (begins before op) (Keeps-fetch_job (stable before before) id) (λ job.
        elim (Result-cases (validate_job_status (some text))) [
          | inr (e, refused) ↦ rw refused (record { at = λ s h. begins before op s h })
          | inl (status, valid) ↦ rw valid (
              Leads-bind _ _ (Leads-set_status before id text status valid)
                (λ u. search (keeps_rules, st, Keeps-commit, Keeps-add_event) depth 9))
        ])

  perform-steps :
      (before : Board) (op : JobOperation) (s : JobSession)
      → Shows before before s
      → Stepped before op (perform env op s)
  unfolding perform
  perform-steps before (JobOperation.create payload) s h = (Leads-create before payload).at s h
  perform-steps before (JobOperation.transition id text) s h =
      (Leads-transition before id text).at s h
  perform-steps before (JobOperation.update id patch) s h =
      unchanged before _ (Keeps-update_job (stable before before) env id patch) s h
  perform-steps before (JobOperation.add_line id payload) s h =
      unchanged before _ (Keeps-create_line (stable before before) env id payload) s h
  perform-steps before (JobOperation.change_line id line patch) s h =
      unchanged before _ (Keeps-update_line (stable before before) env id line patch) s h
  perform-steps before (JobOperation.remove_line id line) s h =
      unchanged before _ (Keeps-delete_line (stable before before) env id line) s h
  perform-steps before (JobOperation.add_note id payload) s h =
      unchanged before _ (Keeps-create_event (stable before before) env id payload) s h

  -- One request, seen on the committed database.
  commits-step :
      (op : JobOperation) (d : JobDb)
      → BoardStep (board_of d.jobs) op (board_of (perform env op (fresh d)).committed.jobs)
  commits-step op d =
      let (board, step, (rows, committed)) =
        perform-steps (board_of d.jobs) op (fresh d) (refl, inl refl) in
      elim committed [ inl still ↦ rw still (BoardStep.stays op) | inr changed ↦ rw changed step ]

  -- Where the database gives new rows keys that no row has, a sequence of requests changes the
  -- states of the committed jobs by a step of the specification for each request: `create_job`
  -- opens at most one job, under a key without one, `transition_job_status` gives at most the one
  -- job it names the state it was asked for, and all other requests leave every state.
  pub serve-BoardSteps :
      (ops : List JobOperation) (d : JobDb)
      → BoardSteps (board_of d.jobs) ops (board_of (serve env ops d).jobs)
  unfolding serve
  serve-BoardSteps [] d = BoardSteps.rest _
  serve-BoardSteps (op ∷ ops) d = BoardSteps.then_on _ (commits-step op d) (serve-BoardSteps ops _)
