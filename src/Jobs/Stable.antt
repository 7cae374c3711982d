-- ===== src/Jobs/Stable.antt =====
-- What every change to lines and events, and every change to a job but its state, keeps. A property
-- of the session that such single steps keep is kept by the operations made of them.
use tgc_bus_core.Base.{ℕ, ◌≡◌, refl, String, Option, none, some, List}
use tgc_bus_core.Decimal.{Number}
use tgc_bus_core.Effects.{Env, write, flush, commit}
use tgc_bus_core.Effects.Keeps.{Keeps, keeps_rules}
use tgc_bus_core.StockTables.{Item, Recipe}
use tgc_bus_core.JobTables.{Job, JobLine, JobEvent, JobDb, JobSession}
use tgc_bus_core.Jobs.{
  fetch_job, fetch_line, validate_contact, EventPayload, set_events, set_lines, set_job,
}
use tgc_bus_core.Jobs.Changes.{
  JobPatch, add_event, patch_contact, patch_title, update_job, create_event,
}
use tgc_bus_core.Jobs.Lines.{
  JobLinePayload, JobLinePatch, set_line, patch_line_type, patch_description, patch_price,
  patch_status, patch_quantity, insert_job_line, create_line, update_line, delete_line,
}
use tgc_bus_core.Jobs.LineValues.{
  fetch_item, fetch_recipe, validate_item_recipe, quantity_authority_item, normalize_line_quantity,
}

-- A change of a job that leaves its key, its status and its closing time.
pub record KeepsState (f : Job → Job) : Type 0 where
  pub id : (j : Job) → (f j).id ≡ j.id
  pub status : (j : Job) → (f j).status ≡ j.status
  pub closed_at : (j : Job) → (f j).closed_at ≡ j.closed_at

pub record IsStable (P : JobSession → Type 0) : Type 0 where
  pub writes : (f : JobDb → JobDb) → ((d : JobDb) → (f d).jobs ≡ d.jobs) → Keeps P (write f)
  pub sets : (k : ℕ) (f : Job → Job) → KeepsState f → Keeps P (set_job k f)
  pub flushes : Keeps P flush
  pub commits : Keeps P commit

module _ {P : JobSession → Type 0} (stable : IsStable P) where
  Keeps-set_events : (f : List JobEvent → List JobEvent) → Keeps P (set_events f)
  unfolding set_events
  Keeps-set_events f = stable.writes _ (λ d. refl)

  Keeps-set_lines : (f : List JobLine → List JobLine) → Keeps P (set_lines f)
  unfolding set_lines
  Keeps-set_lines f = stable.writes _ (λ d. refl)

  Keeps-set_line : (k : ℕ) (f : JobLine → JobLine) → Keeps P (set_line k f)
  unfolding set_line
  Keeps-set_line k f = Keeps-set_lines _

  Keeps-set_job :
      (k : ℕ) (f : Job → Job)
      → ((j : Job) → (f j).id ≡ j.id)
      → ((j : Job) → (f j).status ≡ j.status)
      → ((j : Job) → (f j).closed_at ≡ j.closed_at)
      → Keeps P (set_job k f)
  Keeps-set_job k f ids statuses times =
      stable.sets k f (record { id = ids; status = statuses; closed_at = times })

  pub Keeps-flush : Keeps P flush
  Keeps-flush = stable.flushes

  pub Keeps-commit : Keeps P commit
  Keeps-commit = stable.commits

  pub Keeps-fetch_job : (k : ℕ) → Keeps P (fetch_job k)
  unfolding fetch_job
  Keeps-fetch_job k = search keeps_rules

  Keeps-fetch_line : (k l : ℕ) → Keeps P (fetch_line k l)
  unfolding fetch_line
  Keeps-fetch_line k l = search keeps_rules depth 9

  pub Keeps-validate_contact : (o : Option ℕ) → Keeps P (validate_contact o)
  unfolding validate_contact
  Keeps-validate_contact none = search keeps_rules
  Keeps-validate_contact (some c) = search keeps_rules depth 9

  pub Keeps-add_event : (env : Env) (k : ℕ) (e : EventPayload) → Keeps P (add_event env k e)
  unfolding add_event
  Keeps-add_event env k e = search (keeps_rules, Keeps-set_events) depth 14

  Keeps-fetch_item : (o : Option ℕ) → Keeps P (fetch_item o)
  unfolding fetch_item
  Keeps-fetch_item none = search keeps_rules
  Keeps-fetch_item (some i) = search keeps_rules depth 9

  Keeps-fetch_recipe : (o : Option ℕ) → Keeps P (fetch_recipe o)
  unfolding fetch_recipe
  Keeps-fetch_recipe none = search keeps_rules
  Keeps-fetch_recipe (some r) = search keeps_rules depth 9

  Keeps-validate_item_recipe : (i r : Option ℕ) → Keeps P (validate_item_recipe i r)
  unfolding validate_item_recipe
  Keeps-validate_item_recipe i r =
      search (keeps_rules, Keeps-fetch_item, Keeps-fetch_recipe) depth 9

  Keeps-quantity_authority_item :
      (i : Option Item) (r : Option Recipe) → Keeps P (quantity_authority_item i r)
  unfolding quantity_authority_item
  Keeps-quantity_authority_item (some i) r = search keeps_rules
  Keeps-quantity_authority_item none none = search keeps_rules
  Keeps-quantity_authority_item none (some r) = search keeps_rules depth 9

  Keeps-normalize_line_quantity :
      (t : String) (i r : Option ℕ) (q : Option Number) (u : Option String)
      → Keeps P (normalize_line_quantity t i r q u)
  unfolding normalize_line_quantity
  Keeps-normalize_line_quantity t i r none u = search keeps_rules
  Keeps-normalize_line_quantity t i r (some q) u =
      search (keeps_rules, Keeps-validate_item_recipe, Keeps-quantity_authority_item) depth 12

  ruleset stable_rules = (
    keeps_rules, Keeps-set_line, Keeps-set_lines, Keeps-set_job, Keeps-flush, Keeps-commit,
    Keeps-fetch_job, Keeps-fetch_line, Keeps-validate_contact, Keeps-add_event,
    Keeps-validate_item_recipe, Keeps-normalize_line_quantity,
  )

  Keeps-patch_contact :
      (env : Env) (k : ℕ) (o : Option (Option ℕ)) → Keeps P (patch_contact env k o)
  unfolding patch_contact
  Keeps-patch_contact env k none = search keeps_rules
  Keeps-patch_contact env k (some c) = search stable_rules depth 9

  Keeps-patch_title :
      (env : Env) (k : ℕ) (o : Option (Option String)) → Keeps P (patch_title env k o)
  unfolding patch_title
  Keeps-patch_title env k none = search keeps_rules
  Keeps-patch_title env k (some t) = search stable_rules depth 9

  pub Keeps-update_job : (env : Env) (k : ℕ) (patch : JobPatch) → Keeps P (update_job env k patch)
  unfolding update_job
  Keeps-update_job env k patch =
      search (stable_rules, Keeps-patch_contact, Keeps-patch_title) depth 20

  pub Keeps-create_event : (env : Env) (k : ℕ) (e : EventPayload) → Keeps P (create_event env k e)
  unfolding create_event
  Keeps-create_event env k e = search stable_rules depth 9

  Keeps-insert_job_line :
      (env : Env) (k : ℕ) (line_at : ℕ → JobLine) → Keeps P (insert_job_line env k line_at)
  unfolding insert_job_line
  Keeps-insert_job_line env k line_at = search stable_rules depth 9

  pub Keeps-create_line : (env : Env) (k : ℕ) (p : JobLinePayload) → Keeps P (create_line env k p)
  unfolding create_line
  Keeps-create_line env k p = search (stable_rules, Keeps-insert_job_line) depth 24

  pub Keeps-delete_line : (env : Env) (k l : ℕ) → Keeps P (delete_line env k l)
  unfolding delete_line
  Keeps-delete_line env k l = search stable_rules depth 12

  Keeps-patch_line_type :
      (l : ℕ) (o : Option (Option String)) (t : String) → Keeps P (patch_line_type l o t)
  unfolding patch_line_type
  Keeps-patch_line_type l none t = search keeps_rules
  Keeps-patch_line_type l (some o) t = search stable_rules

  Keeps-patch_description : (l : ℕ) (o : Option (Option String)) → Keeps P (patch_description l o)
  unfolding patch_description
  Keeps-patch_description l none = search keeps_rules
  Keeps-patch_description l (some t) = search stable_rules depth 9

  Keeps-patch_price : (l : ℕ) (o : Option (Option Number)) → Keeps P (patch_price l o)
  unfolding patch_price
  Keeps-patch_price l none = search keeps_rules
  Keeps-patch_price l (some n) = search stable_rules depth 9

  Keeps-patch_status : (l : ℕ) (o : Option (Option String)) → Keeps P (patch_status l o)
  unfolding patch_status
  Keeps-patch_status l none = search keeps_rules
  Keeps-patch_status l (some t) = search stable_rules depth 9

  Keeps-patch_quantity :
      (l : ℕ) (t : String) (i r : Option ℕ) (patch : JobLinePatch) (o : Option (Option Number))
      → Keeps P (patch_quantity l t i r patch o)
  unfolding patch_quantity
  Keeps-patch_quantity l t i r patch none = search stable_rules
  Keeps-patch_quantity l t i r patch (some none) = search stable_rules
  Keeps-patch_quantity l t i r patch (some (some q)) = search stable_rules depth 9

  pub Keeps-update_line :
      (env : Env) (k l : ℕ) (patch : JobLinePatch) → Keeps P (update_line env k l patch)
  unfolding update_line
  Keeps-update_line env k l patch =
      search
        (
          stable_rules, Keeps-patch_line_type, Keeps-patch_description, Keeps-patch_price,
          Keeps-patch_status, Keeps-patch_quantity,
        )
        depth 30
