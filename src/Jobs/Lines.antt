-- ===== src/Jobs/Lines.antt =====
-- core/services/jobs.py: the operations on the lines of a job.
use tgc_bus_core.Base.{
  ℕ, String, Bool, not, ◌&&◌, ◌||◌, Option, none, some, [], ◌∷◌, ◌++◌, map, get_or, is_some, join,
  str,
}
use tgc_bus_core.Base.Int.{ℤ, pos}
use tgc_bus_core.Tables.{update_row, delete_row}
use tgc_bus_core.Decimal.{Number}
use tgc_bus_core.Effects.{http, Action, Env, pure, raise_if, gets, lift, flush, commit, ◌>>=◌, ◌>>◌}
use tgc_bus_core.JobTables.{JobLine, JobSession}
use tgc_bus_core.Jobs.{clean_required, fetch_job, fetch_line, EventPayload, set_lines}
use tgc_bus_core.Jobs.Changes.{text_or, add_event}
use tgc_bus_core.Jobs.LineValues.{
  check_line_type, validate_line_status, check_unit_price, validate_item_recipe,
  normalize_line_quantity,
}

-- The payload of `create_line`.
pub record JobLinePayload : Type 0 where
  pub line_type : Option String
  pub status : Option String
  pub item_id : Option ℕ
  pub recipe_id : Option ℕ
  pub quantity_decimal : Option Number
  pub uom : Option String
  pub description : Option String
  pub unit_price_cents : Option Number
  pub sort_order : Option ℤ

-- The keys of a payload for `update_line`: `none` is a key that is not there.
pub record JobLinePatch : Type 0 where
  pub line_type : Option (Option String)
  pub status : Option (Option String)
  pub item_id : Option (Option ℕ)
  pub recipe_id : Option (Option ℕ)
  pub quantity_decimal : Option (Option Number)
  pub uom : Option (Option String)
  pub description : Option (Option String)
  pub unit_price_cents : Option (Option Number)
  pub sort_order : Option (Option ℤ)

-- The event that a change of a line is recorded with.
unfoldable pub line_event : String → ℕ → String → EventPayload
line_event event_type line_id what = record {
  event_type = some event_type;
  message = some (join "Job line " (join (str line_id) what));
  source_kind = some "job_line";
  source_id = some (str line_id);
  meta = none;
}

-- An assignment to attributes of a line.
unfoldable pub set_line : ℕ → (JobLine → JobLine) → Action JobSession (Unit {0})
unfolding update_row
set_line line_id f = set_lines (update_row (λ l. l.id) line_id f)

-- The key of an item or a recipe in the payload changes what the quantity is counted by.
unfoldable pub authority_changes : JobLinePatch → JobLine → Bool
authority_changes patch line =
    (is_some patch.item_id || is_some patch.recipe_id)
    && is_some line.qty_base
    && not (is_some patch.quantity_decimal)

module _ (line_id : ℕ) where
  unfoldable pub patch_line_type : Option (Option String) → String → Action JobSession (Unit {0})
  patch_line_type none line_type = pure tt
  patch_line_type (some _) line_type = set_line line_id (λ l. record l { line_type = line_type })

  unfoldable pub patch_description : Option (Option String) → Action JobSession (Unit {0})
  patch_description none = pure tt
  patch_description (some description) = do
    cleaned ← lift (clean_required description "description")
    set_line line_id (λ l. record l { description = cleaned })

  unfoldable pub patch_price : Option (Option Number) → Action JobSession (Unit {0})
  patch_price none = pure tt
  patch_price (some price) = do
    cents ← lift (check_unit_price price)
    set_line line_id (λ l. record l { unit_price_cents = cents })

  unfoldable pub patch_status : Option (Option String) → Action JobSession (Unit {0})
  patch_status none = pure tt
  patch_status (some text) = do
    status ← lift (validate_line_status text)
    set_line line_id (λ l. record l { status = status })

  -- The quantity of a payload: cleared, converted, or only its unit changed.
  unfoldable pub patch_quantity :
      String
      → Option ℕ
      → Option ℕ
      → JobLinePatch
      → Option (Option Number)
      → Action JobSession (Unit {0})
  patch_quantity line_type item_id recipe_id patch none =
      set_line line_id (λ l. record l { display_uom = get_or patch.uom l.display_uom })
  patch_quantity line_type item_id recipe_id patch (some none) =
      set_line line_id (λ l. record l { qty_base = none; display_uom = get_or patch.uom none })
  patch_quantity line_type item_id recipe_id patch (some (some quantity)) = do
    (qty_base, display_uom) ←
        normalize_line_quantity line_type item_id recipe_id (some quantity) (get_or patch.uom none)
    set_line line_id (λ l. record l { qty_base = qty_base; display_uom = display_uom })

module _ (env : Env) (job_id : ℕ) where
  -- db.add(JobLine(…))
  unfoldable pub insert_job_line : (ℕ → JobLine) → Action JobSession ℕ
  insert_job_line line_at = do
    id ← gets (λ s. env.next_id (map (λ l. l.id) s.rows.lines))
    set_lines (λ lines. lines ++ line_at id ∷ [])
    pure id

  unfoldable pub create_line : JobLinePayload → Action JobSession ℕ
  create_line payload = do
    job ← fetch_job job_id
    line_type ← lift (check_line_type payload.line_type)
    status ← lift (validate_line_status (text_or payload.status "pending"))
    validate_item_recipe payload.item_id payload.recipe_id
    (qty_base, display_uom) ←
        normalize_line_quantity line_type payload.item_id payload.recipe_id payload.quantity_decimal
          payload.uom
    description ← lift (clean_required payload.description "description")
    cents ← lift (check_unit_price payload.unit_price_cents)
    line_id ← insert_job_line (λ id. record {
      id = id;
      job_id = job_id;
      item_id = payload.item_id;
      recipe_id = payload.recipe_id;
      line_type = line_type;
      description = description;
      qty_base = qty_base;
      display_uom = display_uom;
      unit_price_cents = cents;
      status = status;
      sort_order = get_or payload.sort_order (pos 0);
    })
    flush
    add_event env job_id (line_event "job.line_created" line_id " created.")
    commit
    pure line_id

  unfoldable pub update_line : ℕ → JobLinePatch → Action JobSession (Unit {0})
  update_line line_id patch = do
    line ← fetch_line job_id line_id
    line_type ← lift (check_line_type (get_or patch.line_type (some line.line_type)))
    validate_item_recipe (get_or patch.item_id line.item_id) (get_or patch.recipe_id line.recipe_id)
    raise_if (authority_changes patch line)
        (http 400 "quantity_required_when_quantity_authority_changes")
    patch_line_type line_id patch.line_type line_type
    patch_description line_id patch.description
    set_line line_id (λ l. record l {
      item_id = get_or patch.item_id l.item_id;
      recipe_id = get_or patch.recipe_id l.recipe_id;
    })
    patch_price line_id patch.unit_price_cents
    patch_status line_id patch.status
    set_line line_id
        (λ l. record l { sort_order = get_or (get_or patch.sort_order none) l.sort_order })
    patch_quantity line_id line_type (get_or patch.item_id line.item_id)
        (get_or patch.recipe_id line.recipe_id) patch patch.quantity_decimal
    add_event env job_id (line_event "job.line_updated" line_id " updated.")
    commit

  unfoldable pub delete_line : ℕ → Action JobSession (Unit {0})
  unfolding delete_row
  delete_line line_id = do
    fetch_line job_id line_id
    add_event env job_id (line_event "job.line_deleted" line_id " deleted.")
    set_lines (delete_row (λ l. l.id) line_id)
    commit
