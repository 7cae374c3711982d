-- ===== src/Invoices/Lines.antt =====
-- core/services/invoices.py: adding, changing and deleting the lines of a draft.
use tgc_bus_core.Base.{
  ℕ, String, Bool, true, false, not, ◌&&◌, Option, none, some, List, [], ◌∷◌, ◌++◌, map, ◌==◌, ◌=ₛ◌,
  if◌then◌else◌, get_or, is_some,
}
use tgc_bus_core.Base.Int.{ℤ, pos}
use tgc_bus_core.Tables.{find_row, update_row, delete_row}
use tgc_bus_core.Decimal.{Number}
use tgc_bus_core.Effects.{
  http, decimal_error, Result, ok, err, Action, Env, pure, raise_if, gets, lift, ◌then_do◌, ◌>>=◌,
  ◌>>◌,
}
use tgc_bus_core.StockTables.{Item}
use tgc_bus_core.InvoiceTables.{InvoiceLine, BilledLine, InvoiceSession, Database, save, commit_all}
use tgc_bus_core.Invoices.{
  set_lines, clean_required_text, parse_optional_text, validate_line_type,
  validate_unit_price_cents, of_column, get_invoice, get_invoice_line, require_draft,
  recalculate_invoice_totals,
}

-- The keys of a line's payload; a blank quantity is none.
pub record LinePayload : Type 0 where
  pub line_type : Option String
  pub description : Option String
  pub quantity_decimal : Option Number
  pub uom : Option String
  pub unit_price_cents : Option Number
  pub taxable : Bool
  pub sort_order : ℤ
  pub item_id : Option ℕ
  pub job_line_id : Option ℕ

-- What `_validate_line_payload` returns.
pub record LineFields : Type 0 where
  pub line_type : String
  pub description : String
  pub quantity_decimal : Option Number
  pub uom : Option String
  pub unit_price_cents : Option ℕ
  pub taxable : Bool
  pub sort_order : ℤ
  pub item_id : Option ℕ
  pub job_line_id : Option ℕ

-- A quantity that is given is a number that is not negative; an infinity passes.
unfoldable pub check_quantity : Option Number → Result (Unit {0})
check_quantity none = ok tt
check_quantity (some Number.malformed) = err (http 400 "quantity_decimal_invalid")
check_quantity (some Number.nan) = err decimal_error
check_quantity (some (Number.infinity negative)) =
    if negative then err (http 400 "quantity_decimal_invalid") else ok tt
check_quantity (some (Number.finite negative coeff scale)) =
    if negative && not (coeff == 0) then err (http 400 "quantity_decimal_invalid") else ok tt

unfoldable pub check_uom : Bool → Bool → Result (Unit {0})
check_uom true false = err (http 400 "uom_required")
check_uom false true = err (http 400 "uom_requires_quantity_decimal")
check_uom true true = ok tt
check_uom false false = ok tt

-- The part of `_validate_line_payload` that reads no table.
unfoldable pub line_fields : LinePayload → Result LineFields
line_fields payload = validate_line_type payload.line_type then_do λ line_type.
    clean_required_text payload.description "description_required" then_do λ description.
    if line_type =ₛ "note"
    then ok (record {
      line_type = line_type;
      description = description;
      quantity_decimal = none;
      uom = none;
      unit_price_cents = none;
      taxable = false;
      sort_order = payload.sort_order;
      item_id = payload.item_id;
      job_line_id = payload.job_line_id;
    })
    else (check_quantity payload.quantity_decimal then_do λ _.
        let uom = parse_optional_text payload.uom in
        check_uom (is_some payload.quantity_decimal) (is_some uom) then_do λ _.
        validate_unit_price_cents payload.unit_price_cents then_do λ price. ok (record {
          line_type = line_type;
          description = description;
          quantity_decimal = payload.quantity_decimal;
          uom = uom;
          unit_price_cents = price;
          taxable = payload.taxable;
          sort_order = payload.sort_order;
          item_id = payload.item_id;
          job_line_id = payload.job_line_id;
        }))

-- A key that is given must be one of the rows'.
unfoldable pub check_key : {A : Type 0} → (A → ℕ) → Option ℕ → List A → Bool
unfolding find_row
check_key key none rows = true
check_key key (some id) rows = is_some (find_row key id rows)

-- `_validate_line_payload`
unfoldable pub validate_line_payload : LinePayload → Action InvoiceSession LineFields
validate_line_payload payload = do
  fields ← lift (line_fields payload)
  has_item ← gets (λ s. check_key (λ (i : Item). i.id) fields.item_id s.rows.items)
  raise_if (not has_item) (http 404 "invoice_item_not_found")
  has_job_line ←
      gets (λ s. check_key (λ (l : BilledLine). l.id) fields.job_line_id s.rows.job_lines)
  raise_if (not has_job_line) (http 404 "invoice_job_line_not_found")
  pure fields

abbrev pub to_column : Option ℕ → Option ℤ
to_column none = none
to_column (some n) = some (pos n)

unfoldable pub line_with : LineFields → InvoiceLine → InvoiceLine
line_with fields line = record line {
  line_type = fields.line_type;
  description = fields.description;
  quantity_decimal = fields.quantity_decimal;
  uom = fields.uom;
  unit_price_cents = to_column fields.unit_price_cents;
  taxable = fields.taxable;
  sort_order = fields.sort_order;
  item_id = fields.item_id;
  job_line_id = fields.job_line_id;
}

-- A row with the defaults of the columns.
unfoldable pub new_line : ℕ → ℕ → InvoiceLine
new_line id invoice_id = record {
  id = id;
  invoice_id = invoice_id;
  job_line_id = none;
  item_id = none;
  line_type = "";
  description = "";
  quantity_decimal = none;
  uom = none;
  unit_price_cents = none;
  taxable = true;
  line_subtotal_cents = 0;
  sort_order = pos 0;
}

-- db.add(InvoiceLine(…))
unfoldable pub insert_line : Env → (ℕ → InvoiceLine) → Action InvoiceSession ℕ
insert_line env line_at = do
  id ← gets (λ s. env.next_id (map (λ l. l.id) s.rows.lines))
  set_lines (λ lines. lines ++ line_at id ∷ [])
  pure id

-- The keys of a payload that are there: `none` is a key that is not.
pub record LinePatch : Type 0 where
  pub line_type : Option (Option String)
  pub description : Option (Option String)
  pub quantity_decimal : Option (Option Number)
  pub uom : Option (Option String)
  pub unit_price_cents : Option (Option Number)
  pub taxable : Option Bool
  pub sort_order : Option ℤ
  pub item_id : Option (Option ℕ)
  pub job_line_id : Option (Option ℕ)

-- The dict `merged`.
unfoldable pub merged : LinePatch → InvoiceLine → LinePayload
merged patch line = record {
  line_type = get_or patch.line_type (some line.line_type);
  description = get_or patch.description (some line.description);
  quantity_decimal = get_or patch.quantity_decimal line.quantity_decimal;
  uom = get_or patch.uom line.uom;
  unit_price_cents = get_or patch.unit_price_cents (of_column line.unit_price_cents);
  taxable = get_or patch.taxable line.taxable;
  sort_order = get_or patch.sort_order line.sort_order;
  item_id = get_or patch.item_id line.item_id;
  job_line_id = get_or patch.job_line_id line.job_line_id;
}

module _ (database : Database) (invoice_id : ℕ) where
  -- db.flush(), the totals, db.commit()
  unfoldable pub settle : Action InvoiceSession (Unit {0})
  settle = do save database; recalculate_invoice_totals database invoice_id; commit_all database

  unfoldable pub add_invoice_line : LinePayload → Action InvoiceSession ℕ
  add_invoice_line payload = do
    invoice ← get_invoice invoice_id
    lift (require_draft invoice.status)
    fields ← validate_line_payload payload
    id ← insert_line database.env (λ id. line_with fields (new_line id invoice_id))
    settle
    pure id

  unfoldable pub update_invoice_line : ℕ → LinePatch → Action InvoiceSession (Unit {0})
  unfolding update_row
  update_invoice_line line_id patch = do
    invoice ← get_invoice invoice_id
    lift (require_draft invoice.status)
    line ← get_invoice_line invoice_id line_id
    fields ← validate_line_payload (merged patch line)
    set_lines (update_row (λ l. l.id) line_id (line_with fields))
    settle

  unfoldable pub delete_invoice_line : ℕ → Action InvoiceSession (Unit {0})
  unfolding delete_row
  delete_invoice_line line_id = do
    invoice ← get_invoice invoice_id
    lift (require_draft invoice.status)
    get_invoice_line invoice_id line_id
    set_lines (delete_row (λ l. l.id) line_id)
    settle
