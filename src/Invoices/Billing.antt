-- ===== src/Invoices/Billing.antt =====
-- core/services/invoices.py: the invoice of a job.
use tgc_bus_core.Base.{
  ℕ, String, Bool, false, not, ◌&&◌, ◌||◌, Option, none, some, List, [], ◌∷◌, map, ltb, ◌==◌,
  mem_text, or_else, keep,
}
use tgc_bus_core.Base.Int.{ℤ, ltb_ℤ}
use tgc_bus_core.Tables.{find_row, current, order_by}
use tgc_bus_core.Decimal.{Number, of_nat, div}
use tgc_bus_core.Effects.{
  http, decimal_error, integrity_error, Result, ok, Action, Env, pure, raise, gets, lift, or_raise,
  of_option, ◌then_do◌, ◌>>=◌, ◌>>◌,
}
use tgc_bus_core.Metric.{from_base_qty}
use tgc_bus_core.StockTables.{Item, Recipe}
use tgc_bus_core.InvoiceTables.{
  Invoice, InvoiceLine, BilledJob, BilledLine, InvoiceDb, InvoiceSession, Database, save,
  commit_all,
}
use tgc_bus_core.Invoices.{
  tax_basis_points_from_percent, validate_unit_price_cents, of_column, get_job,
  active_invoice_for_job, recalculate_invoice_totals, generate_invoice_number,
}
use tgc_bus_core.Invoices.Lines.{to_column, new_line, insert_line}
use tgc_bus_core.Invoices.Drafts.{on_integrity_error, InvoicePayload, new_draft, insert_invoice}

-- BILLABLE_JOB_LINE_TYPES
abbrev pub billable_job_line_types : List String
billable_job_line_types = "product" ∷ "service" ∷ "fee" ∷ []

-- ORDER BY sort_order, id
abbrev line_before : BilledLine → BilledLine → Bool
line_before a b =
    ltb_ℤ a.sort_order b.sort_order || (not (ltb_ℤ b.sort_order a.sort_order) && ltb a.id b.id)

unfoldable pub billable_lines : ℕ → InvoiceSession → List BilledLine
billable_lines job_id s = map (current (λ l. l.id) s.rows.job_lines) (
    order_by line_before (
      keep
        (λ l.
          l.job_id == job_id && mem_text l.line_type billable_job_line_types && not l.is_cancelled)
        s.flushed.job_lines))

-- The item whose units a line's quantity is in: its own, or its recipe's output.
unfoldable pub quantity_item : BilledLine → InvoiceDb → Option Item
unfolding find_row
quantity_item line db =
    let recipe_item : Option Item = elim (line.recipe_id) [
      | none ↦ none
      | some recipe_id ↦ elim (find_row (λ (r : Recipe). r.id) recipe_id db.recipes) [
        | none ↦ none
        | some recipe ↦ find_row (λ (i : Item). i.id) recipe.output_item_id db.items
      ]
    ] in
    elim (line.item_id) [
      | none ↦ recipe_item
      | some item_id ↦ or_else (find_row (λ (i : Item). i.id) item_id db.items) recipe_item
    ]

-- The quantity as `Decimal` reads its text again: in hundredths where there is an item.
unfoldable pub human_quantity : ℕ → String → Option Item → Result Number
human_quantity qty_base uom (some item) =
    from_base_qty qty_base item.dimension uom then_do λ cents. ok (Number.finite false cents 2)
human_quantity qty_base uom none =
    of_option (div (of_nat qty_base) (of_nat 1000)) decimal_error then_do λ q.
    ok (Number.finite false q.coeff q.scale)

-- `_job_line_quantity_decimal`
unfoldable pub job_line_quantity_decimal : BilledLine → InvoiceDb → Result (Option Number)
job_line_quantity_decimal line db = elim (line.qty_base) [
  | none ↦ ok none
  | some qty_base ↦ elim (line.display_uom) [
    | none ↦ ok none
    | some uom ↦ human_quantity qty_base uom (quantity_item line db) then_do λ q. ok (some q)
  ]
]

unfoldable pub check_prices : List BilledLine → Result (Unit {0})
check_prices [] = ok tt
check_prices (line ∷ lines) =
    validate_unit_price_cents (of_column line.unit_price_cents) then_do λ _. check_prices lines

unfoldable pub billed : BilledLine → Option Number → Option ℤ → InvoiceLine → InvoiceLine
billed line quantity price l = record l {
  job_line_id = some line.id;
  item_id = line.item_id;
  line_type = line.line_type;
  description = line.description;
  quantity_decimal = quantity;
  uom = line.display_uom;
  unit_price_cents = price;
  sort_order = line.sort_order;
}

unfoldable pub bill_line : Env → ℕ → BilledLine → Action InvoiceSession ℕ
bill_line env invoice_id line = do
  quantity ← gets (λ s. job_line_quantity_decimal line s.rows)
  q ← lift quantity
  price ← lift (validate_unit_price_cents (of_column line.unit_price_cents))
  insert_line env (λ id. billed line q (to_column price) (new_line id invoice_id))

unfoldable pub bill_lines : Env → ℕ → List BilledLine → Action InvoiceSession (Unit {0})
bill_lines env invoice_id [] = pure tt
bill_lines env invoice_id (line ∷ lines) = do
  bill_line env invoice_id line
  bill_lines env invoice_id lines

module _ (database : Database) where
  -- The draft for a job, with a line for each of its billable lines.
  unfoldable pub bill_job :
      BilledJob → ℕ → List BilledLine → InvoicePayload → ℕ → ℕ → Action InvoiceSession ℕ
  bill_job job contact_id lines payload number basis_points = do
    id ← insert_invoice database.env (
        new_draft number contact_id (some job.id) (or_else payload.due_date job.due_date)
          basis_points payload.notes)
    save database
    bill_lines database.env id lines
    save database
    recalculate_invoice_totals database id
    commit_all database
    pure id

  unfoldable pub id_or_raise : Option Invoice → Action InvoiceSession ℕ
  id_or_raise none = raise integrity_error
  id_or_raise (some invoice) = pure invoice.id

  -- After a refused flush: the active invoice where there is one now, and else the error itself.
  unfoldable pub existing_or_raise : ℕ → Action InvoiceSession ℕ
  existing_or_raise job_id = do
    existing ← gets (active_invoice_for_job job_id none)
    id_or_raise existing

  -- What follows where the job has an active invoice already, and where it has none.
  unfoldable pub bill_once :
      BilledJob → ℕ → InvoicePayload → Option Invoice → Action InvoiceSession ℕ
  bill_once job contact_id payload (some invoice) = pure invoice.id
  bill_once job contact_id payload none = do
    lines ← gets (billable_lines job.id)
    lift (check_prices lines)
    number ← generate_invoice_number database
    basis_points ← lift (tax_basis_points_from_percent payload.tax_rate_percent)
    on_integrity_error (bill_job job contact_id lines payload number basis_points)
        (existing_or_raise job.id)

  unfoldable pub create_invoice_from_job : ℕ → InvoicePayload → Action InvoiceSession ℕ
  create_invoice_from_job job_id payload = do
    job ← get_job job_id
    contact_id ← or_raise job.contact_id (http 400 "invoice_job_contact_required")
    existing ← gets (active_invoice_for_job job.id none)
    bill_once job contact_id payload existing
