-- ===== src/Invoices.antt =====
-- core/services/invoices.py: the checks of what a request gives, and the totals of an invoice.
pub mod Lines
pub mod Drafts
pub mod Workflow
pub mod Billing
pub mod Paid
pub mod Frozen
pub mod Numbers
pub mod Sums
use tgc_bus_core.Base.{
  max, ℕ, suc, ◌+◌, ◌*◌, ◌/◌, ◌%◌, ◌^◌, String, Bool, true, false, not, ◌&&◌, ◌||◌, Option, none,
  some, List, [], ◌∷◌, ◌++◌, map, ltb, ◌==◌, ◌=ₛ◌, mem_text, if◌then◌else◌, get_or, is_some, strip,
  lower, keep,
}
use tgc_bus_core.Base.Int.{ℤ, pos, negsuc, ltb_ℤ}
use tgc_bus_core.Tables.{find_row, update_row, current, order_by}
use tgc_bus_core.Decimal.{Decimal, Number, of_nat, mul, div, quantize}
use tgc_bus_core.Effects.{
  Error, http, active_invoice_exists, decimal_error, integrity_error, Result, ok, err, Action, Env,
  Session, pure, raise, raise_if, gets, lift, or_raise, write, of_option, ◌then_do◌, ◌>>=◌, ◌>>◌,
}
use tgc_bus_core.StockTables.{Item, Recipe, CashEvent}
use tgc_bus_core.InvoiceTables.{
  InvoiceStatus, Invoice, InvoiceLine, BilledJob, BilledLine, InvoiceDb, InvoiceSession, Database,
  save, commit_all,
}

-- `_clean_required_text`
unfoldable pub clean_required_text : Option String → String → Result String
clean_required_text value missing =
    let cleaned = strip (get_or value "") in
    if cleaned =ₛ "" then err (http 400 missing) else ok cleaned

-- `_parse_optional_text`
unfoldable pub parse_optional_text : Option String → Option String
parse_optional_text value =
    let cleaned = strip (get_or value "") in if cleaned =ₛ "" then none else some cleaned

-- `_tax_basis_points_from_percent`: a comparison with a NaN and the rounding of an infinity raise
-- InvalidOperation.
unfoldable pub tax_basis_points_from_percent : Option Number → Result ℕ
tax_basis_points_from_percent none = ok 0
tax_basis_points_from_percent (some Number.malformed) = err (http 400 "tax_rate_percent_invalid")
tax_basis_points_from_percent (some Number.nan) = err decimal_error
tax_basis_points_from_percent (some (Number.infinity negative)) =
    err (if negative then http 400 "tax_rate_percent_invalid" else decimal_error)
tax_basis_points_from_percent (some (Number.finite negative coeff scale)) =
    if negative && not (coeff == 0)
    then err (http 400 "tax_rate_percent_invalid")
    else (of_option (quantize (mul (record { coeff = coeff; scale = scale }) (of_nat 100)))
          decimal_error
        then_do λ points.
            if ltb 1_000_000 points
            then err (http 400 "tax_rate_basis_points_invalid")
            else ok points)

-- INVOICE_LINE_TYPES
abbrev pub invoice_line_types : List String
invoice_line_types = "product" ∷ "service" ∷ "fee" ∷ "note" ∷ []

-- `_validate_line_type`
unfoldable pub validate_line_type : Option String → Result String
validate_line_type line_type =
    let normalized = lower (strip (get_or line_type "")) in
    if mem_text normalized invoice_line_types
    then ok normalized
    else err (http 400 "invalid_invoice_line_type")

-- `_validate_unit_price_cents`
unfoldable pub validate_unit_price_cents : Option Number → Result (Option ℕ)
validate_unit_price_cents none = ok none
validate_unit_price_cents (some (Number.finite negative coeff scale)) =
    if (negative && not (coeff == 0)) || not (coeff % 10 ^ scale == 0)
    then err (http 400 "unit_price_cents_invalid")
    else ok (some (coeff / 10 ^ scale))
validate_unit_price_cents (some _) = err (http 400 "unit_price_cents_invalid")

-- `Decimal(str(n))` of an integer column.
unfoldable pub of_column : Option ℤ → Option Number
of_column none = none
of_column (some (pos n)) = some (Number.finite false n 0)
of_column (some (negsuc n)) = some (Number.finite true (suc n) 0)

unfoldable pub get_contact : ℕ → Action InvoiceSession ℕ
unfolding find_row
get_contact contact_id = do
  found ← gets (λ s. find_row (λ c. c) contact_id s.rows.contacts)
  or_raise found (http 404 "invoice_contact_not_found")

unfoldable pub get_job : ℕ → Action InvoiceSession BilledJob
unfolding find_row
get_job job_id = do
  found ← gets (λ s. find_row (λ j. j.id) job_id s.rows.jobs)
  or_raise found (http 404 "invoice_job_not_found")

unfoldable pub get_invoice : ℕ → Action InvoiceSession Invoice
unfolding find_row
get_invoice invoice_id = do
  found ← gets (λ s. find_row (λ i. i.id) invoice_id s.rows.invoices)
  or_raise found (http 404 "invoice_not_found")

-- `_get_invoice_line`
unfoldable pub get_invoice_line : ℕ → ℕ → Action InvoiceSession InvoiceLine
unfolding find_row
get_invoice_line invoice_id line_id = do
  found ← gets (λ s. find_row (λ l. l.id) line_id s.rows.lines)
  line ← or_raise found (http 404 "invoice_line_not_found")
  raise_if (not (line.invoice_id == invoice_id)) (http 404 "invoice_line_not_found")
  pure line

abbrev pub is_void : InvoiceStatus → Bool
is_void InvoiceStatus.void = true
is_void _ = false

abbrev has_job : ℕ → Option ℕ → Bool
has_job job_id none = false
has_job job_id (some j) = j == job_id

abbrev excluded : Option ℕ → ℕ → Bool
excluded none id = false
excluded (some e) id = id == e

abbrev first : {A : Type 0} → List A → Option A
first [] = none
first (a ∷ _) = some a

-- `_active_invoice_for_job`
unfoldable pub active_invoice_for_job : ℕ → Option ℕ → InvoiceSession → Option Invoice
active_invoice_for_job job_id exclude s = first (
    map (current (λ i. i.id) s.rows.invoices) (
      order_by (λ (a b : Invoice). ltb a.id b.id)
        (keep
          (λ i. has_job job_id i.job_id && not (is_void i.status) && not (excluded exclude i.id))
          s.flushed.invoices)))

-- `_raise_active_invoice_conflict`, where there is such an invoice.
unfoldable pub refuse_active : Option Invoice → Action InvoiceSession (Unit {0})
refuse_active none = pure tt
refuse_active (some i) = raise (active_invoice_exists i.id)

-- `_require_draft`
unfoldable pub require_draft : InvoiceStatus → Result (Unit {0})
require_draft InvoiceStatus.paid = err (http 400 "invoice_edit_forbidden_after_paid")
require_draft InvoiceStatus.void = err (http 400 "invoice_edit_forbidden_after_void")
require_draft InvoiceStatus.issued = err (http 400 "invoice_edit_forbidden_after_issue")
require_draft InvoiceStatus.draft = ok tt

-- quantity * Decimal(unit_price_cents), rounded, and the checks before it.
unfoldable pub priced : ℕ → Number → Result ℕ
priced unit_price_cents Number.malformed = err (http 400 "quantity_decimal_invalid")
priced unit_price_cents Number.nan = err decimal_error
priced unit_price_cents (Number.infinity negative) =
    err (if negative then http 400 "quantity_decimal_invalid" else decimal_error)
priced unit_price_cents (Number.finite negative coeff scale) =
    if negative && not (coeff == 0)
    then err (http 400 "quantity_decimal_invalid")
    else of_option
        (quantize (mul (record { coeff = coeff; scale = scale }) (of_nat unit_price_cents)))
        decimal_error

-- `_line_subtotal_cents`
unfoldable pub line_subtotal_cents_of : InvoiceLine → Result ℕ
line_subtotal_cents_of line =
    if line.line_type =ₛ "note"
    then ok 0
    else (validate_unit_price_cents (of_column line.unit_price_cents) then_do λ price.
        elim (line.quantity_decimal) [
          | none ↦ ok 0
          | some quantity ↦ priced (get_or price 0) quantity
        ])

-- Changes to the rows of lines, and of the document sequence.
unfoldable pub set_lines : (List InvoiceLine → List InvoiceLine) → Action InvoiceSession (Unit {0})
set_lines f = write (λ db. record db { lines = f db.lines })

unfoldable pub set_sequence : ℕ → Action InvoiceSession (Unit {0})
set_sequence n = write (λ db. record db { sequence = some n })

-- One round of the loop over the lines.
unfoldable pub price_line : InvoiceLine → Action InvoiceSession ℕ
unfolding update_row
price_line line = do
  cents ← lift (line_subtotal_cents_of line)
  set_lines (update_row (λ l. l.id) line.id (λ l. record l { line_subtotal_cents = cents }))
  pure cents

-- The sums that the loop makes: all lines, and the taxable ones.
unfoldable pub sum_lines : List InvoiceLine → Action InvoiceSession (ℕ × ℕ)
sum_lines [] = pure (0, 0)
sum_lines (line ∷ lines) = do
  cents ← price_line line
  (subtotal, taxable) ← sum_lines lines
  pure (cents + subtotal, if line.taxable then cents + taxable else taxable)

-- _round_to_cents(Decimal(taxable) * Decimal(rate) / Decimal("10000"))
unfoldable pub tax_of : ℕ → ℕ → Result ℕ
tax_of taxable_cents basis_points =
    of_option (div (mul (of_nat taxable_cents) (of_nat basis_points)) (of_nat 10_000)) decimal_error
    then_do λ tax. of_option (quantize tax) decimal_error

-- `invoice.lines`, which a query fills.
unfoldable pub lines_of : ℕ → InvoiceSession → List InvoiceLine
lines_of invoice_id s =
    map (current (λ l. l.id) s.rows.lines) (keep (λ l. l.invoice_id == invoice_id) s.flushed.lines)

-- An assignment to attributes of an invoice.
unfoldable pub set_invoice : ℕ → (Invoice → Invoice) → Action InvoiceSession (Unit {0})
unfolding update_row
set_invoice invoice_id f =
    write (λ db. record db { invoices = update_row (λ i. i.id) invoice_id f db.invoices })

pub record Totals : Type 0 where
  pub subtotal_cents : ℕ
  pub tax_cents : ℕ
  pub total_cents : ℕ

-- `recalculate_invoice_totals`
unfoldable pub recalculate_invoice_totals : Database → ℕ → Action InvoiceSession Totals
recalculate_invoice_totals database invoice_id = do
  invoice ← get_invoice invoice_id
  lines ← gets (lines_of invoice_id)
  (subtotal, taxable) ← sum_lines lines
  tax ← lift (tax_of taxable invoice.tax_rate_basis_points)
  set_invoice invoice_id
      (λ i. record i { subtotal_cents = subtotal; tax_cents = tax; total_cents = subtotal + tax })
  save database
  pure (record { subtotal_cents = subtotal; tax_cents = tax; total_cents = subtotal + tax })

-- A new sequence starts at 1001.
unfoldable pub start_sequence : Database → Option ℕ → Action InvoiceSession ℕ
start_sequence database (some next_number) = pure next_number
start_sequence database none = do set_sequence 1001; save database; pure 1001

-- `generate_invoice_number`
unfoldable pub generate_invoice_number : Database → Action InvoiceSession ℕ
generate_invoice_number database = do
  sequence ← gets (λ s. s.rows.sequence)
  stored ← start_sequence database sequence
  set_sequence (max 1001 stored + 1)
  save database
  pure (max 1001 stored)
