-- ===== src/Invoices/Drafts.antt =====
-- core/services/invoices.py: the creation of an invoice and changes to a draft.
use tgc_bus_core.Base.{
  if◌then◌else◌, Bool, true, false, ℕ, String, Option, none, some, [], ◌∷◌, ◌++◌, map, get_or,
}
use tgc_bus_core.Decimal.{Number}
use tgc_bus_core.Effects.{
  Error, http, integrity_error, Result, ok, err, Action, Env, pure, raise, gets, lift, or_raise,
  write, rollback, ◌>>=◌, ◌>>◌,
}
use tgc_bus_core.InvoiceTables.{InvoiceStatus, Invoice, InvoiceSession, Database, save, commit_all}
use tgc_bus_core.Invoices.{
  tax_basis_points_from_percent, get_contact, get_job, get_invoice, active_invoice_for_job,
  refuse_active, require_draft, set_invoice, recalculate_invoice_totals, generate_invoice_number,
}

abbrev pub is_integrity_error : Error → Bool
is_integrity_error integrity_error = true
is_integrity_error _ = false

-- `except IntegrityError`: the handler starts with `db.rollback()`.
unfoldable pub on_integrity_error :
    {A : Type 0} → Action InvoiceSession A → Action InvoiceSession A → Action InvoiceSession A
on_integrity_error body handler s = let (r, t) = body s in caught r handler t
  where
    caught : {A : Type 0} → Result A → Action InvoiceSession A → Action InvoiceSession A
    caught (ok a) handler = pure a
    caught (err e) handler = if is_integrity_error e then rollback >> handler else raise e

pub record InvoicePayload : Type 0 where
  pub contact_id : Option ℕ
  pub job_id : Option ℕ
  pub due_date : Option ℕ
  pub tax_rate_percent : Option Number
  pub notes : Option String

-- The job that a payload names exists and has no other active invoice.
unfoldable pub check_job : Option ℕ → Option ℕ → Action InvoiceSession (Unit {0})
check_job none exclude = pure tt
check_job (some job_id) exclude = do
  get_job job_id
  existing ← gets (active_invoice_for_job job_id exclude)
  refuse_active existing

-- After a refused flush: the conflict where there is one now, and else the error itself.
unfoldable pub conflict_or_raise : {A : Type 0} → Option ℕ → Option ℕ → Action InvoiceSession A
conflict_or_raise none exclude = raise integrity_error
conflict_or_raise (some job_id) exclude = do
  existing ← gets (active_invoice_for_job job_id exclude)
  refuse_active existing
  raise integrity_error

-- A draft with the defaults of the columns.
unfoldable pub new_draft : ℕ → ℕ → Option ℕ → Option ℕ → ℕ → Option String → ℕ → Invoice
new_draft number contact_id job_id due_date basis_points notes id = record {
  id = id;
  invoice_number = number;
  contact_id = contact_id;
  job_id = job_id;
  status = InvoiceStatus.draft;
  issue_date = none;
  due_date = due_date;
  paid_at = none;
  voided_at = none;
  tax_rate_basis_points = basis_points;
  subtotal_cents = 0;
  tax_cents = 0;
  total_cents = 0;
  paid_cash_event_id = none;
  notes = notes;
}

-- db.add(invoice)
unfoldable pub insert_invoice : Env → (ℕ → Invoice) → Action InvoiceSession ℕ
insert_invoice env invoice_at = do
  id ← gets (λ s. env.next_id (map (λ i. i.id) s.rows.invoices))
  write (λ db. record db { invoices = db.invoices ++ invoice_at id ∷ [] })
  pure id

-- The keys of a payload for `update_invoice`: `none` is a key that is not there.
pub record InvoicePatch : Type 0 where
  pub contact_id : Option ℕ
  pub job_id : Option (Option ℕ)
  pub due_date : Option (Option ℕ)
  pub notes : Option (Option String)
  pub tax_rate_percent : Option (Option Number)

module _ (database : Database) where
  unfoldable pub create_invoice : InvoicePayload → Action InvoiceSession ℕ
  create_invoice payload = do
    contact_id ← or_raise payload.contact_id (http 400 "invoice_contact_required")
    get_contact contact_id
    check_job payload.job_id none
    number ← generate_invoice_number database
    basis_points ← lift (tax_basis_points_from_percent payload.tax_rate_percent)
    on_integrity_error
        (do
          id ← insert_invoice database.env (
              new_draft number contact_id payload.job_id payload.due_date basis_points
                payload.notes)
          save database
          recalculate_invoice_totals database id
          commit_all database
          pure id)
        (conflict_or_raise payload.job_id none)

  module _ (invoice_id : ℕ) where
    unfoldable pub patch_contact : Option ℕ → Action InvoiceSession (Unit {0})
    patch_contact none = pure tt
    patch_contact (some contact_id) = do
      get_contact contact_id
      set_invoice invoice_id (λ i. record i { contact_id = contact_id })

    unfoldable pub patch_job : Option (Option ℕ) → Action InvoiceSession (Unit {0})
    patch_job none = pure tt
    patch_job (some job_id) = do
      check_job job_id (some invoice_id)
      set_invoice invoice_id (λ i. record i { job_id = job_id })

    unfoldable pub patch_tax : Option (Option Number) → Action InvoiceSession (Unit {0})
    patch_tax none = pure tt
    patch_tax (some percent) = do
      basis_points ← lift (tax_basis_points_from_percent percent)
      set_invoice invoice_id (λ i. record i { tax_rate_basis_points = basis_points })

    unfoldable pub update_invoice : InvoicePatch → Action InvoiceSession (Unit {0})
    update_invoice patch = do
      invoice ← get_invoice invoice_id
      lift (require_draft invoice.status)
      patch_contact patch.contact_id
      patch_job patch.job_id
      set_invoice invoice_id (λ i. record i {
        due_date = get_or patch.due_date i.due_date;
        notes = get_or patch.notes i.notes;
      })
      patch_tax patch.tax_rate_percent
      on_integrity_error (do recalculate_invoice_totals database invoice_id; commit_all database)
          (conflict_or_raise (get_or patch.job_id none) (some invoice_id))
