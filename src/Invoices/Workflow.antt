-- ===== src/Invoices/Workflow.antt =====
-- core/services/invoices.py: issuing, payment and voiding.
use tgc_bus_core.Base.{
  ℕ, String, Bool, true, false, ◌&&◌, Option, none, some, List, [], ◌∷◌, ◌++◌, map, ltb, ◌=ₛ◌,
  get_or, or_else, keep, str, join,
}
use tgc_bus_core.Base.Int.{pos}
use tgc_bus_core.Tables.{find_row, current, order_by}
use tgc_bus_core.Effects.{
  pure, Env, http, Result, ok, err, Action, raise_if, gets, lift, write, ◌>>=◌, ◌>>◌,
}
use tgc_bus_core.StockTables.{CashEvent}
use tgc_bus_core.InvoiceTables.{
  InvoiceStatus, Invoice, InvoiceLine, InvoiceSession, Database, save, commit_all,
}
use tgc_bus_core.Invoices.{get_invoice, lines_of, set_invoice, recalculate_invoice_totals}

-- CashEvent.source_id of an invoice's payment.
unfoldable pub payment_source : ℕ → String
payment_source invoice_id = join "invoice:" (str invoice_id)

abbrev text_is : Option String → String → Bool
text_is none t = false
text_is (some s) t = s =ₛ t

abbrev first : {A : Type 0} → List A → Option A
first [] = none
first (a ∷ _) = some a

-- `_existing_invoice_cash_event`
unfoldable pub existing_invoice_cash_event : ℕ → InvoiceSession → Option CashEvent
existing_invoice_cash_event invoice_id s = first (
    map (current (λ e. e.id) s.rows.cash_events) (
      order_by (λ (a b : CashEvent). ltb a.id b.id)
        (keep
          (λ e.
            e.kind =ₛ "sale"
            && text_is e.source_kind "invoice"
            && text_is e.source_id (payment_source invoice_id))
          s.flushed.cash_events)))

pub record Payment : Type 0 where
  pub paid_at : Option ℕ
  pub notes : Option String

unfoldable pub payment_event : ℕ → ℕ → Payment → ℕ → ℕ → CashEvent
payment_event invoice_id amount_cents payment paid_at id = record {
  id = id;
  kind = "sale";
  category = some "invoice";
  amount_cents = pos amount_cents;
  item_id = none;
  qty_base = none;
  unit_price_cents = none;
  source_kind = some "invoice";
  source_id = some (payment_source invoice_id);
  related_source_id = none;
  notes = payment.notes;
  created_at = paid_at;
}

-- db.add(cash_event)
unfoldable pub insert_payment : Env → (ℕ → CashEvent) → Action InvoiceSession ℕ
insert_payment env event_at = do
  id ← gets (λ s. env.next_id (map (λ e. e.id) s.rows.cash_events))
  write (λ db. record db { cash_events = db.cash_events ++ event_at id ∷ [] })
  pure id

-- The payment that an invoice has already: the one it names, or the one that names it.
unfoldable pub existing_payment : Invoice → InvoiceSession → Option CashEvent
unfolding find_row
existing_payment invoice s =
    or_else
      (elim (invoice.paid_cash_event_id) [
        | none ↦ none
        | some id ↦ find_row (λ e. e.id) id s.rows.cash_events
      ])
      (existing_invoice_cash_event invoice.id s)

-- The invoice takes on a payment that is there, where it lacks it.
unfoldable pub reconciled : CashEvent → Invoice → Invoice
reconciled event i = record i {
  paid_cash_event_id = some (get_or i.paid_cash_event_id event.id);
  status = InvoiceStatus.paid;
  paid_at = some (get_or i.paid_at event.created_at);
}

-- `issue_invoice` refuses a paid or a void invoice.
unfoldable pub may_issue : InvoiceStatus → Result (Unit {0})
may_issue InvoiceStatus.paid = err (http 400 "invoice_issue_forbidden_after_paid")
may_issue InvoiceStatus.void = err (http 400 "invoice_issue_forbidden_after_void")
may_issue _ = ok tt

abbrev is_empty : List InvoiceLine → Bool
is_empty [] = true
is_empty _ = false

-- `mark_invoice_paid` refuses a void invoice, and a draft that has no payment.
unfoldable pub refuse_void : InvoiceStatus → Result (Unit {0})
refuse_void InvoiceStatus.void = err (http 400 "invoice_void_cannot_be_paid")
refuse_void _ = ok tt

unfoldable pub refuse_draft : InvoiceStatus → Result (Unit {0})
refuse_draft InvoiceStatus.draft = err (http 400 "invoice_payment_requires_issue")
refuse_draft _ = ok tt

-- `void_invoice` refuses a paid invoice.
unfoldable pub refuse_paid : InvoiceStatus → Result (Unit {0})
refuse_paid InvoiceStatus.paid = err (http 400 "invoice_paid_cannot_be_void")
refuse_paid _ = ok tt

module _ (database : Database) (invoice_id : ℕ) where
  unfoldable pub issue_invoice : Option ℕ → Action InvoiceSession (Unit {0})
  issue_invoice issue_date = do
    invoice ← get_invoice invoice_id
    lift (may_issue invoice.status)
    lines ← gets (lines_of invoice_id)
    raise_if (is_empty lines) (http 400 "invoice_issue_requires_line")
    recalculate_invoice_totals database invoice_id
    set_invoice invoice_id (λ i. record i {
      status = InvoiceStatus.issued;
      issue_date = some (get_or (or_else issue_date i.issue_date) database.env.now);
    })
    commit_all database

  -- The payment of an issued invoice: its cash event, and what names it.
  unfoldable pub pay : Payment → Action InvoiceSession (Unit {0})
  pay payment = do
    totals ← recalculate_invoice_totals database invoice_id
    let paid_at = get_or payment.paid_at database.env.now
    id ← insert_payment database.env (payment_event invoice_id totals.total_cents payment paid_at)
    save database
    set_invoice invoice_id (λ i. record i {
      status = InvoiceStatus.paid;
      paid_at = some paid_at;
      paid_cash_event_id = some id;
    })
    commit_all database

  -- What follows for a payment that is there already, and for one that is not.
  unfoldable pub pay_once :
      Payment → InvoiceStatus → Option CashEvent → Action InvoiceSession (Unit {0})
  pay_once payment status (some event) = do
    set_invoice invoice_id (reconciled event)
    commit_all database
  pay_once payment status none = do lift (refuse_draft status); pay payment

  unfoldable pub mark_invoice_paid : Payment → Action InvoiceSession (Unit {0})
  mark_invoice_paid payment = do
    invoice ← get_invoice invoice_id
    lift (refuse_void invoice.status)
    existing ← gets (existing_payment invoice)
    pay_once payment invoice.status existing

  unfoldable pub void_invoice : Action InvoiceSession (Unit {0})
  void_invoice = do
    invoice ← get_invoice invoice_id
    lift (refuse_paid invoice.status)
    set_invoice invoice_id
        (λ i. record i { status = InvoiceStatus.void; voided_at = some database.env.now })
    commit_all database
