-- ===== src/Invoices/Frozen.antt =====
-- Every operation of the service, as a request and in a sequence of requests, keeps a paid invoice
-- paid.
use tgc_bus_core.Base.{ℕ, refl, Option, none, some, List, [], ◌∷◌}
use tgc_bus_core.Effects.{fresh}
use tgc_bus_core.Effects.Keeps.{Keeps, keeps_rules}
use tgc_bus_core.Decimal.{Number}
use tgc_bus_core.StockTables.{CashEvent}
use tgc_bus_core.InvoiceTables.{
  InvoiceStatus, Invoice, BilledJob, BilledLine, InvoiceDb, InvoiceSession, Database,
}
use tgc_bus_core.Invoices.{recalculate_invoice_totals, generate_invoice_number, start_sequence}
use tgc_bus_core.Invoices.Lines.{
  LinePayload, LinePatch, settle, add_invoice_line, update_invoice_line, delete_invoice_line,
}
use tgc_bus_core.Invoices.Drafts.{
  InvoicePayload, InvoicePatch, create_invoice, patch_contact, patch_job, patch_tax, update_invoice,
}
use tgc_bus_core.Invoices.Billing.{
  bill_job, id_or_raise, existing_or_raise, bill_once, create_invoice_from_job,
}
use tgc_bus_core.Invoices.Workflow.{
  Payment, may_issue, refuse_paid, issue_invoice, pay, pay_once, reconciled, mark_invoice_paid,
  void_invoice,
}
use tgc_bus_core.Invoices.Paid.{
  IsPaid, StaysPaid, RefusalKeepsPaid, Keeps-set_invoice, Keeps-set_other, Keeps-guarded,
  paid_rules,
}

-- The operations that change invoices, with their arguments.
pub data InvoiceOperation : Type 0 where
  create : InvoicePayload → InvoiceOperation
  create_from_job : ℕ → InvoicePayload → InvoiceOperation
  update : ℕ → InvoicePatch → InvoiceOperation
  add_line : ℕ → LinePayload → InvoiceOperation
  update_line : ℕ → ℕ → LinePatch → InvoiceOperation
  delete_line : ℕ → ℕ → InvoiceOperation
  issue : ℕ → Option ℕ → InvoiceOperation
  mark_paid : ℕ → Payment → InvoiceOperation
  mark_void : ℕ → InvoiceOperation

-- What an operation does to a session.
unfoldable pub perform : Database → InvoiceOperation → InvoiceSession → InvoiceSession
perform database (create payload) s = (create_invoice database payload s).1
perform database (create_from_job job payload) s =
    (create_invoice_from_job database job payload s).1
perform database (update id patch) s = (update_invoice database id patch s).1
perform database (add_line id payload) s = (add_invoice_line database id payload s).1
perform database (update_line id line patch) s = (update_invoice_line database id line patch s).1
perform database (delete_line id line) s = (delete_invoice_line database id line s).1
perform database (issue id date) s = (issue_invoice database id date s).1
perform database (mark_paid id payment) s = (mark_invoice_paid database id payment s).1
perform database (mark_void id) s = (void_invoice database id s).1

-- A sequence of requests, each in a session of its own.
unfoldable pub serve : Database → List InvoiceOperation → InvoiceDb → InvoiceDb
serve database [] d = d
serve database (op ∷ ops) d = serve database ops (perform database op (fresh d)).committed

module _ (id : ℕ) (database : Database) (refusal : RefusalKeepsPaid id database) where
  Keeps-recalculate : (k : ℕ) → Keeps (StaysPaid id) (recalculate_invoice_totals database k)
  unfolding recalculate_invoice_totals
  Keeps-recalculate k = search (paid_rules, Keeps-set_invoice) depth 16

  Keeps-start_sequence : (o : Option ℕ) → Keeps (StaysPaid id) (start_sequence database o)
  unfolding start_sequence
  Keeps-start_sequence none = search paid_rules depth 9
  Keeps-start_sequence (some n) = search paid_rules

  Keeps-generate_invoice_number : Keeps (StaysPaid id) (generate_invoice_number database)
  unfolding generate_invoice_number
  Keeps-generate_invoice_number = search (paid_rules, Keeps-start_sequence) depth 12

  ruleset frozen_rules =
      (paid_rules, Keeps-recalculate, Keeps-generate_invoice_number, Keeps-set_invoice)

  Keeps-create_invoice :
      (payload : InvoicePayload) → Keeps (StaysPaid id) (create_invoice database payload)
  unfolding create_invoice
  Keeps-create_invoice payload = search frozen_rules depth 16

  Keeps-settle : (k : ℕ) → Keeps (StaysPaid id) (settle database k)
  unfolding settle
  Keeps-settle k = search frozen_rules depth 9

  Keeps-patch_contact : (k : ℕ) (o : Option ℕ) → Keeps (StaysPaid id) (patch_contact database k o)
  unfolding patch_contact
  Keeps-patch_contact k none = search keeps_rules
  Keeps-patch_contact k (some c) = search frozen_rules depth 9

  Keeps-patch_job : (k : ℕ) (o : Option (Option ℕ)) → Keeps (StaysPaid id) (patch_job database k o)
  unfolding patch_job
  Keeps-patch_job k none = search keeps_rules
  Keeps-patch_job k (some j) = search frozen_rules depth 9

  Keeps-patch_tax :
      (k : ℕ) (o : Option (Option Number)) → Keeps (StaysPaid id) (patch_tax database k o)
  unfolding patch_tax
  Keeps-patch_tax k none = search keeps_rules
  Keeps-patch_tax k (some p) = search frozen_rules depth 9

  Keeps-update_invoice :
      (k : ℕ) (patch : InvoicePatch) → Keeps (StaysPaid id) (update_invoice database k patch)
  unfolding update_invoice
  Keeps-update_invoice k patch =
      search (frozen_rules, Keeps-patch_contact, Keeps-patch_job, Keeps-patch_tax) depth 20

  Keeps-add_line :
      (k : ℕ) (payload : LinePayload) → Keeps (StaysPaid id) (add_invoice_line database k payload)
  unfolding add_invoice_line
  Keeps-add_line k payload = search (frozen_rules, Keeps-settle) depth 14

  Keeps-update_line :
      (k l : ℕ) (patch : LinePatch) → Keeps (StaysPaid id) (update_invoice_line database k l patch)
  unfolding update_invoice_line
  Keeps-update_line k l patch = search (frozen_rules, Keeps-settle) depth 14

  Keeps-delete_line : (k l : ℕ) → Keeps (StaysPaid id) (delete_invoice_line database k l)
  unfolding delete_invoice_line
  Keeps-delete_line k l = search (frozen_rules, Keeps-settle) depth 14

  Keeps-bill_job :
      (job : BilledJob) (contact : ℕ) (lines : List BilledLine) (payload : InvoicePayload)
      (number points : ℕ)
      → Keeps (StaysPaid id) (bill_job database job contact lines payload number points)
  unfolding bill_job
  Keeps-bill_job job contact lines payload number points = search frozen_rules depth 16

  Keeps-id_or_raise : (o : Option Invoice) → Keeps (StaysPaid id) (id_or_raise database o)
  unfolding id_or_raise
  Keeps-id_or_raise none = search keeps_rules
  Keeps-id_or_raise (some i) = search keeps_rules

  Keeps-existing_or_raise : (job : ℕ) → Keeps (StaysPaid id) (existing_or_raise database job)
  unfolding existing_or_raise
  Keeps-existing_or_raise job = search (keeps_rules, Keeps-id_or_raise) depth 9

  Keeps-bill_once :
      (job : BilledJob) (contact : ℕ) (payload : InvoicePayload) (o : Option Invoice)
      → Keeps (StaysPaid id) (bill_once database job contact payload o)
  unfolding bill_once
  Keeps-bill_once job contact payload none =
      search (frozen_rules, Keeps-bill_job, Keeps-existing_or_raise) depth 16
  Keeps-bill_once job contact payload (some i) = search keeps_rules

  Keeps-create_from_job :
      (job : ℕ) (payload : InvoicePayload)
      → Keeps (StaysPaid id) (create_invoice_from_job database job payload)
  unfolding create_invoice_from_job
  Keeps-create_from_job job payload = search (frozen_rules, Keeps-bill_once) depth 12

  Keeps-issue : (k : ℕ) (date : Option ℕ) → Keeps (StaysPaid id) (issue_invoice database k date)
  unfolding issue_invoice may_issue
  Keeps-issue k date =
      Keeps-guarded id k may_issue _ _ refl
        (λ other i. search (paid_rules, Keeps-recalculate, Keeps-set_other) depth 16)

  Keeps-pay : (k : ℕ) (payment : Payment) → Keeps (StaysPaid id) (pay database k payment)
  unfolding pay
  Keeps-pay k payment = search frozen_rules depth 16

  Keeps-pay_once :
      (k : ℕ) (payment : Payment) (status : InvoiceStatus) (o : Option CashEvent)
      → Keeps (StaysPaid id) (pay_once database k payment status o)
  unfolding pay_once reconciled
  Keeps-pay_once k payment status none = search (frozen_rules, Keeps-pay) depth 9
  Keeps-pay_once k payment status (some e) = search frozen_rules depth 9

  Keeps-mark_paid :
      (k : ℕ) (payment : Payment) → Keeps (StaysPaid id) (mark_invoice_paid database k payment)
  unfolding mark_invoice_paid
  Keeps-mark_paid k payment = search (frozen_rules, Keeps-pay_once) depth 12

  Keeps-void : (k : ℕ) → Keeps (StaysPaid id) (void_invoice database k)
  unfolding void_invoice refuse_paid
  Keeps-void k =
      Keeps-guarded id k refuse_paid _ _ refl
        (λ other i. search (paid_rules, Keeps-set_other) depth 9)

  perform-StaysPaid :
      (op : InvoiceOperation) (s : InvoiceSession)
      → StaysPaid id s
      → StaysPaid id (perform database op s)
  unfolding perform
  perform-StaysPaid (create payload) s h = (Keeps-create_invoice payload).at s h
  perform-StaysPaid (create_from_job job payload) s h = (Keeps-create_from_job job payload).at s h
  perform-StaysPaid (update k patch) s h = (Keeps-update_invoice k patch).at s h
  perform-StaysPaid (add_line k payload) s h = (Keeps-add_line k payload).at s h
  perform-StaysPaid (update_line k l patch) s h = (Keeps-update_line k l patch).at s h
  perform-StaysPaid (delete_line k l) s h = (Keeps-delete_line k l).at s h
  perform-StaysPaid (issue k date) s h = (Keeps-issue k date).at s h
  perform-StaysPaid (mark_paid k payment) s h = (Keeps-mark_paid k payment).at s h
  perform-StaysPaid (mark_void k) s h = (Keeps-void k).at s h

  -- An invoice that is paid in the database is there and paid after any sequence of requests to
  -- the service, whether they succeed or fail, also where the database refuses flushes, as long as
  -- the database that a refused flush finds has the invoice paid.
  pub serve-IsPaid :
      (ops : List InvoiceOperation) (d : InvoiceDb) → IsPaid id d → IsPaid id (serve database ops d)
  unfolding serve
  serve-IsPaid [] d h = h
  serve-IsPaid (op ∷ ops) d h = serve-IsPaid ops _ (perform-StaysPaid op (fresh d) (h, h)).1
