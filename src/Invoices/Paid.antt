-- ===== src/Invoices/Paid.antt =====
-- A paid invoice stays paid, whatever is asked of the service.
use tgc_bus_core.Base.{
  ℕ, ◌≡◌, ◌≢◌, refl, ap, ◌∙◌, arith, Option, none, some, List, [], ◌∷◌, ◌==◌, ==→eq, Bool-cases,
  inl, inr,
}
use tgc_bus_core.Tables.{find_row}
use tgc_bus_core.Tables.Rows.{find_row-append, find_row-update_ne, find_row-update_self}
use tgc_bus_core.Effects.{Error, Result, ok, err, Action, Env, lift, write, rollback, ◌>>=◌, ◌>>◌}
use tgc_bus_core.Effects.Keeps.{
  Leads, Keeps, Leads-bind, Leads-after, Keeps-gets, Keeps-lift, Keeps-or_raise, keeps_rules,
}
use tgc_bus_core.StockTables.{CashEvent}
use tgc_bus_core.InvoiceTables.{
  InvoiceStatus, Invoice, InvoiceLine, BilledLine, InvoiceDb, InvoiceSession, Database, answer,
  save, commit_all,
}
use tgc_bus_core.Invoices.{
  get_contact, get_job, get_invoice, get_invoice_line, refuse_active, set_lines, set_sequence,
  price_line, sum_lines, set_invoice,
}
use tgc_bus_core.Invoices.Lines.{LinePayload, validate_line_payload, insert_line}
use tgc_bus_core.Invoices.Drafts.{
  is_integrity_error, on_integrity_error, check_job, conflict_or_raise, insert_invoice,
}
use tgc_bus_core.Invoices.Billing.{bill_line, bill_lines}
use tgc_bus_core.Invoices.Workflow.{insert_payment}

-- The invoice is there, and paid.
abbrev pub IsPaid : ℕ → InvoiceDb → Type 0
IsPaid id db =
    (i : Invoice) × (find_row (λ (r : Invoice). r.id) id db.invoices ≡ some i)
    × (i.status ≡ InvoiceStatus.paid)

-- In the session's objects, and in what is committed.
abbrev pub StaysPaid : ℕ → InvoiceSession → Type 0
StaysPaid id s = IsPaid id s.rows × IsPaid id s.committed

module _ (id : ℕ) where
  pub Keeps-write :
      (f : InvoiceDb → InvoiceDb)
      → ((d : InvoiceDb) → (f d).invoices ≡ d.invoices)
      → Keeps (StaysPaid id) (write f)
  Keeps-write f same = record {
    at = λ s ((i, found, paid), h).
        ((i, ap (find_row (λ (r : Invoice). r.id) id) (same s.rows) ∙ found, paid), h);
  }

  -- An assignment that keeps keys, and the status of a paid invoice.
  pub Keeps-set_invoice :
      (k : ℕ) (f : Invoice → Invoice)
      → ((i : Invoice) → (f i).id ≡ i.id)
      → (k ≡ id → (i : Invoice) → i.status ≡ InvoiceStatus.paid → (f i).status ≡ InvoiceStatus.paid)
      → Keeps (StaysPaid id) (set_invoice k f)
  unfolding set_invoice
  Keeps-set_invoice k f ids stays = record {
    at = λ s ((i, found, paid), h). elim (Bool-cases (k == id)) [
      | inl same ↦
          let at : k ≡ id = ==→eq k id same in
          (
            (
              f i,
              rw at (find_row-update_self (λ (r : Invoice). r.id) id f s.rows.invoices ids found),
              stays at i paid,
            ),
            h,
          )
      | inr other ↦ (
        (
          i,
          find_row-update_ne (λ (r : Invoice). r.id) id k f s.rows.invoices ids (λ e. ground arith)
              ∙ found,
          paid,
        ),
        h,
      )
    ];
  }

  pub Keeps-set_other :
      (k : ℕ) (f : Invoice → Invoice)
      → ((i : Invoice) → (f i).id ≡ i.id)
      → k ≢ id
      → Keeps (StaysPaid id) (set_invoice k f)
  Keeps-set_other k f ids other = Keeps-set_invoice k f ids (λ e. absurd (other e))

  pub Keeps-insert_invoice :
      (env : Env) (invoice_at : ℕ → Invoice) → Keeps (StaysPaid id) (insert_invoice env invoice_at)
  unfolding insert_invoice
  Keeps-insert_invoice env invoice_at = record {
    at = λ s ((i, found, paid), h).
        ((i, find_row-append (λ (r : Invoice). r.id) id s.rows.invoices _ found, paid), h);
  }

  pub Keeps-rollback : Keeps (StaysPaid id) rollback
  Keeps-rollback = record { at = λ s (h, c). (c, c) }

  pub Keeps-on_integrity_error :
      {A : Type 0} (body handler : Action InvoiceSession A)
      → Keeps (StaysPaid id) body
      → Keeps (StaysPaid id) handler
      → Keeps (StaysPaid id) (on_integrity_error body handler)
  unfolding on_integrity_error
  Keeps-on_integrity_error body handler kb kh = record {
    at = λ s h. let (r, t) = body s in caught r t (kb.at s h);
  }
    where
      caught :
          (r : Result _) (t : InvoiceSession)
          → StaysPaid id t
          → StaysPaid id (on_integrity_error (λ u. (r, t)) handler t).1
      caught (ok a) t h = h
      caught (err e) t h = elim (Bool-cases (is_integrity_error e)) [
        | inl refused ↦ rw refused (kh.at _ (h.1, h.1))
        | inr other ↦ rw other h
      ]

  -- An operation that refuses a paid invoice first.
  pub Keeps-guarded :
      {A : Type 0} (k : ℕ) (guard : InvoiceStatus → Result (Unit {0}))
      (rest : Invoice → Action InvoiceSession A) (e : Error)
      → guard InvoiceStatus.paid ≡ err e
      → (k ≢ id → (i : Invoice) → Keeps (StaysPaid id) (rest i))
      → Keeps (StaysPaid id) (get_invoice k >>= λ i. (lift (guard i.status) >> rest i))
  unfolding get_invoice
  Keeps-guarded k guard rest e refuses keeps = elim (Bool-cases (k == id)) [
    | inl same ↦ record {
      at = λ s ((i, found, paid), h).
          let at : k ≡ id = ==→eq k id same in rw (at, found, paid, refuses) ((i, found, paid), h);
    }
    | inr other ↦ (let e : k ≢ id = (λ e. ground arith) in search (keeps_rules, keeps e) depth 9)
  ]

  pub Keeps-refuse_active : (o : Option Invoice) → Keeps (StaysPaid id) (refuse_active o)
  unfolding refuse_active
  Keeps-refuse_active none = search keeps_rules
  Keeps-refuse_active (some i) = search keeps_rules

  pub Keeps-get_invoice : (k : ℕ) → Keeps (StaysPaid id) (get_invoice k)
  unfolding get_invoice
  Keeps-get_invoice k = search keeps_rules

  pub Keeps-get_contact : (k : ℕ) → Keeps (StaysPaid id) (get_contact k)
  unfolding get_contact
  Keeps-get_contact k = search keeps_rules

  pub Keeps-get_job : (k : ℕ) → Keeps (StaysPaid id) (get_job k)
  unfolding get_job
  Keeps-get_job k = search keeps_rules

  pub Keeps-get_invoice_line : (k l : ℕ) → Keeps (StaysPaid id) (get_invoice_line k l)
  unfolding get_invoice_line
  Keeps-get_invoice_line k l = search keeps_rules depth 9

  pub Keeps-check_job : (o e : Option ℕ) → Keeps (StaysPaid id) (check_job o e)
  unfolding check_job
  Keeps-check_job none e = search keeps_rules
  Keeps-check_job (some j) e = search (keeps_rules, Keeps-get_job, Keeps-refuse_active) depth 9

  pub Keeps-conflict_or_raise :
      {A : Type 0} (o e : Option ℕ) → Keeps (StaysPaid id) (conflict_or_raise {A = A} o e)
  unfolding conflict_or_raise
  Keeps-conflict_or_raise none e = search keeps_rules
  Keeps-conflict_or_raise (some j) e = search (keeps_rules, Keeps-refuse_active) depth 9

  pub Keeps-set_lines :
      (f : List InvoiceLine → List InvoiceLine) → Keeps (StaysPaid id) (set_lines f)
  unfolding set_lines
  Keeps-set_lines f = Keeps-write _ (λ d. refl)

  pub Keeps-set_sequence : (n : ℕ) → Keeps (StaysPaid id) (set_sequence n)
  unfolding set_sequence
  Keeps-set_sequence n = Keeps-write _ (λ d. refl)

  pub Keeps-price_line : (line : InvoiceLine) → Keeps (StaysPaid id) (price_line line)
  unfolding price_line
  Keeps-price_line line = search (keeps_rules, Keeps-set_lines) depth 9

  pub Keeps-sum_lines : (lines : List InvoiceLine) → Keeps (StaysPaid id) (sum_lines lines)
  unfolding sum_lines
  Keeps-sum_lines [] = search keeps_rules
  Keeps-sum_lines (line ∷ lines) =
      Leads-bind _ _ (Keeps-price_line line)
        (λ cents. Leads-bind _ _ (Keeps-sum_lines lines) (λ sums. search keeps_rules))

  pub Keeps-insert_line :
      (env : Env) (line_at : ℕ → InvoiceLine) → Keeps (StaysPaid id) (insert_line env line_at)
  unfolding insert_line
  Keeps-insert_line env line_at = search (keeps_rules, Keeps-set_lines) depth 9

  pub Keeps-insert_payment :
      (env : Env) (event_at : ℕ → CashEvent) → Keeps (StaysPaid id) (insert_payment env event_at)
  unfolding insert_payment
  Keeps-insert_payment env event_at = record { at = λ s h. h }

  pub Keeps-validate_line_payload :
      (payload : LinePayload) → Keeps (StaysPaid id) (validate_line_payload payload)
  unfolding validate_line_payload
  Keeps-validate_line_payload payload = search keeps_rules depth 12

  pub Keeps-bill_line :
      (env : Env) (k : ℕ) (line : BilledLine) → Keeps (StaysPaid id) (bill_line env k line)
  unfolding bill_line
  Keeps-bill_line env k line = search (keeps_rules, Keeps-insert_line) depth 9

  pub Keeps-bill_lines :
      (env : Env) (k : ℕ) (lines : List BilledLine) → Keeps (StaysPaid id) (bill_lines env k lines)
  unfolding bill_lines
  Keeps-bill_lines env k [] = search keeps_rules
  Keeps-bill_lines env k (line ∷ lines) =
      Leads-bind _ _ (Keeps-bill_line env k line) (λ l. Keeps-bill_lines env k lines)

-- What a refused flush finds in the database has the invoice paid, where it was paid before.
abbrev pub RefusalKeepsPaid : ℕ → Database → Type 0
RefusalKeepsPaid id database =
    (d d' : InvoiceDb) → IsPaid id d → database.refuse d ≡ some d' → IsPaid id d'

module _ (id : ℕ) (database : Database) (refusal : RefusalKeepsPaid id database) where
  pub Keeps-save : Keeps (StaysPaid id) (save database)
  Keeps-save = record { at = λ s h. answered s (database.refuse s.rows) refl h }
    where
      answered :
          (s : InvoiceSession) (o : Option InvoiceDb)
          → database.refuse s.rows ≡ o
          → StaysPaid id s
          → StaysPaid id (answer o s).1
      answered s none e h = h
      answered s (some d) e h = (h.0, refusal s.rows d h.0 e)

  pub Keeps-commit_all : Keeps (StaysPaid id) (commit_all database)
  Keeps-commit_all = Leads-bind _ _ Keeps-save (λ u. record { at = λ s h. (h.0, h.0) })

pub ruleset paid_rules = (
  keeps_rules, Keeps-refuse_active, Keeps-get_invoice, Keeps-get_contact, Keeps-get_job,
  Keeps-get_invoice_line, Keeps-check_job, Keeps-conflict_or_raise, Keeps-sum_lines,
  Keeps-set_lines, Keeps-set_sequence, Keeps-insert_line, Keeps-insert_payment,
  Keeps-insert_invoice, Keeps-validate_line_payload, Keeps-bill_lines, Keeps-on_integrity_error,
  Keeps-save, Keeps-commit_all,
)
