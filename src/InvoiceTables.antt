-- ===== src/InvoiceTables.antt =====
-- core/appdb/models_invoices.py: the rows of invoices and their lines, and the jobs they bill.
use tgc_bus_core.Base.{ℕ, String, Bool, Option, none, some, List}
use tgc_bus_core.Base.Int.{ℤ}
use tgc_bus_core.Decimal.{Number}
use tgc_bus_core.Effects.{integrity_error, ok, err, Action, Env, Session, ◌>>◌}
use tgc_bus_core.StockTables.{Item, Recipe, CashEvent}

pub data InvoiceStatus : Type 0 where
  draft : InvoiceStatus
  issued : InvoiceStatus
  paid : InvoiceStatus
  void : InvoiceStatus

-- `invoice_number` is "INV-" and this number.
pub record Invoice : Type 0 where
  pub id : ℕ
  pub invoice_number : ℕ
  pub contact_id : ℕ
  pub job_id : Option ℕ
  pub status : InvoiceStatus
  pub issue_date : Option ℕ
  pub due_date : Option ℕ
  pub paid_at : Option ℕ
  pub voided_at : Option ℕ
  pub tax_rate_basis_points : ℕ
  pub subtotal_cents : ℕ
  pub tax_cents : ℕ
  pub total_cents : ℕ
  pub paid_cash_event_id : Option ℕ
  pub notes : Option String

-- `quantity_decimal` is what `Decimal` reads in the column's text.
pub record InvoiceLine : Type 0 where
  pub id : ℕ
  pub invoice_id : ℕ
  pub job_line_id : Option ℕ
  pub item_id : Option ℕ
  pub line_type : String
  pub description : String
  pub quantity_decimal : Option Number
  pub uom : Option String
  pub unit_price_cents : Option ℤ
  pub taxable : Bool
  pub line_subtotal_cents : ℕ
  pub sort_order : ℤ

-- A job as an invoice uses it, and its lines (core/appdb/models_jobs.py).
pub record BilledJob : Type 0 where
  pub id : ℕ
  pub contact_id : Option ℕ
  pub due_date : Option ℕ

pub record BilledLine : Type 0 where
  pub id : ℕ
  pub job_id : ℕ
  pub item_id : Option ℕ
  pub recipe_id : Option ℕ
  pub line_type : String
  pub description : String
  pub qty_base : Option ℕ
  pub display_uom : Option String
  pub unit_price_cents : Option ℤ
  pub is_cancelled : Bool
  pub sort_order : ℤ

-- `sequence` is `next_number` of the document sequence "invoice".
pub record InvoiceDb : Type 0 where
  pub contacts : List ℕ
  pub items : List Item
  pub recipes : List Recipe
  pub jobs : List BilledJob
  pub job_lines : List BilledLine
  pub invoices : List Invoice
  pub lines : List InvoiceLine
  pub sequence : Option ℕ
  pub cash_events : List CashEvent

abbrev pub InvoiceSession : Type 0
InvoiceSession = Session InvoiceDb

-- The world of a request, and the database's answer to a flush: `none` where it takes the rows, and
-- what it holds, by another session, where it refuses them with an IntegrityError.
pub record Database : Type 0 where
  pub env : Env
  pub refuse : InvoiceDb → Option InvoiceDb

abbrev pub answer : Option InvoiceDb → Action InvoiceSession (Unit {0})
answer none s = (ok tt, record s { flushed = s.rows })
answer (some d) s = (err integrity_error, record s { committed = d })

module _ (database : Database) where
  -- `db.flush()`
  abbrev pub save : Action InvoiceSession (Unit {0})
  save s = answer (database.refuse s.rows) s

  -- `db.commit()`, which flushes first.
  abbrev pub commit_all : Action InvoiceSession (Unit {0})
  commit_all = do save; (λ s. (ok tt, record s { committed = s.rows }))
