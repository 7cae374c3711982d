-- ===== src/Lib.antt =====
-- BUS Core is a shop manager for small workshops: items held in batches, purchases, sales and
-- manufacturing runs, kept in one SQLite database behind a local web service.
--
-- The program's parts, and the modules that model them:
--
--   core/appdb/engine.py          Effects: a session as three views of the database (its objects,
--                                 what is flushed, what is committed), since autoflush is off
--   core/appdb/models.py,
--   core/appdb/models_recipes.py  StockTables: the rows, with the columns that are used
--   core/appdb/ledger.py          Ledger: on_hand_qty, fifo_consume, add_batch
--   core/metrics/metric.py        Metric: units and the conversion to base integers
--   core/services/stock_mutation.py
--                                 StockMutation (perform_stock_in_base, perform_stock_out_base) and
--                                 Purchases (perform_purchase_base)
--   core/manufacturing/service.py Manufacturing (fifo.allocate, validate_run) and
--                                 Manufacturing.Execute (execute_run_txn, transactional)
--   core/appdb/models_invoices.py,
--   core/appdb/models_jobs.py     InvoiceTables: invoices, their lines and the jobs they bill
--   core/services/invoices.py     Invoices (checks and totals), Invoices.Lines, Invoices.Drafts
--                                 (create_invoice, update_invoice), Invoices.Billing
--                                 (create_invoice_from_job) and Invoices.Workflow (issue_invoice,
--                                 mark_invoice_paid, void_invoice)
--   core/api/routes/invoices.py   Invoices.Frozen: the requests that change invoices, in sequence
--   core/api/utils/quantity_guard.py
--                                 QuantityGuard: the search for old quantity keys
--   core/api/routes/ledger_api.py StockRoutes: the routes that change stock, and
--                                 StockRoutes.Requests: requests in sequence
--   core/api/routes/finance_api.py
--                                 Finance (expenses and refunds), Finance.Requests (with those of
--                                 stock), Finance.Totals, Finance.Reports
--                                 (profit and summary) and Finance.Transactions
--   core/api/routes/manufacturing.py
--                                 ManufactureRoutes: the request of a run, and the runs that fail;
--                                 Requests: stock, finance and manufacturing in sequence
--   core/appdb/models_jobs.py,
--   core/services/jobs.py         JobTables, Jobs (states and checks), Jobs.Changes, Jobs.Lines and
--                                 Jobs.Requests: requests in sequence; Jobs.Board is what they
--                                 promise of the states of jobs
--   core/retention.py             Retention (which runs and reports are pruned)
--   core/reader/ids.py            Reader (ids of files under the allowed roots), Reader.Texts and
--                                 Reader.Sha1
--   core/appdb/models_auth.py,
--   core/auth                     Auth: the rows, Auth.Permissions, Auth.Sessions, Auth.Management and
--                                 Auth.Dependencies (require_user, require_permission)
--   core/auth/passwords.py        Passwords: the policy, the hashes and the check of a password
--   core/api/routes/auth.py,
--   core/auth/audit.py            AuthRoutes (digests and keys), AuthRoutes.Recovery (recovery of an
--                                 account, with its limit), AuthRoutes.Once (recoveries in sequence) and
--                                 AuthRoutes.Login (login, logout, new recovery codes)
--
-- Each part has its theorems in modules below its own, and Examples holds concrete runs.
--
-- The services call the ledger and the unit conversion, and share one session. Each function of the
-- program is a definition of the same name, without a leading underscore. A function that reads or
-- writes the database is an action on the session (Effects): it returns a value or an error beside
-- the state, so that what was written before an error is seen. HTTP errors carry their status and
-- detail; a detail that the code builds from a number keeps its fixed part, and
-- an error object keeps its "error". A dict of arguments is
-- a record. Requests in sequence are a data type of requests, a handler and a loop that hands each
-- request a session of its own on what is committed. What all operations of a service keep is shown
-- once for any property of the session that the single steps keep (Jobs.Stable, StockMutation.Stable).
--
-- Base, Decimal and Tables hold what the parts share: lists, texts and integers, the decimal
-- arithmetic of Python in its default context of 28 digits with the two roundings that are used, and
-- tables as lists of rows with keys. Numbers in base units and cents are Python integers, which have
-- no bound, so the models use numbers without one; the bounds in the theorems are those of the 28
-- digits. Loops over rows are recursion on the list. Fuel is used only over the digits of a number,
-- and the number itself is enough of it. A session is clean (Ledger.Consume.IsClean) where its batches
-- are flushed and no two share a key; the ledger is in balance (Ledger.Balance.IsBalanced) where each
-- item's movements sum up to what its batches hold and its stored quantity is the same.
--
-- What comes from outside is a parameter: the clock, the tokens of `uuid.uuid4` and the keys that
-- the database gives to rows (Effects.Env), the texts that `Decimal` reads (Decimal.Number), the
-- SHA-256 digest of a token, and the answer of the database to a flush of invoices
-- (InvoiceTables.Database), which may be an IntegrityError raised by what another session wrote, the
-- functions of os.path (Reader.Paths), base64, UTF-8 and SHA-256 (Reader.Codecs), scrypt with its
-- encodings (Passwords.Scrypt), and the digests and case mappings of the auth routes
-- (AuthRoutes.Crypto), whose password hashes may be any functions. The hook that a caller hands to
-- `transactional` is any function from the result.
--
-- Not modelled: the web layer and user interface, file and network services (updates, backup,
-- telemetry, plug-ins), database set-up and migrations, the routes of recipes, those of users but the
-- one that disables a user, the set-up of the owner, the deprecated manufacturing route, the export of
-- the finance tables, and the texts of JSON documents, which are
-- represented by the fields they hold.
pub mod Base
pub mod Decimal
pub mod Tables
pub mod Effects
pub mod Metric
pub mod StockTables
pub mod Ledger
pub mod StockMutation
pub mod Purchases
pub mod Manufacturing
pub mod ManufactureRoutes
pub mod InvoiceTables
pub mod Invoices
pub mod Auth
pub mod Passwords
pub mod AuthRoutes
pub mod JobTables
pub mod Jobs
pub mod QuantityGuard
pub mod StockRoutes
pub mod Reader
pub mod Retention
pub mod Finance
pub mod Requests
pub mod Examples
