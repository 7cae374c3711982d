-- ===== src/StockMutation/Balance.antt =====
-- Stock in, stock out and purchases keep the ledger in balance, also where they raise.
use tgc_bus_core.Base.{ℕ, String, Option}
use tgc_bus_core.Base.Int.{ℤ}
use tgc_bus_core.Decimal.{Number}
use tgc_bus_core.Effects.{Action, Env, lift, ◌>>=◌}
use tgc_bus_core.Effects.Keeps.{
  Leads, Keeps, Keeps-pure, Keeps-lift, Keeps-gets, Keeps-or_raise, Keeps-raise_if, Leads-bind,
  Leads-after, Leads-if, keeps_rules,
}
use tgc_bus_core.StockTables.{SourceId, CashEvent, StockSession}
use tgc_bus_core.Ledger.{fifo_consume, add_batch}
use tgc_bus_core.Ledger.Consume.{IsClean}
use tgc_bus_core.Ledger.Balance.{IsBalanced, add_batch-IsBalanced, fifo_consume-IsBalanced}
use tgc_bus_core.StockMutation.{
  StockState, JournalEntry, StockOutMeta, require_qty_base, on_session, append_journal,
  add_cash_event, perform_stock_in_base, sell, take_out, perform_stock_out_base, or_text,
}

abbrev pub Balanced : StockSession → Type 0
Balanced s = IsBalanced s.rows

-- A session as a request finds it, in balance.
abbrev pub Ready : StockSession → Type 0
Ready s = IsClean s × IsBalanced s.rows

-- What is said of the session says nothing of the journal.
abbrev pub OfSession : (StockSession → Type 0) → StockState → Type 0
OfSession P t = P t.session

module _ {A : Type 0} {P Q : StockSession → Type 0} where
  pub Leads-on_session :
      (m : Action StockSession A) → Leads P Q m → Leads (OfSession P) (OfSession Q) (on_session m)
  Leads-on_session m k = record { at = λ t h. k.at t.session h }

pub Keeps-append_journal :
    (P : StockSession → Type 0) (e : JournalEntry) → Keeps (OfSession P) (append_journal e)
Keeps-append_journal P e = record { at = λ t h. h }

pub Keeps-add_batch :
    (env : Env) (item_id qty cost : ℕ) (kind : String) (source : Option SourceId)
    → Keeps Balanced (add_batch env item_id qty cost kind source)
Keeps-add_batch env item_id qty cost kind source = record {
  at = λ s b. add_batch-IsBalanced env item_id qty cost kind source s b;
}

pub Keeps-add_cash_event :
    (env : Env) (event_of : ℕ → CashEvent) → Keeps Balanced (add_cash_event env event_of)
Keeps-add_cash_event env event_of = record {
  at = λ s b. record { movements = b.movements; stored = b.stored; items_keyed = b.items_keyed };
}

Leads-fifo_consume :
    (item_id : ℕ) (kind : String) (source : Option SourceId) (qty : ℕ)
    → Leads Ready Balanced (fifo_consume item_id kind source qty)
Leads-fifo_consume item_id kind source qty = record {
  at = λ s (clean, b). fifo_consume-IsBalanced item_id kind source qty s clean b;
}

pub ruleset balance_rules =
    (keeps_rules, Leads-on_session, Keeps-append_journal, Keeps-add_batch, Keeps-add_cash_event)

pub perform_stock_in_base-Keeps :
    (env : Env) (item_id : ℕ) (qty : ℤ) (cost : Option Number) (ref kind source : Option String)
    → Keeps (OfSession Balanced) (perform_stock_in_base env item_id qty cost ref kind source)
unfolding perform_stock_in_base
perform_stock_in_base-Keeps env item_id qty cost ref kind source = search balance_rules depth 9

weaken : (s : StockSession) → Ready s → Balanced s
weaken s h = h.1

Ready-after :
    {A B : Type 0} (m : Action StockSession A) (f : A → Action StockSession B)
    → Keeps Ready m
    → ((a : A) → Leads Ready Balanced (f a))
    → Leads Ready Balanced (m >>= f)
Ready-after m f = Leads-after m f weaken

ruleset out_rules = (
  Leads-fifo_consume, Leads-if, Leads-bind, Ready-after, Keeps-gets, Keeps-or_raise, Keeps-raise_if,
  Keeps-lift, Keeps-pure, Keeps-add_cash_event,
)

module _ (env : Env) (item_id qty : ℕ) (ref : Option String) (meta : StockOutMeta) where
  sell-Leads : (reason : String) → Leads Ready Balanced (sell env item_id qty ref meta reason)
  unfolding sell
  sell-Leads reason = search (out_rules) depth 16

  take_out-Leads :
      (reason : String) → Leads Ready Balanced (take_out env item_id qty ref meta reason)
  unfolding take_out
  take_out-Leads reason = search (out_rules, sell-Leads) depth 9

pub perform_stock_out_base-Leads :
    (env : Env) (item_id : ℕ) (qty : ℤ) (ref : Option String) (meta : StockOutMeta)
    → Leads (OfSession Ready) (OfSession Balanced) (perform_stock_out_base env item_id qty ref meta)
unfolding perform_stock_out_base
perform_stock_out_base-Leads env item_id qty_base ref meta =
    Leads-after (lift (require_qty_base qty_base)) _ (λ t h. h.1)
      (Keeps-lift (require_qty_base qty_base))
      (λ qty.
        Leads-bind (on_session (take_out env item_id qty ref meta (or_text meta.reason "sold"))) _
          (Leads-on_session _
            (take_out-Leads env item_id qty ref meta (or_text meta.reason "sold")))
          (λ taken. search (keeps_rules, Keeps-append_journal Balanced)))

-- A stock in keeps the ledger in balance, whatever its arguments, and whether it returns or raises.
pub perform_stock_in_base-IsBalanced :
    (env : Env) (item_id : ℕ) (qty : ℤ) (cost : Option Number) (ref kind source : Option String)
    (t : StockState)
    → IsBalanced t.session.rows
    → IsBalanced (perform_stock_in_base env item_id qty cost ref kind source t).1.session.rows
perform_stock_in_base-IsBalanced env item_id qty cost ref kind source t balanced =
    (perform_stock_in_base-Keeps env item_id qty cost ref kind source).at t balanced

-- From a balanced ledger with no batch left to flush, a stock out leaves it balanced, whether it
-- is a sale or not, and whether it returns or raises.
pub perform_stock_out_base-IsBalanced :
    (env : Env) (item_id : ℕ) (qty : ℤ) (ref : Option String) (meta : StockOutMeta) (t : StockState)
    → IsClean t.session
    → IsBalanced t.session.rows
    → IsBalanced (perform_stock_out_base env item_id qty ref meta t).1.session.rows
perform_stock_out_base-IsBalanced env item_id qty ref meta t clean balanced =
    (perform_stock_out_base-Leads env item_id qty ref meta).at t (clean, balanced)
