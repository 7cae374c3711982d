-- ===== src/StockMutation.antt =====
-- core/services/stock_mutation.py: stock in, stock out with its sale, and purchases.
-- The arguments that Python reads out of dicts and JSON are records here; numbers that arrive as
-- text or floats are what `Decimal(str(value))` reads in them.
pub mod Balance
pub mod Stable
use tgc_bus_core.Base.{
  ℕ, ◌+◌, ◌*◌, ◌/◌, ◌%◌, ◌^◌, String, Bool, true, false, not, ◌&&◌, ◌||◌, Option, none, some, List,
  [], ◌∷◌, ◌++◌, map, ltb, ◌==◌, ◌=ₛ◌, mem_text, if◌then◌else◌, get_or, or_else, strip, lower,
}
use tgc_bus_core.Base.Int.{ℤ, pos, negsuc, neg}
use tgc_bus_core.Tables.{find_row}
use tgc_bus_core.Decimal.{Decimal, Number, of_nat, mul, div, quantize}
use tgc_bus_core.Effects.{
  Error, value_error, lookup_error, decimal_error, Result, ok, err, Action, Env, Session, pure,
  raise, raise_if, gets, lift, or_raise, write, flush, of_option, ◌then_do◌, ◌>>=◌, ◌>>◌,
}
use tgc_bus_core.Metric.{uom_multiplier, default_unit_for}
use tgc_bus_core.StockTables.{
  Item, ItemBatch, ItemMovement, CashEvent, SourceId, text, StockDb, StockSession,
}
use tgc_bus_core.Ledger.{fifo_consume, add_batch}

-- `_require_qty_base`
unfoldable pub require_qty_base : ℤ → Result ℕ
require_qty_base (pos n) =
    if n == 0 then err (value_error "qty_base_must_be_positive_int") else ok n
require_qty_base (negsuc _) = err (value_error "qty_base_must_be_positive_int")

-- `_require_nonnegative_cents`: a whole number that is not negative (-0 is one).
unfoldable pub require_nonnegative_cents : Number → String → Result ℕ
require_nonnegative_cents (Number.finite negative coeff scale) invalid =
    if (negative && not (coeff == 0)) || not (coeff % 10 ^ scale == 0)
    then err (value_error invalid)
    else ok (coeff / 10 ^ scale)
require_nonnegative_cents Number.malformed invalid = err (value_error invalid)
require_nonnegative_cents Number.nan invalid = err (value_error invalid)
require_nonnegative_cents (Number.infinity _) invalid = err (value_error invalid)

-- `_basis_uom_for_item`
unfoldable pub basis_uom_for_item : Item → Result String
basis_uom_for_item item =
    (if item.uom =ₛ "" then default_unit_for item.dimension else ok item.uom) then_do λ basis_uom.
    if uom_multiplier item.dimension basis_uom == 0
    then default_unit_for item.dimension
    else ok basis_uom

-- `_purchase_total_amount_cents`
unfoldable pub purchase_total_amount_cents : ℕ → ℕ → Item → Result ℕ
purchase_total_amount_cents unit_cost_cents qty_base item =
    basis_uom_for_item item then_do λ basis_uom.
    let multiplier = uom_multiplier item.dimension basis_uom in
    if multiplier == 0
    then err (value_error "invalid_uom_multiplier")
    else (of_option (div (of_nat qty_base) (of_nat multiplier)) decimal_error then_do λ human_qty.
        of_option (quantize (mul (of_nat unit_cost_cents) human_qty)) decimal_error)

-- The inventory journal is a file beside the database: what is appended stays.
pub record JournalEntry : Type 0 where
  pub kind : String
  pub item_id : ℕ
  pub qty_change : ℤ
  pub unit_cost_cents : ℕ
  pub source_kind : String
  pub source_id : Option SourceId
  pub batch_id : Option ℕ
  pub vendor_id : Option String

pub record StockState : Type 0 where
  pub session : StockSession
  pub journal : List JournalEntry

-- A call on the session.
abbrev pub on_session : {A : Type 0} → Action StockSession A → Action StockState A
on_session m t = let (r, s) = m t.session in (r, record t { session = s })

-- `_append_inventory_journal`, which swallows what goes wrong.
abbrev pub append_journal : JournalEntry → Action StockState (Unit {0})
append_journal entry t = (ok tt, record t { journal = t.journal ++ entry ∷ [] })

-- Python's `text or default`, which takes the default for an empty text too.
abbrev pub or_text : Option String → String → String
or_text none d = d
or_text (some s) d = if s =ₛ "" then d else s

abbrev pub as_source : Option String → Option SourceId
as_source none = none
as_source (some s) = some (text s)

abbrev zero_cents : Number
zero_cents = Number.finite false 0 0

-- The `meta` of a stock in is its `source_kind` and its `source_id`.
unfoldable pub perform_stock_in_base :
    Env
    → ℕ
    → ℤ
    → Option Number
    → Option String
    → Option String
    → Option String
    → Action StockState (Option ℕ)
unfolding require_qty_base
perform_stock_in_base env item_id qty_base unit_cost_cents ref meta_source_kind meta_source_id = do
  qty ← lift (require_qty_base qty_base)
  unit_cost ←
      lift (require_nonnegative_cents (get_or unit_cost_cents zero_cents) "unit_cost_cents_invalid")
  let source_kind = or_text meta_source_kind "stock_in"
  let source_id = as_source (or_else ref meta_source_id)
  batch_id ← on_session (add_batch env item_id qty unit_cost source_kind source_id)
  append_journal (record {
    kind = source_kind;
    item_id = item_id;
    qty_change = pos qty;
    unit_cost_cents = unit_cost;
    source_kind = source_kind;
    source_id = source_id;
    batch_id = batch_id;
    vendor_id = none;
  })
  pure batch_id

-- The `meta` of a stock out.
pub record StockOutMeta : Type 0 where
  pub reason : Option String
  pub note : Option String
  pub record_cash_event : Bool
  pub sell_unit_price_cents : Option Number

-- The price in `Item.price`, in cents.
unfoldable pub stored_price_cents : Option Number → Result ℕ
unfolding require_nonnegative_cents
stored_price_cents none = ok 0
stored_price_cents (some (Number.finite negative coeff scale)) =
    if negative && not (coeff == 0)
    then err (value_error "stored_item_price_invalid")
    else (of_option (quantize (mul (record { coeff = coeff; scale = scale }) (of_nat 100)))
          decimal_error
        then_do λ cents.
            require_nonnegative_cents (Number.finite false cents 0) "stored_item_price_invalid")
stored_price_cents (some _) = err (value_error "stored_item_price_invalid")

unfoldable pub sale_unit_price_cents : StockOutMeta → Item → Result ℕ
sale_unit_price_cents meta item = elim (meta.sell_unit_price_cents) [
  | some given ↦ require_nonnegative_cents given "sell_unit_price_cents_invalid"
  | none ↦ stored_price_cents item.price
]

-- int((Decimal(unit_price_cents) * (Decimal(qty) / Decimal(1000))).quantize(…))
unfoldable pub sale_amount_cents : ℕ → ℕ → Result ℕ
sale_amount_cents unit_price_cents qty =
    of_option (div (of_nat qty) (of_nat 1000)) decimal_error then_do λ qty_each.
    of_option (quantize (mul (of_nat unit_price_cents) qty_each)) decimal_error

-- session.add(CashEvent(…)), with the id that its flush gives.
abbrev pub add_cash_event : Env → (ℕ → CashEvent) → Action StockSession ℕ
add_cash_event env event_of = do
  id ← gets (λ s. env.next_id (map (λ e. e.id) s.rows.cash_events))
  write (λ db. record db { cash_events = db.cash_events ++ event_of id ∷ [] })
  pure id

-- A line of a stock out's result.
pub record StockLine : Type 0 where
  pub batch_id : ℕ
  pub qty_change : ℤ
  pub unit_cost_cents : ℕ
  pub source_kind : String
  pub source_id : Option SourceId

unfoldable pub line_of : ItemMovement → StockLine
line_of m = record {
  batch_id = m.batch_id;
  qty_change = m.qty_change;
  unit_cost_cents = m.unit_cost_cents;
  source_kind = m.source_kind;
  source_id = m.source_id;
}

module _ (env : Env) (item_id qty : ℕ) (ref : Option String) (meta : StockOutMeta) where
  sale_event : String → ℕ → ℕ → ℕ → CashEvent
  sale_event source_id unit_price_cents amount_cents id = record {
    id = id;
    kind = "sale";
    category = none;
    amount_cents = pos amount_cents;
    item_id = some item_id;
    qty_base = some qty;
    unit_price_cents = some unit_price_cents;
    source_kind = some "sold";
    source_id = some source_id;
    related_source_id = none;
    notes = meta.note;
    created_at = env.now;
  }

  -- The branch of a sale: its moves and its source id.
  unfoldable pub sell : String → Action StockSession (List ItemMovement × String)
  unfolding find_row sale_event
  sell reason = do
    found ← gets (λ s. find_row (λ i. i.id) item_id s.rows.items)
    item ← or_raise found (lookup_error "item_not_found")
    raise_if (not (lower item.dimension =ₛ "count")) (value_error "sold_cash_event_count_only")
    unit_price_cents ← lift (sale_unit_price_cents meta item)
    amount_cents ← lift (sale_amount_cents unit_price_cents qty)
    let source_id = or_text ref env.new_token
    moves ← fifo_consume item_id reason (some (text source_id)) qty
    add_cash_event env (sale_event source_id unit_price_cents amount_cents)
    pure (moves, source_id)

  unfoldable pub take_out : String → Action StockSession (List ItemMovement × String)
  take_out reason =
      if reason =ₛ "sold" && meta.record_cash_event
      then sell reason
      else do moves ← fifo_consume item_id reason (as_source ref) qty; pure (moves, or_text ref "")

unfoldable pub perform_stock_out_base :
    Env → ℕ → ℤ → Option String → StockOutMeta → Action StockState (List StockLine)
perform_stock_out_base env item_id qty_base ref meta = do
  qty ← lift (require_qty_base qty_base)
  let reason = or_text meta.reason "sold"
  (moves, effective_source_id) ← on_session (take_out env item_id qty ref meta reason)
  append_journal (record {
    kind = reason;
    item_id = item_id;
    qty_change = neg qty;
    unit_cost_cents = 0;
    source_kind = reason;
    source_id = if effective_source_id =ₛ "" then none else some (text effective_source_id);
    batch_id = none;
    vendor_id = none;
  })
  pure (map line_of moves)
