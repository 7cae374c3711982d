-- ===== src/StockRoutes.antt =====
-- core/api/routes/ledger_api.py: the routes that change stock. A body is what pydantic has read in
-- it; its quantity, a text, is what `Decimal` reads in it. Permissions, the token and the switch
-- for writes are checked before.
pub mod Requests
pub mod Serve
pub mod Refused
use tgc_bus_core.Base.{
  ℕ, ◌*◌, String, Bool, true, false, Option, none, some, List, [], ◌∷◌, ◌++◌, map, ◌==◌,
  if◌then◌else◌, mem_text, get_or, join, sum_by,
}
use tgc_bus_core.Base.Int.{ℤ, pos, ltb_ℤ, ◌-ℤ◌}
use tgc_bus_core.Tables.{find_row}
use tgc_bus_core.Decimal.{Number}
use tgc_bus_core.Effects.{
  Error, http, value_error, lookup_error, key_error, insufficient_stock, stock_shortages, Result,
  ok, err, Action, Env, pure, gets, lift, or_raise, commit, rollback, fresh, ◌>>=◌, ◌>>◌,
}
use tgc_bus_core.Metric.{normalize_quantity_to_base_int, default_unit_for}
use tgc_bus_core.StockTables.{Item, ItemBatch, StockDb, StockSession, SourceId}
use tgc_bus_core.Ledger.{open_batches}
use tgc_bus_core.StockMutation.{
  StockState, JournalEntry, StockLine, StockOutMeta, on_session, perform_stock_in_base,
  perform_stock_out_base,
}
use tgc_bus_core.Purchases.{PurchaseResult, perform_purchase_base}
use tgc_bus_core.QuantityGuard.{Json, reject_legacy_qty_keys}

-- try: …; db.commit() / except Exception as e: db.rollback(); raise …
abbrev pub finish : {A : Type 0} → (Error → Error) → Result A → Action StockState A
finish answer (ok a) t = (ok a, record t { session = (commit t.session).1 })
finish answer (err e) t = (err (answer e), record t { session = (rollback t.session).1 })

unfoldable pub in_transaction :
    {A : Type 0} → (Error → Error) → Action StockState A → Action StockState A
in_transaction answer body t = let (r, u) = body t in finish answer r u

-- raise
abbrev pub raise_again : Error → Error
raise_again e = e

-- hasattr(e, "shortages")
unfoldable pub answer_shortages : Error → Error
answer_shortages (insufficient_stock shortages) = stock_shortages shortages
answer_shortages e = e

-- A KeyError is a LookupError.
unfoldable pub answer_stock_out : Error → Error
unfolding answer_shortages
answer_stock_out (lookup_error _) = http 404 "item_not_found"
answer_stock_out key_error = http 404 "item_not_found"
answer_stock_out (value_error text) = http 400 text
answer_stock_out e = answer_shortages e

-- `_default_uom_for_item`
unfoldable pub default_uom_for_item : ℕ → Action StockState String
unfolding find_row
default_uom_for_item item_id = do
  found ← gets (λ t. find_row (λ i. i.id) item_id t.session.rows.items)
  item ← or_raise found (http 404 "item_not_found")
  lift (default_unit_for item.dimension)

-- The unit of a wrapper's payload.
unfoldable pub uom_or_default : ℕ → Option String → Action StockState String
uom_or_default item_id none = default_uom_for_item item_id
uom_or_default item_id (some uom) = pure uom

pub record PurchaseCanonicalIn : Type 0 where
  pub item_id : ℕ
  pub quantity_decimal : Number
  pub uom : String
  pub unit_cost_cents : ℕ
  pub source_id : Option String
  pub category : Option String
  pub notes : Option String
  pub created_at : Option ℕ

pub record ConsumeIn : Type 0 where
  pub item_id : ℕ
  pub qty : ℕ
  pub source_kind : String
  pub source_id : Option String

pub record AdjustmentInput : Type 0 where
  pub item_id : ℕ
  pub qty_change : ℤ
  pub note : Option String

pub record StockOutCanonicalIn : Type 0 where
  pub item_id : ℕ
  pub quantity_decimal : Number
  pub uom : String
  pub reason : String
  pub note : Option String
  pub record_cash_event : Bool
  pub sell_unit_price_cents : Option ℕ

pub record StockInCanonicalIn : Type 0 where
  pub item_id : ℕ
  pub quantity_decimal : Number
  pub uom : String
  pub unit_cost_cents : Option ℕ
  pub source_id : Option String

-- A line of the answer of `consume`.
pub record ConsumedLine : Type 0 where
  pub batch_id : ℕ
  pub qty : ℤ
  pub unit_cost_cents : ℕ

abbrev pub consumed_line : StockLine → ConsumedLine
consumed_line l = record {
  batch_id = l.batch_id;
  qty = pos 0 -ℤ l.qty_change;
  unit_cost_cents = l.unit_cost_cents;
}

abbrev pub whole_cents : ℕ → Number
whole_cents n = Number.finite false n 0

-- `message` is `str` of an exception.
module _ (env : Env) (message : Error → String) where
  -- Every error of the conversion is a 400.
  unfoldable pub invalid_quantity : Result ℤ → Result ℤ
  invalid_quantity (ok n) = ok n
  invalid_quantity (err e) = err (http 400 (join "invalid_quantity:" (message e)))

  -- `_to_base_qty_for_item`
  unfoldable pub to_base_qty_for_item : ℕ → Number → String → Action StockState ℤ
  unfolding find_row
  to_base_qty_for_item item_id quantity_decimal uom = do
    found ← gets (λ t. find_row (λ i. i.id) item_id t.session.rows.items)
    item ← or_raise found (http 404 "item_not_found")
    lift (invalid_quantity (normalize_quantity_to_base_int quantity_decimal uom item.dimension))

  -- What each canonical route does behind the guard on its raw body.
  unfoldable pub purchase : PurchaseCanonicalIn → Action StockState PurchaseResult
  purchase body = do
    qty_base ← to_base_qty_for_item body.item_id body.quantity_decimal body.uom
    in_transaction raise_again (
        perform_purchase_base env
          (record {
            vendor_id = "";
            category = body.category;
            notes = body.notes;
            created_at = body.created_at;
          })
          (record {
            item_id = body.item_id;
            qty_base = qty_base;
            unit_cost_cents = some (whole_cents body.unit_cost_cents);
            source_kind = some "purchase";
            source_id = body.source_id;
          }
            ∷ []))

  unfoldable pub stock_out : StockOutCanonicalIn → Action StockState (List StockLine)
  stock_out body = do
    qty_base ← to_base_qty_for_item body.item_id body.quantity_decimal body.uom
    in_transaction answer_stock_out (
        perform_stock_out_base env body.item_id qty_base body.note (record {
          reason = some body.reason;
          note = body.note;
          record_cash_event = body.record_cash_event;
          sell_unit_price_cents = elim (body.sell_unit_price_cents) [
            | none ↦ none
            | some n ↦ some (whole_cents n)
          ];
        }))

  unfoldable pub stock_in : StockInCanonicalIn → Action StockState (Option ℕ)
  stock_in body = do
    qty_base ← to_base_qty_for_item body.item_id body.quantity_decimal body.uom
    in_transaction raise_again (
        perform_stock_in_base env body.item_id qty_base
          (elim (body.unit_cost_cents) [ none ↦ none | some n ↦ some (whole_cents n) ])
          body.source_id (some "stock_in") body.source_id)

  unfoldable pub canonical_purchase : Json → PurchaseCanonicalIn → Action StockState PurchaseResult
  canonical_purchase raw body = do lift (reject_legacy_qty_keys raw); purchase body

  unfoldable pub canonical_stock_out :
      Json → StockOutCanonicalIn → Action StockState (List StockLine)
  canonical_stock_out raw body = do lift (reject_legacy_qty_keys raw); stock_out body

  unfoldable pub canonical_stock_in : Json → StockInCanonicalIn → Action StockState (Option ℕ)
  canonical_stock_in raw body = do lift (reject_legacy_qty_keys raw); stock_in body

  unfoldable pub consume : ConsumeIn → Action StockState (List ConsumedLine)
  consume body = in_transaction answer_shortages (do
    lines ← perform_stock_out_base env body.item_id (pos body.qty) body.source_id (record {
      reason = some body.source_kind;
      note = body.source_id;
      record_cash_event = false;
      sell_unit_price_cents = none;
    })
    pure (map consumed_line lines))

  unfoldable pub raise_stock : AdjustmentInput → Action StockState (Unit {0})
  raise_stock body = do
    perform_stock_in_base env body.item_id body.qty_change (some (whole_cents 0)) body.note
        (some "adjustment") body.note
    pure tt

  unfoldable pub lower_stock : AdjustmentInput → Action StockState (Unit {0})
  lower_stock body = do
    perform_stock_out_base env body.item_id (pos 0 -ℤ body.qty_change) body.note (record {
      reason = some "adjustment";
      note = body.note;
      record_cash_event = false;
      sell_unit_price_cents = none;
    })
    pure tt

  unfoldable pub adjust_stock : AdjustmentInput → Action StockState (Unit {0})
  adjust_stock body =
      in_transaction answer_shortages
        (if ltb_ℤ (pos 0) body.qty_change then raise_stock body else lower_stock body)

  -- The deprecated wrappers: `raw` is the payload without its `qty`, and `body_of` what pydantic
  -- reads in it once it has a unit.
  module _ (raw : Json) (item_id : ℕ) (uom : Option String) where
    unfoldable pub purchase_wrapper :
        (String → PurchaseCanonicalIn) → Action StockState PurchaseResult
    purchase_wrapper body_of = do
      unit ← uom_or_default item_id uom
      canonical_purchase raw (body_of unit)

    unfoldable pub stock_out_wrapper :
        (String → StockOutCanonicalIn) → Action StockState (List StockLine)
    stock_out_wrapper body_of = do
      unit ← uom_or_default item_id uom
      canonical_stock_out raw (body_of unit)

    unfoldable pub stock_in_wrapper : (String → StockInCanonicalIn) → Action StockState (Option ℕ)
    stock_in_wrapper body_of = do
      unit ← uom_or_default item_id uom
      canonical_stock_in raw (body_of unit)

-- `valuation`, of one item: SUM(qty_remaining * unit_cost_cents)
unfoldable pub item_value : ℕ → List ItemBatch → ℕ
item_value item_id batches =
    sum_by (λ b. if b.item_id == item_id then b.qty_remaining * b.unit_cost_cents else 0) batches

unfoldable pub valuation : ℕ → Action StockSession ℕ
unfolding item_value
valuation item_id = gets (λ s. item_value item_id s.flushed.batches)
