-- ===== src/Purchases.antt =====
-- `perform_purchase_base` of core/services/stock_mutation.py: all lines are checked before the
-- first is written.
pub mod Balance
use tgc_bus_core.Base.{
  ℕ, ◌+◌, String, Bool, true, false, not, ◌||◌, Option, none, some, List, [], ◌∷◌, ◌++◌, map, ltb,
  ◌=ₛ◌, mem_text, if◌then◌else◌, get_or, strip, length,
}
use tgc_bus_core.Base.Int.{ℤ, pos, neg}
use tgc_bus_core.Tables.{find_row}
use tgc_bus_core.Decimal.{Number}
use tgc_bus_core.Effects.{
  value_error, lookup_error, Result, ok, err, Action, Env, pure, raise_if, gets, lift, or_raise,
  flush, ◌>>=◌, ◌>>◌,
}
use tgc_bus_core.StockTables.{Item, CashEvent, SourceId, text, StockSession}
use tgc_bus_core.Ledger.{add_batch}
use tgc_bus_core.StockMutation.{
  StockState, require_qty_base, require_nonnegative_cents, purchase_total_amount_cents, on_session,
  append_journal, or_text, add_cash_event,
}

pub record PurchaseLine : Type 0 where
  pub item_id : ℕ
  pub qty_base : ℤ
  pub unit_cost_cents : Option Number
  pub source_kind : Option String
  pub source_id : Option String

-- `_provided_purchase_source_ids`: the texts that are not blank, each once.
unfoldable pub provided_purchase_source_ids : List String → List PurchaseLine → List String
provided_purchase_source_ids source_ids [] = source_ids
provided_purchase_source_ids source_ids (line ∷ lines) =
    let source_text = strip (get_or line.source_id "") in
    provided_purchase_source_ids
      (if source_text =ₛ "" || mem_text source_text source_ids
        then source_ids
        else source_ids ++ source_text ∷ [])
      lines

-- A tuple of `prepared_lines`.
pub record PreparedLine : Type 0 where
  pub qty : ℕ
  pub item_id : ℕ
  pub unit_cost : ℕ
  pub source_kind : String
  pub item : Item

unfoldable pub prepare_line : PurchaseLine → Action StockState PreparedLine
unfolding find_row
prepare_line line = do
  qty ← lift (require_qty_base line.qty_base)
  unit_cost ← lift (
      require_nonnegative_cents (get_or line.unit_cost_cents (Number.finite false 0 0))
        "unit_cost_cents_invalid")
  found ← gets (λ t. find_row (λ i. i.id) line.item_id t.session.rows.items)
  item ← or_raise found (lookup_error "item_not_found")
  pure (record {
    qty = qty;
    item_id = line.item_id;
    unit_cost = unit_cost;
    source_kind = or_text line.source_kind "purchase";
    item = item;
  })

unfoldable pub prepare_lines : List PurchaseLine → Action StockState (List PreparedLine)
prepare_lines [] = pure []
prepare_lines (line ∷ lines) = do
  prepared ← prepare_line line
  rest ← prepare_lines lines
  pure (prepared ∷ rest)

-- The named arguments of a purchase, with `effective_created_at`.
pub record PurchaseInfo : Type 0 where
  pub vendor_id : String
  pub category : Option String
  pub notes : Option String
  pub created_at : Option ℕ

module _ (env : Env) (info : PurchaseInfo) (source_id : String) where
  unfoldable pub expense_event : PreparedLine → ℕ → ℕ → CashEvent
  expense_event line total_amount_cents id = record {
    id = id;
    kind = "expense";
    category = some (or_text info.category "materials");
    amount_cents = neg total_amount_cents;
    item_id = some line.item_id;
    qty_base = some line.qty;
    unit_price_cents = some line.unit_cost;
    source_kind = some "purchase";
    source_id = some source_id;
    related_source_id = none;
    notes = info.notes;
    created_at = get_or info.created_at env.now;
  }

  -- One round of the second loop: the batch's and the cash event's ids.
  unfoldable pub buy_line : PreparedLine → Action StockState (Option ℕ × ℕ)
  buy_line line = do
    total_amount_cents ← lift (purchase_total_amount_cents line.unit_cost line.qty line.item)
    batch_id ← on_session (
        add_batch env line.item_id line.qty line.unit_cost line.source_kind (some (text source_id)))
    event_id ← on_session (add_cash_event env (expense_event line total_amount_cents))
    on_session flush
    append_journal (record {
      kind = "purchase";
      item_id = line.item_id;
      qty_change = pos line.qty;
      unit_cost_cents = line.unit_cost;
      source_kind = line.source_kind;
      source_id = some (text source_id);
      batch_id = batch_id;
      vendor_id = some info.vendor_id;
    })
    pure (batch_id, event_id)

  unfoldable pub buy_lines : List PreparedLine → Action StockState (List (Option ℕ × ℕ))
  buy_lines [] = pure []
  buy_lines (line ∷ lines) = do bought ← buy_line line; rest ← buy_lines lines; pure (bought ∷ rest)

pub record PurchaseResult : Type 0 where
  pub source_id : String
  pub bought : List (Option ℕ × ℕ)

abbrev first_or : List String → String → String
first_or [] d = d
first_or (s ∷ _) _ = s

unfoldable pub perform_purchase_base :
    Env → PurchaseInfo → List PurchaseLine → Action StockState PurchaseResult
perform_purchase_base env info lines = do
  let source_ids = provided_purchase_source_ids [] lines
  raise_if (ltb 1 (length source_ids)) (value_error "multiple_purchase_source_ids_not_supported")
  let source_id = first_or source_ids env.new_token
  prepared_lines ← prepare_lines lines
  bought ← buy_lines env info source_id prepared_lines
  pure (record { source_id = source_id; bought = bought })
