-- ===== src/StockRoutes/Requests.antt =====
-- core/api/routes/ledger_api.py: the routes that change stock as requests, each in a session of its
-- own, as `get_session` of core/appdb/engine.py gives one.
use tgc_bus_core.Base.{ℕ, String, Option, List, [], ◌∷◌}
use tgc_bus_core.Effects.{Error, Action, Env, pure, fresh, ◌>>=◌}
use tgc_bus_core.StockTables.{StockDb}
use tgc_bus_core.StockMutation.{StockState, JournalEntry}
use tgc_bus_core.QuantityGuard.{Json}
use tgc_bus_core.StockRoutes.{
  PurchaseCanonicalIn, ConsumeIn, AdjustmentInput, StockOutCanonicalIn, StockInCanonicalIn,
  canonical_purchase, canonical_stock_out, canonical_stock_in, consume, adjust_stock,
  purchase_wrapper, stock_out_wrapper, stock_in_wrapper,
}

-- The routes, with their bodies.
pub data StockRequest : Type 0 where
  post_purchase : Json → PurchaseCanonicalIn → StockRequest
  post_stock_out : Json → StockOutCanonicalIn → StockRequest
  post_stock_in : Json → StockInCanonicalIn → StockRequest
  post_consume : ConsumeIn → StockRequest
  post_adjust : AdjustmentInput → StockRequest
  old_purchase : Json → ℕ → Option String → (String → PurchaseCanonicalIn) → StockRequest
  old_stock_out : Json → ℕ → Option String → (String → StockOutCanonicalIn) → StockRequest
  old_stock_in : Json → ℕ → Option String → (String → StockInCanonicalIn) → StockRequest

-- An answer's body does not matter where only its status is asked for.
abbrev pub answered : {A : Type 0} → Action StockState A → Action StockState (Unit {0})
answered m = m >>= λ _. pure tt

unfoldable pub handle : Env → (Error → String) → StockRequest → Action StockState (Unit {0})
handle env message (post_purchase raw body) = answered (canonical_purchase env message raw body)
handle env message (post_stock_out raw body) = answered (canonical_stock_out env message raw body)
handle env message (post_stock_in raw body) = answered (canonical_stock_in env message raw body)
handle env message (post_consume body) = answered (consume env message body)
handle env message (post_adjust body) = answered (adjust_stock env message body)
handle env message (old_purchase raw item_id uom body_of) =
    answered (purchase_wrapper env message raw item_id uom body_of)
handle env message (old_stock_out raw item_id uom body_of) =
    answered (stock_out_wrapper env message raw item_id uom body_of)
handle env message (old_stock_in raw item_id uom body_of) =
    answered (stock_in_wrapper env message raw item_id uom body_of)

-- What stays between requests: the database and the journal.
pub record Store : Type 0 where
  pub db : StockDb
  pub journal : List JournalEntry

-- `get_session`: each request has a session of its own.
abbrev pub begin : Store → StockState
begin store = record { session = fresh store.db; journal = store.journal }

abbrev pub end : StockState → Store
end t = record { db = t.session.committed; journal = t.journal }

unfoldable pub serve : Env → (Error → String) → List StockRequest → Store → Store
serve env message [] store = store
serve env message (request ∷ requests) store =
    serve env message requests (end (handle env message request (begin store)).1)
