-- ===== src/Examples/Shop.antt =====
-- A small shop: one item, sold by the piece, with two batches on hand, and a recipe for another.
use tgc_bus_core.Base.{ℕ, suc, refl, arith, false, none, some, List, [], ◌∷◌, sum_by}
use tgc_bus_core.Base.Int.{pos, ◌+ℤ◌}
use tgc_bus_core.Decimal.{Number}
use tgc_bus_core.Effects.{Env, fresh}
use tgc_bus_core.StockTables.{Item, ItemBatch, ItemMovement, StockDb, StockSession}
use tgc_bus_core.Ledger.{on_hand}
use tgc_bus_core.Ledger.Consume.{IsClean}
use tgc_bus_core.Ledger.Balance.{IsBalanced}
use tgc_bus_core.StockMutation.{StockState}

-- The next key is one more than the sum of those in use.
abbrev next_key : List ℕ → ℕ
next_key ids = suc (sum_by (λ i. i) ids)

abbrev pub env : Env
env = record { now = 100; new_token = "token"; next_id = next_key }

abbrev pub nail : Item
nail = record {
  id = 1;
  uom = "ea";
  dimension = "count";
  qty_stored = pos 8000;
  price = some (Number.finite false 25 1);
}

abbrev pub frame : Item
frame = record { id = 2; uom = "ea"; dimension = "count"; qty_stored = pos 0; price = none }

abbrev batch : ℕ → ℕ → ℕ → ItemBatch
batch id qty at = record {
  id = id;
  item_id = 1;
  qty_initial = qty;
  qty_remaining = qty;
  unit_cost_cents = 10;
  source_kind = "stock_in";
  source_id = none;
  is_oversold = false;
  created_at = at;
}

abbrev movement : ℕ → ℕ → ItemMovement
movement id qty = record {
  item_id = 1;
  batch_id = id;
  qty_change = pos qty;
  unit_cost_cents = 10;
  source_kind = "stock_in";
  source_id = none;
  is_oversold = false;
}

abbrev pub shop : StockDb
shop = record {
  items = nail ∷ frame ∷ [];
  batches = batch 1 5000 20 ∷ batch 2 3000 10 ∷ [];
  movements = movement 1 5000 ∷ movement 2 3000 ∷ [];
  cash_events = [];
  recipes = record { id = 1; output_item_id = 2; output_qty = pos 1000; archived = false } ∷ [];
  recipe_items =
      record {
        id = 1;
        recipe_id = 1;
        item_id = 1;
        qty_required = 4000;
        is_optional = false;
        sort_order = 0;
      }
      ∷ [];
  runs = [];
}

abbrev pub session : StockSession
session = fresh shop

abbrev pub state : StockState
state = record { session = session; journal = [] }

pub session-IsClean : IsClean session
session-IsClean = record { flushed = refl; keyed = ((λ e. ground arith, tt), (tt, tt)) }

pub shop-IsBalanced : IsBalanced shop
unfolding on_hand ◌+ℤ◌
shop-IsBalanced = record {
  movements = λ i. ground arith;
  stored = (refl, (refl, tt));
  items_keyed = ((λ e. ground arith, tt), (tt, tt));
}
