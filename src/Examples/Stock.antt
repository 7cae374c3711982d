-- ===== src/Examples/Stock.antt =====
-- Stock moved in the shop: consumption, new batches, stock in and out, a purchase and a run.
use mathlib.Core.Option
use tgc_bus_core.Tables.Sorted.{Ordered}
use tgc_bus_core.Base.{
  Perm, ◌==◌, if◌then◌else◌, keep, ℕ, ◌+◌, ◌≤◌, ◌≡◌, refl, arith, true, false, none, some, List, [],
  ◌∷◌, ◌++◌, map, sum_by,
}
use tgc_bus_core.Base.Int.{pos, neg, ◌+ℤ◌}
use tgc_bus_core.Decimal.{Number}
use tgc_bus_core.Effects.{Error, Result, ok, err, insufficient_stock, lookup_error, fresh}
use tgc_bus_core.Tables.{find_row, current, order_by}
use tgc_bus_core.StockTables.{Item, ItemBatch}
use tgc_bus_core.Ledger.{on_hand, on_hand_qty, open_batches, fifo_consume}
use tgc_bus_core.Ledger.Loop.{share}
use tgc_bus_core.Ledger.Older.{IsOlder}
use tgc_bus_core.Ledger.Consume.{queue, is_open, fifo_consume_takes}
use tgc_bus_core.Ledger.Balance.{IsBalanced, fifo_consume-IsBalanced}
use tgc_bus_core.StockMutation.{StockOutMeta, require_qty_base, require_nonnegative_cents}
use tgc_bus_core.Purchases.{PurchaseLine, PurchaseInfo, prepare_line, perform_purchase_base}
use tgc_bus_core.Purchases.Balance.{perform_purchase_base_invalid}
use tgc_bus_core.Manufacturing.{Allocation, allocate, Required, RunRequest, recipe_run}
use tgc_bus_core.Manufacturing.Allocate.{as_slice, allocate_as_fifo_consume}
use tgc_bus_core.Manufacturing.Execute.{
  RunResult, execute_run, execute_run_txn, start_run, allocate_all, allocate_component, hooked,
  transactional,
}
use tgc_bus_core.Manufacturing.Balance.{execute_run_txn-IsBalanced}
use tgc_bus_core.Manufacturing.Transaction.{execute_run_txn_rolls_back}
use tgc_bus_core.Examples.Shop.{env, shop, session, state, session-IsClean, shop-IsBalanced}

enough : 4000 ≤ on_hand 1 shop.batches
unfolding on_hand
enough = omega arith

fifo_consume_takes_example :
    let (r, t) = fifo_consume 1 "sold" none 4000 session in
    (oldest_first : List ItemBatch) × Perm oldest_first (keep (is_open 1) shop.batches)
    × Ordered IsOlder oldest_first
    × (r ≡ ok (share 1 "sold" none 4000 0 oldest_first))
    × (on_hand 1 t.rows.batches + 4000 ≡ on_hand 1 shop.batches)
    × (t.rows.movements ≡ shop.movements ++ share 1 "sold" none 4000 0 oldest_first)
    × ((j : ℕ)
        → find_row (λ (i : Item). i.id) j t.rows.items
          ≡ Option.map
              (λ i. if j == 1 then record i { qty_stored = i.qty_stored +ℤ neg 4000 } else i)
              (find_row (λ (i : Item). i.id) j shop.items))
    × (t.committed ≡ shop)
fifo_consume_takes_example =
    fifo_consume_takes 1 "sold" none 4000 session session-IsClean enough (omega arith)

fifo_consume-IsBalanced_example : IsBalanced (fifo_consume 1 "sold" none 4000 session).1.rows
fifo_consume-IsBalanced_example =
    fifo_consume-IsBalanced 1 "sold" none 4000 session session-IsClean shop-IsBalanced

abbrev sale : StockOutMeta
sale = record { reason = none; note = none; record_cash_event = true; sell_unit_price_cents = none }

abbrev line : ℕ → PurchaseLine
line item_id = record {
  item_id = item_id;
  qty_base = pos 2000;
  unit_cost_cents = some (Number.finite false 15 0);
  source_kind = none;
  source_id = none;
}

abbrev info : PurchaseInfo
info = record { vendor_id = "7"; category = none; notes = none; created_at = none }

perform_purchase_base_invalid_example :
    (e : Error) × (perform_purchase_base env info (line 1 ∷ line 9 ∷ []) state ≡ (err e, state))
perform_purchase_base_invalid_example =
    perform_purchase_base_invalid env info (line 1 ∷ []) [] (line 9) state
      (lookup_error "item_not_found")
      (unfold prepare_line require_qty_base require_nonnegative_cents find_row in refl)

allocate_as_fifo_consume_example :
    let (r, t) = allocate 1 4000 session in
    let slices = map as_slice (share 1 "manufacturing" none 4000 0 (queue 1 shop.batches)) in
    (r ≡ ok slices)
    × (sum_by (λ (a : Allocation). a.qty) slices ≡ 4000)
    × (t ≡ record session {
      rows = record shop {
        batches = (fifo_consume 1 "manufacturing" none 4000 session).1.rows.batches;
      };
    })
allocate_as_fifo_consume_example =
    allocate_as_fifo_consume 1 "manufacturing" none 4000 session session-IsClean (omega arith)
      enough

abbrev no_hook : RunResult → Result (Unit {0})
no_hook _ = ok tt

abbrev frames : RunRequest
frames = recipe_run 1 (Number.finite false 2 0) "ea" none

abbrev needs : ℕ → List Required
needs qty = record { item_id = 1; required_base = pos qty; is_optional = false } ∷ []

execute_run_txn_rolls_back_example :
    (execute_run_txn env no_hook frames 2 (needs 9000) (pos 2000) session).1 ≡ fresh shop
execute_run_txn_rolls_back_example =
    execute_run_txn_rolls_back env no_hook frames 2 (needs 9000) (pos 2000) session
      (insufficient_stock
        (record { item_id = 1; required = 9000; on_hand = 8000; missing = 1000 } ∷ []))
      (unfold execute_run_txn execute_run transactional hooked start_run allocate_all
          allocate_component allocate on_hand_qty on_hand open_batches current order_by in
        refl)

abbrev slice : ℕ → ℕ → Allocation
slice batch_id qty = record { item_id = 1; batch_id = batch_id; qty = qty; unit_cost_cents = 10 }

abbrev two_frames : RunResult
two_frames = record {
  run_id = 1;
  allocations = slice 2 3000 ∷ slice 1 1000 ∷ [];
  cost_inputs_cents = 40;
  per_output_cents = 20;
  output_batch_id = 4;
}

execute_run_txn-IsBalanced_example :
    IsBalanced (execute_run_txn env no_hook frames 2 (needs 4000) (pos 2000) session).1.committed
execute_run_txn-IsBalanced_example =
    execute_run_txn-IsBalanced env no_hook frames 2 (needs 4000) (pos 2000) session session-IsClean
      shop-IsBalanced shop-IsBalanced
