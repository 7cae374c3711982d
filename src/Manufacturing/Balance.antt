-- ===== src/Manufacturing/Balance.antt =====
-- A whole run of core/manufacturing/service.py keeps the ledger in balance.
use tgc_bus_core.Base.{
  ℕ, ◌+◌, ◌≡◌, refl, sym, ap, ◌∙◌, arith, Bool, true, false, some, List, [], ◌∷◌, ◌++◌, map, ◌==◌,
  if◌then◌else◌, inl, inr,
}
use mathlib.Core.List.{append-nil}
use tgc_bus_core.Base.Int.{ℤ, pos, neg, ◌+ℤ◌}
use tgc_bus_core.Tables.{find_row, update_row, IsKeyed}
use tgc_bus_core.Tables.Rows.{IsKeyed-update}
use tgc_bus_core.Effects.{
  http, Result, Result-cases, Action, Env, lift, gets, or_raise, pure, ◌>>=◌,
}
use tgc_bus_core.Effects.Gives.{
  Gives, Gives-bind, Gives-lift, Gives-gets, Gives-or_raise, Gives-pure, Gives-from,
}
use tgc_bus_core.StockTables.{run, Item, ItemBatch, ItemMovement, StockDb, StockSession}
use tgc_bus_core.Ledger.{on_hand, add_stored, received}
use tgc_bus_core.Ledger.Consume.{IsClean}
use tgc_bus_core.Ledger.Balance.{
  IsBalanced, IsStored, IsStored-change, net, net-append, on_hand-append, add-pos, add-zero_ℤ,
}
use tgc_bus_core.Manufacturing.{Allocation, Required, RunRequest}
use tgc_bus_core.Manufacturing.Drawn.{IsDrawn, allocate_all-Allocates}
use tgc_bus_core.Manufacturing.Consumed.{
  total-consumed_of, net-used, store_consumed-IsKeyed, store_consumed-db, store_consumed-IsStored,
}
use tgc_bus_core.Manufacturing.Execute.{
  used, store_consumed, consumed_of, produced, RunResult, finish_run, execute_run, execute_run_txn,
  output_human_qty, per_output_of,
}
use tgc_bus_core.Manufacturing.Transaction.{
  execute_run_txn_rolls_back, execute_run_txn_commits, execute_run_txn_returned,
}
use tgc_bus_core.Manufacturing.Recorded.{start_run-Gives, IsRecorded, record_inputs-Gives}

sum_of_run :
    (h0 al hb p : ℕ) (n u r : ℤ)
    → n ≡ pos h0
    → u ≡ neg al
    → r ≡ pos p
    → hb + al ≡ h0
    → (n +ℤ u) +ℤ r ≡ pos (hb + p)
sum_of_run h0 al hb p n u r en eu er h = rw (en, eu, er) (unfold ◌+ℤ◌ in ground arith)

pos_if : (c : Bool) (n : ℕ) → (if c then pos n else pos 0) +ℤ pos 0 ≡ pos (if c then n else 0)
pos_if true n = add-zero_ℤ (pos n)
pos_if false n = add-zero_ℤ (pos 0)

-- The tables before the stored quantities change.
abbrev yielded : StockDb → ItemBatch → ItemMovement → StockDb
yielded db b m = record db { batches = db.batches ++ b ∷ []; movements = db.movements ++ m ∷ [] }

module _ (d0 : StockDb) (run_id : ℕ) (slices : List Allocation) (b : ItemBatch) (m : ItemMovement)
    (s : StockSession) (balanced : IsBalanced d0) (h : IsRecorded d0 run_id slices slices s) where
  abbrev consumed : List (ℕ × ℕ)
  consumed = consumed_of [] slices

  abbrev db : StockDb
  db = store_consumed consumed (yielded s.rows b m)

  abbrev gain : ℕ → ℕ
  gain i = if b.item_id == i then b.qty_remaining else 0

  same_movements : db.movements ≡ s.rows.movements ++ m ∷ []
  same_movements =
      ap (λ (d : StockDb). d.movements) (store_consumed-db consumed (yielded s.rows b m))

  same_batches : db.batches ≡ s.rows.batches ++ b ∷ []
  same_batches = ap (λ (d : StockDb). d.batches) (store_consumed-db consumed (yielded s.rows b m))

  held_after : (i : ℕ) → on_hand i (s.rows.batches ++ b ∷ []) ≡ on_hand i s.rows.batches + gain i
  held_after i = on_hand-append i s.rows.batches (b ∷ []) ∙ (unfold on_hand in ground arith)

  run-net :
      (i : ℕ) → net i (m ∷ []) ≡ pos (gain i) → net i db.movements ≡ pos (on_hand i db.batches)
  run-net i e =
      rw (same_movements, same_batches, held_after i, h.movements)
        (net-append i (d0.movements ++ map (used run_id) slices) (m ∷ [])
          ∙ rw (net-append i d0.movements (map (used run_id) slices)) (
              sum_of_run _ _ _ _ _ _ _ (balanced.movements i) (net-used i run_id slices) e
                (h.left i)))

  consumed-IsStored : IsStored (λ i. on_hand i s.rows.batches) db.items
  consumed-IsStored =
      store_consumed-IsStored consumed (yielded s.rows b m) (λ i. on_hand i d0.batches) _
        (λ i. rw (total-consumed_of i [] slices) (omega (arith, h.left i)))
        (rw h.items balanced.items_keyed) (rw h.items balanced.stored)

  -- What an item gets on top of what is left.
  gained : (i : ℕ) → on_hand i db.batches ≡ on_hand i s.rows.batches + gain i
  gained i = rw same_batches (held_after i)

  finished-IsStored :
      (output qty : ℕ)
      → ((i : ℕ) → gain i ≡ (if output == i then qty else 0))
      → IsStored
          (λ i. on_hand i db.batches)
          (update_row
            (λ i. i.id)
            output
            (λ i. record i { qty_stored = i.qty_stored +ℤ pos qty })
            db.items)
  finished-IsStored output qty e =
      IsStored-change output (pos qty) (λ i. on_hand i s.rows.batches) _ db.items
        (λ i other. gained i ∙ ground (arith, e i))
        (add-pos _ _ qty (gained output ∙ ground (arith, e output)))
        (store_consumed-IsKeyed consumed (yielded s.rows b m) (rw h.items balanced.items_keyed))
        consumed-IsStored

  consumed-IsKeyed : IsKeyed (λ (i : Item). i.id) db.items
  consumed-IsKeyed =
      store_consumed-IsKeyed consumed (yielded s.rows b m) (rw h.items balanced.items_keyed)

module _ (env : Env) (body : RunRequest) (output : ℕ) (output_qty : ℤ) where
  finish_run-IsBalanced :
      (d0 : StockDb) (run_id : ℕ) (slices : List Allocation) (qty cost per : ℕ) (s : StockSession)
      → IsBalanced d0
      → IsRecorded d0 run_id slices slices s
      → IsBalanced (finish_run env body output output_qty run_id slices qty cost per s).1.rows
  unfolding finish_run add_stored produced received
  finish_run-IsBalanced d0 run_id slices qty cost per s balanced h =
      let id = env.next_id (map (λ (b : ItemBatch). b.id) s.rows.batches) in
      let b = produced env run_id output qty per id in
      let m = received output id qty per "manufacturing" (some (run run_id)) in
      record {
        movements = λ i.
            run-net d0 run_id slices b m s balanced h i
              (unfold received in pos_if (output == i) qty);
        stored = finished-IsStored d0 run_id slices b m s balanced h output qty (λ i. refl);
        items_keyed =
            IsKeyed-update (λ (i : Item). i.id) output _ _ (λ o. refl)
              (consumed-IsKeyed d0 run_id slices b m s balanced h);
      }

  abbrev result_of : ℕ → List Allocation → ℕ → ℕ → ℕ → RunResult
  result_of run_id slices cost per id = record {
    run_id = run_id;
    allocations = slices;
    cost_inputs_cents = cost;
    per_output_cents = per;
    output_batch_id = id;
  }

  -- What follows the inputs.
  abbrev price_and_finish : ℕ → List Allocation → ℕ → Action StockSession RunResult
  price_and_finish run_id slices cost = do
    found ← gets (λ s. find_row (λ i. i.id) output s.rows.items)
    item ← or_raise found (http 404 "item_not_found")
    (qty, human_qty) ← lift (output_human_qty output_qty item)
    per ← lift (per_output_of cost human_qty)
    id ← finish_run env body output output_qty run_id slices qty cost per
    pure (result_of run_id slices cost per id)

  recorded :
      (d0 : StockDb) (run_id : ℕ) (slices : List Allocation) (s : StockSession)
      → IsDrawn d0 slices s
      → IsRecorded d0 run_id slices [] s
  recorded d0 run_id slices s h = record {
    movements = h.movements ∙ sym (append-nil d0.movements);
    items = h.items;
    left = h.left;
  }

  -- The output's price, and the rest.
  price-Gives :
      (d0 : StockDb) (run_id : ℕ) (slices : List Allocation) (cost : ℕ)
      → IsBalanced d0
      → Gives
          (IsRecorded d0 run_id slices slices)
          (λ result s. IsBalanced s.rows)
          (price_and_finish run_id slices cost)
  price-Gives d0 run_id slices cost balanced =
      Gives-bind (gets (λ s. find_row (λ i. i.id) output s.rows.items)) _ (Gives-gets _) (λ found.
        Gives-bind (or_raise found (http 404 "item_not_found")) _ (Gives-or_raise found _) (λ item.
          Gives-bind (lift (output_human_qty output_qty item)) _ (Gives-lift _) (λ q.
            Gives-bind (lift (per_output_of cost q.1)) _ (Gives-lift _) (λ per.
              Gives-bind (finish_run env body output output_qty run_id slices q.0 cost per) _
                (record {
                  at = λ s id h e. finish_run-IsBalanced d0 run_id slices q.0 cost per s balanced h;
                })
                (λ id. Gives-pure (result_of run_id slices cost per id) (λ s h. h))))))

  execute_run-Gives :
      (required : List Required) (s0 : StockSession)
      → IsClean s0
      → IsBalanced s0.rows
      → Gives
          (λ s. s ≡ s0)
          (λ result s. IsBalanced s.rows)
          (execute_run env body output output_qty required)
  unfolding execute_run
  execute_run-Gives required s0 clean balanced =
      Gives-bind _ _ (start_run-Gives env body output output_qty s0 clean) (λ run_id.
        Gives-bind _ _ (allocate_all-Allocates s0.rows required []) (λ slices.
          Gives-bind _ _
            (Gives-from _ (recorded s0.rows run_id slices)
              (record_inputs-Gives s0.rows run_id slices [] slices))
            (λ cost. price-Gives s0.rows run_id slices cost balanced)))

-- From a balanced ledger with no batch left to flush, and what is committed in balance too, a
-- run leaves what is committed in balance, whether it returns, or raises and is rolled back, and
-- whatever the hook answers.
pub execute_run_txn-IsBalanced :
    (env : Env) (hook : RunResult → Result (Unit {0})) (body : RunRequest) (output : ℕ)
    (required : List Required) (output_qty : ℤ) (s : StockSession)
    → IsClean s
    → IsBalanced s.rows
    → IsBalanced s.committed
    → IsBalanced (execute_run_txn env hook body output required output_qty s).1.committed
execute_run_txn-IsBalanced env hook body output required output_qty s clean rows committed =
    elim (Result-cases (execute_run_txn env hook body output required output_qty s).0) [
      | inr (e, raised) ↦
          rw (execute_run_txn_rolls_back env hook body output required output_qty s e raised)
            committed
      | inl (r, returned) ↦
          rw (execute_run_txn_commits env hook body output required output_qty s r returned) (
            (execute_run-Gives env body output output_qty required s clean rows).at s r refl
              (execute_run_txn_returned env hook body output required output_qty s r returned))
    ]
