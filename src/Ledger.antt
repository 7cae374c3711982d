-- ===== src/Ledger.antt =====
-- core/appdb/ledger.py: the quantity on hand, consumption of batches first in first out, and new
-- batches.
pub mod Loop
pub mod Older
pub mod Consume
pub mod Balance
pub mod Keyed
use tgc_bus_core.Base.{
  ℕ, ◌+◌, ◌-◌, min, String, Bool, true, false, ◌&&◌, ◌||◌, Option, none, some, List, [], ◌∷◌, ◌++◌,
  map, ltb, ◌==◌, if◌then◌else◌, keep, sum_by,
}
use tgc_bus_core.Base.Int.{ℤ, pos, neg, ◌+ℤ◌, ◌-ℤ◌}
use tgc_bus_core.Tables.{find_row, update_row, current, order_by}
use tgc_bus_core.Effects.{
  Shortage, insufficient_stock, Action, Env, Session, pure, raise, raise_if, gets, modify, write,
  flush, ◌>>=◌, ◌>>◌,
}
use tgc_bus_core.StockTables.{Item, ItemBatch, ItemMovement, SourceId, StockDb, StockSession}

-- SUM(qty_remaining) over the item's batches.
unfoldable pub on_hand : ℕ → List ItemBatch → ℕ
on_hand item_id batches = sum_by (λ b. if b.item_id == item_id then b.qty_remaining else 0) batches

unfoldable pub on_hand_qty : ℕ → Action StockSession ℕ
on_hand_qty item_id = gets (λ s. on_hand item_id s.flushed.batches)

-- ORDER BY created_at, id
abbrev pub batch_before : ItemBatch → ItemBatch → Bool
batch_before a b = ltb a.created_at b.created_at || (a.created_at == b.created_at && ltb a.id b.id)

-- The item's batches with something left, oldest first: the query sees what was flushed, and
-- returns the session's objects.
unfoldable pub open_batches : ℕ → StockSession → List ItemBatch
open_batches item_id s = map (current (λ b. b.id) s.rows.batches) (
    order_by batch_before
      (keep (λ b. b.item_id == item_id && ltb 0 b.qty_remaining) s.flushed.batches))

-- batch.qty_remaining -= take
abbrev pub take_from : ℕ → ItemBatch → ItemBatch
take_from taken b = record b { qty_remaining = b.qty_remaining - taken }

unfoldable pub draw : ℕ → ℕ → StockDb → StockDb
unfolding update_row
draw batch_id taken db = record db {
  batches = update_row (λ b. b.id) batch_id (take_from taken) db.batches;
}

-- item.qty_stored = int((item.qty_stored or 0) + change), where the item is found.
unfoldable pub add_stored : ℕ → ℤ → StockDb → StockDb
unfolding update_row
add_stored item_id change db = record db {
  items =
      update_row (λ i. i.id) item_id (λ i. record i { qty_stored = i.qty_stored +ℤ change })
        db.items;
}

-- What the loop over the batches leaves: the movements, what is still needed, the tables.
pub record Drawn : Type 0 where
  pub moves : List ItemMovement
  pub remaining : ℕ
  pub db : StockDb

module _ (item_id : ℕ) (source_kind : String) (source_id : Option SourceId) where
  unfoldable pub movement_of : ItemBatch → ℕ → ItemMovement
  movement_of batch taken = record {
    item_id = item_id;
    batch_id = batch.id;
    qty_change = neg taken;
    unit_cost_cents = batch.unit_cost_cents;
    source_kind = source_kind;
    source_id = source_id;
    is_oversold = false;
  }

  -- for batch in batches: …
  unfoldable pub consume_loop : List ItemBatch → ℕ → StockDb → Drawn
  consume_loop [] remaining db = record { moves = []; remaining = remaining; db = db }
  consume_loop (batch ∷ batches) remaining db =
      let taken = min batch.qty_remaining remaining in
      let mv = movement_of batch taken in
      let drawn = draw batch.id taken db in
      let rest =
        consume_loop batches (remaining - taken)
          (record drawn { movements = drawn.movements ++ mv ∷ [] }) in
      if remaining == 0
      then record { moves = []; remaining = remaining; db = db }
      else record rest { moves = mv ∷ rest.moves }

  abbrev shortage : ℕ → ℕ → ℕ → Shortage
  shortage needed avail missing = record {
    item_id = item_id;
    required = needed;
    on_hand = avail;
    missing = missing;
  }

  -- The loop, and what follows it.
  unfoldable pub finish_consume : ℕ → ℕ → List ItemBatch → Action StockSession (List ItemMovement)
  finish_consume qty_needed avail batches s =
      let drawn = consume_loop batches qty_needed s.rows in
      (do
        write (λ _. drawn.db)
        raise_if (ltb 0 drawn.remaining)
            (insufficient_stock (shortage qty_needed avail drawn.remaining ∷ []))
        write (add_stored item_id (neg qty_needed))
        pure drawn.moves)
        s

  unfoldable pub fifo_consume : ℕ → Action StockSession (List ItemMovement)
  unfolding on_hand_qty finish_consume
  fifo_consume qty_needed = if qty_needed == 0 then pure [] else do
    avail ← on_hand_qty item_id
    raise_if (ltb avail qty_needed)
        (insufficient_stock (shortage qty_needed avail (qty_needed - avail) ∷ []))
    batches ← gets (open_batches item_id)
    finish_consume qty_needed avail batches

-- The movement that a new batch is recorded with.
unfoldable pub received : ℕ → ℕ → ℕ → ℕ → String → Option SourceId → ItemMovement
received item_id batch_id qty unit_cost_cents source_kind source_id = record {
  item_id = item_id;
  batch_id = batch_id;
  qty_change = pos qty;
  unit_cost_cents = unit_cost_cents;
  source_kind = source_kind;
  source_id = source_id;
  is_oversold = false;
}

-- `none` is the return of None for a quantity of zero.
unfoldable pub add_batch :
    Env → ℕ → ℕ → ℕ → String → Option SourceId → Action StockSession (Option ℕ)
add_batch env item_id qty unit_cost_cents source_kind source_id = if qty == 0 then pure none else do
  batch_id ← gets (λ s. env.next_id (map (λ b. b.id) s.rows.batches))
  write (λ db. record db {
    batches =
        db.batches
        ++ record {
          id = batch_id;
          item_id = item_id;
          qty_initial = qty;
          qty_remaining = qty;
          unit_cost_cents = unit_cost_cents;
          source_kind = source_kind;
          source_id = source_id;
          is_oversold = false;
          created_at = env.now;
        }
          ∷ [];
  })
  flush
  write (λ db. record db {
    movements =
        db.movements ++ received item_id batch_id qty unit_cost_cents source_kind source_id ∷ [];
  })
  write (add_stored item_id (pos qty))
  pure (some batch_id)
