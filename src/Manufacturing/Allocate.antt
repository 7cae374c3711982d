-- ===== src/Manufacturing/Allocate.antt =====
-- `fifo.allocate` draws on the batches as the ledger's consumption does, and records no movement.
use tgc_bus_core.Base.{
  ℕ, ◌-◌, ◌≤◌, ◌<◌, min, ◌≡◌, refl, ◌∙◌, String, true, false, Option, List, [], ◌∷◌, map, arith,
  ltb, ◌==◌, sum_by, All, All-map, Bool-cases, inl, inr,
}
use tgc_bus_core.Base.Int.{neg, neg_part}
use tgc_bus_core.Tables.Order.{All-order_by, All-kept}
use tgc_bus_core.Effects.{ok}
use tgc_bus_core.StockTables.{ItemBatch, ItemMovement, SourceId, StockDb, StockSession}
use tgc_bus_core.Ledger.{
  on_hand, batch_before, add_stored, draw, movement_of, consume_loop, fifo_consume,
}
use tgc_bus_core.Ledger.Loop.{moved, total_left, share, next}
use tgc_bus_core.Ledger.Consume.{
  IsClean, moves_share, queue, is_open, open_batches-queue, total_left-queue, fifo_consume_run,
  moved-share,
}
use tgc_bus_core.Manufacturing.{Allocation, slice_of, allocate_loop, allocate}

-- The entry for what a movement takes.
abbrev pub as_slice : ItemMovement → Allocation
as_slice m = record {
  item_id = m.item_id;
  batch_id = m.batch_id;
  qty = neg_part m.qty_change;
  unit_cost_cents = m.unit_cost_cents;
}

module _ (item_id : ℕ) (kind : String) (source : Option SourceId) where
  slice_of-movement :
      (b : ItemBatch) (t : ℕ)
      → slice_of item_id b t ≡ as_slice (movement_of item_id kind source b t)
  unfolding slice_of movement_of
  slice_of-movement b t = let back : neg_part (neg t) ≡ t = ground arith in rw back

  allocate_loop-consume :
      (bs : List ItemBatch) (r : ℕ) (db db' : StockDb)
      → All (λ b. ltb 0 b.qty_remaining ≡ true) bs
      → db'.batches ≡ db.batches
      → allocate_loop item_id bs r db ≡ record {
        slices = map as_slice (consume_loop item_id kind source bs r db').moves;
        db = record db { batches = (consume_loop item_id kind source bs r db').db.batches };
      }
  unfolding allocate_loop consume_loop draw
  allocate_loop-consume [] r db db' _ same = rw same
  allocate_loop-consume (b ∷ bs) r db db' (h, hs) same = elim (Bool-cases (r == 0)) [
    | inl met ↦ rw (met, same)
    | inr more ↦
        let taken : (min b.qty_remaining r == 0) ≡ false = ground arith in
        let rest =
          allocate_loop-consume bs (r - min b.qty_remaining r)
            (draw b.id (min b.qty_remaining r) db) (next item_id kind source b r db') hs
            (rw same) in
        rw (more, taken, slice_of-movement b (min b.qty_remaining r), rest)
  ]

  open-All :
      (bs : List ItemBatch)
      → All (λ b. is_open item_id b ≡ true) bs
      → All (λ b. ltb 0 b.qty_remaining ≡ true) bs
  open-All bs = All-map _ _ bs (λ b h. ground arith)

  sum-slices :
      (ms : List ItemMovement) → sum_by (λ (a : Allocation). a.qty) (map as_slice ms) ≡ moved ms
  sum-slices [] = refl
  sum-slices (m ∷ ms) = rw (sum-slices ms)

  -- In a clean session, asked for more than nothing and with enough on hand, an allocation returns the quantity asked in slices of the batches that
  -- `fifo_consume` would take, at their costs, leaves the batches as it would, and writes no other
  -- table.
  pub allocate_as_fifo_consume :
      (qty : ℕ) (s : StockSession)
      → IsClean s
      → 0 < qty
      → qty ≤ on_hand item_id s.rows.batches
      → let (r, t) = allocate item_id qty s in
        let slices =
          map as_slice (share item_id kind source qty 0 (queue item_id s.rows.batches)) in
        (r ≡ ok slices)
        × (sum_by (λ (a : Allocation). a.qty) slices ≡ qty)
        × (t ≡ record s {
          rows = record s.rows {
            batches = (fifo_consume item_id kind source qty s).1.rows.batches;
          };
        })
  unfolding add_stored allocate
  allocate_as_fifo_consume qty s clean positive enough =
      let asked : (qty == 0) ≡ false = ground arith in
      let batches = queue item_id s.rows.batches in
      let available : total_left batches ≡ on_hand item_id s.rows.batches =
        total_left-queue item_id s.rows.batches in
      let stocked : ltb (total_left batches) qty ≡ false = ground arith in
      let all_open = open-All batches (
        All-order_by batch_before (λ b. is_open item_id b ≡ true) _
          (All-kept (is_open item_id) s.rows.batches)) in
      rw
        (
          asked,
          open_batches-queue item_id s clean,
          stocked,
          fifo_consume_run item_id kind source qty s clean enough positive,
          allocate_loop-consume batches qty s.rows s.rows all_open refl,
          moves_share item_id kind source qty s clean enough,
        )
        (refl, sum-slices _ ∙ moved-share item_id kind source qty s clean enough, refl)
