-- ===== src/Ledger/Consume.antt =====
-- `fifo_consume` as a whole: it takes the oldest batches first, exactly what was asked, or raises
-- and changes nothing.
use mathlib.Core.Option
use tgc_bus_core.Base.{
  Perm, ℕ, ◌+◌, ◌-◌, ◌≤◌, ◌<◌, ◌≡◌, ◌≢◌, refl, ap, ◌∙◌, String, Bool, true, false, ◌&&◌, Option,
  some, List, [], ◌∷◌, ◌++◌, map, arith, ltb, ◌==◌, if◌then◌else◌, keep, All,
}
use tgc_bus_core.Base.Int.{neg, ◌+ℤ◌}
use tgc_bus_core.Tables.{find_row, IsKeyed, current, order_by}
use tgc_bus_core.Tables.Rows.{find_row-keyed, find_row-update}
use tgc_bus_core.Tables.Sorted.{Ordered, Ordered-order_by, order_by-Perm}
use tgc_bus_core.Tables.Order.{
  All-order_by, All-keep, All-kept, IsKeyed-order_by, IsKeyed-keep, sum-order_by,
}
use tgc_bus_core.Effects.{ok, err, insufficient_stock}
use tgc_bus_core.StockTables.{Item, ItemBatch, SourceId, StockDb, StockSession}
use tgc_bus_core.Ledger.{
  on_hand, batch_before, open_batches, add_stored, consume_loop, fifo_consume,
}
use tgc_bus_core.Ledger.Older.{IsOlder, IsOlder-compose, before-IsOlder, after-IsOlder}
use tgc_bus_core.Ledger.Loop.{
  moved, total_left, IsHeld, share, loop-moved, loop-remaining, loop-on_hand, loop-db, loop-moves,
}

-- Nothing waits to be flushed in the batches, and no two batches share a key.
pub record IsClean (s : StockSession) : Type 0 where
  pub flushed : s.flushed.batches ≡ s.rows.batches
  pub keyed : IsKeyed (λ (b : ItemBatch). b.id) s.rows.batches

abbrev pub is_open : ℕ → ItemBatch → Bool
is_open item_id b = b.item_id == item_id && ltb 0 b.qty_remaining

-- The item's batches with something left, oldest first.
abbrev pub queue : ℕ → List ItemBatch → List ItemBatch
queue item_id batches = order_by batch_before (keep (is_open item_id) batches)

current-All :
    (rows rest : List ItemBatch)
    → All (λ b. find_row (λ (r : ItemBatch). r.id) b.id rows ≡ some b) rest
    → map (current (λ b. b.id) rows) rest ≡ rest
unfolding current
current-All rows [] _ = refl
current-All rows (b ∷ rest) (found, fs) = rw (found, current-All rows rest fs)

IsHeld-All :
    (item_id : ℕ) (rows rest : List ItemBatch)
    → All (λ b. find_row (λ (r : ItemBatch). r.id) b.id rows ≡ some b) rest
    → All (λ b. is_open item_id b ≡ true) rest
    → All (IsHeld item_id rows) rest
IsHeld-All item_id rows [] _ _ = tt
IsHeld-All item_id rows (b ∷ rest) (f, fs) (o, os) =
    ((f, ground arith), IsHeld-All item_id rows rest fs os)

sum-keep_open :
    (item_id : ℕ) (rows : List ItemBatch)
    → total_left (keep (is_open item_id) rows) ≡ on_hand item_id rows
unfolding on_hand
sum-keep_open item_id [] = refl
sum-keep_open item_id (b ∷ rows) = ground (arith, sum-keep_open item_id rows)

module _ (item_id : ℕ) (batches : List ItemBatch) where
  pub total_left-queue : total_left (queue item_id batches) ≡ on_hand item_id batches
  total_left-queue = sum-order_by batch_before _ _ ∙ sum-keep_open item_id batches

  module _ (keyed : IsKeyed (λ (b : ItemBatch). b.id) batches) where
    pub queue-found :
        All (λ b. find_row (λ (r : ItemBatch). r.id) b.id batches ≡ some b) (queue item_id batches)
    queue-found = All-order_by batch_before _ _ (
        All-keep _ (is_open item_id) batches
          (find_row-keyed (λ (b : ItemBatch). b.id) batches keyed))

    pub queue-IsHeld : All (IsHeld item_id batches) (queue item_id batches)
    queue-IsHeld = IsHeld-All item_id batches (queue item_id batches) queue-found (
        All-order_by batch_before (λ b. is_open item_id b ≡ true) _
          (All-kept (is_open item_id) batches))

    pub queue-IsKeyed : IsKeyed (λ (b : ItemBatch). b.id) (queue item_id batches)
    queue-IsKeyed =
        IsKeyed-order_by (λ (b : ItemBatch). b.id) batch_before _
          (IsKeyed-keep (λ (b : ItemBatch). b.id) (is_open item_id) batches keyed)

module _ (item_id : ℕ) (s : StockSession) (clean : IsClean s) where
  pub open_batches-queue : open_batches item_id s ≡ queue item_id s.rows.batches
  unfolding open_batches
  open_batches-queue =
      rw clean.flushed
        (current-All s.rows.batches _ (queue-found item_id s.rows.batches clean.keyed))

module _ (item_id : ℕ) (kind : String) (source : Option SourceId) (qty : ℕ) (s : StockSession) where
  abbrev pub drawn_db : StockDb
  drawn_db = (consume_loop item_id kind source (queue item_id s.rows.batches) qty s.rows).db

  module _ (clean : IsClean s) (enough : qty ≤ on_hand item_id s.rows.batches) where
    nothing_missing :
        (consume_loop item_id kind source (queue item_id s.rows.batches) qty s.rows).remaining ≡ 0
    nothing_missing = omega (
      arith,
      loop-remaining item_id kind source (queue item_id s.rows.batches) qty s.rows,
      total_left-queue item_id s.rows.batches,
    )

    pub moves_share :
        (consume_loop item_id kind source (queue item_id s.rows.batches) qty s.rows).moves
        ≡ share item_id kind source qty 0 (queue item_id s.rows.batches)
    moves_share =
        let whole : qty - 0 ≡ qty = omega arith in
        rw whole at (loop-moves item_id kind source (queue item_id s.rows.batches) qty 0 s.rows)

    pub moved-share : moved (share item_id kind source qty 0 (queue item_id s.rows.batches)) ≡ qty
    moved-share = rw (← moves_share) (
        omega (
          arith,
          loop-moved item_id kind source (queue item_id s.rows.batches) qty s.rows,
          nothing_missing,
        ))

    pub fifo_consume_run :
        0 < qty
        → fifo_consume item_id kind source qty s ≡ (
          ok (share item_id kind source qty 0 (queue item_id s.rows.batches)),
          record s { rows = add_stored item_id (neg qty) drawn_db },
        )
    unfolding fifo_consume
    fifo_consume_run positive =
        let asked : (qty == 0) ≡ false = ground arith in
        let stocked : ltb (on_hand item_id s.flushed.batches) qty ≡ false =
          rw clean.flushed (ground arith) in
        rw (asked, stocked, open_batches-queue item_id s clean, nothing_missing, moves_share)

    pub drawn_on_hand :
        (i : ℕ)
        → on_hand i drawn_db.batches + (if item_id == i then qty else 0) ≡ on_hand i s.rows.batches
    drawn_on_hand i =
        let batches = queue item_id s.rows.batches in
        ground (
          arith,
          loop-on_hand item_id kind source i batches qty s.rows
              (queue-IsKeyed item_id s.rows.batches clean.keyed)
              (queue-IsHeld item_id s.rows.batches clean.keyed),
          loop-moved item_id kind source batches qty s.rows,
          nothing_missing,
        )

    pub drawn_tables : drawn_db ≡ record s.rows {
      batches = drawn_db.batches;
      movements =
          s.rows.movements ++ share item_id kind source qty 0 (queue item_id s.rows.batches);
    }
    drawn_tables =
        loop-db item_id kind source (queue item_id s.rows.batches) qty s.rows ∙ rw moves_share

    pub taken_on_hand :
        (i : ℕ)
        → 0 < qty
        → on_hand i (fifo_consume item_id kind source qty s).1.rows.batches
            + (if item_id == i then qty else 0)
          ≡ on_hand i s.rows.batches
    unfolding add_stored
    taken_on_hand i positive = rw (fifo_consume_run positive) (drawn_on_hand i)

    -- What a call does, in terms of the queue.
    pub fifo_consume_shares :
        0 < qty
        → let (r, t) = fifo_consume item_id kind source qty s in
          (r ≡ ok (share item_id kind source qty 0 (queue item_id s.rows.batches)))
          × (on_hand item_id t.rows.batches + qty ≡ on_hand item_id s.rows.batches)
          × (t.rows.movements
              ≡ s.rows.movements ++ share item_id kind source qty 0 (queue item_id s.rows.batches))
          × (t.rows.items ≡ (add_stored item_id (neg qty) s.rows).items)
          × (t.committed ≡ s.committed)
    unfolding add_stored
    fifo_consume_shares positive = rw (fifo_consume_run positive) (
      refl,
      ground (arith, drawn_on_hand item_id),
      ap (λ (db : StockDb). db.movements) drawn_tables,
      ap (λ (db : StockDb). (add_stored item_id (neg qty) db).items) drawn_tables,
      refl,
    )

    -- In a clean session, asked for more than nothing and with enough on hand, the call returns the
    -- shares of the item's batches that have something left, taken in the order of their times and,
    -- for one time, of their keys. The item's quantity on hand falls by what was asked, the movements
    -- are recorded, and of the items just this one has changed: its stored quantity is less by what
    -- was asked. Nothing is committed.
    pub fifo_consume_takes :
        0 < qty
        → let (r, t) = fifo_consume item_id kind source qty s in
          (oldest_first : List ItemBatch) × Perm oldest_first
            (keep (is_open item_id) s.rows.batches)
          × Ordered IsOlder oldest_first
          × (r ≡ ok (share item_id kind source qty 0 oldest_first))
          × (on_hand item_id t.rows.batches + qty ≡ on_hand item_id s.rows.batches)
          × (t.rows.movements ≡ s.rows.movements ++ share item_id kind source qty 0 oldest_first)
          × ((j : ℕ)
              → find_row (λ (i : Item). i.id) j t.rows.items
                ≡ Option.map
                    (λ i.
                      if j == item_id then record i { qty_stored = i.qty_stored +ℤ neg qty } else i)
                    (find_row (λ (i : Item). i.id) j s.rows.items))
          × (t.committed ≡ s.committed)
    unfolding add_stored
    fifo_consume_takes positive =
        let (returned, fallen, recorded, stored, uncommitted) = fifo_consume_shares positive in
        (
          queue item_id s.rows.batches,
          order_by-Perm batch_before _,
          Ordered-order_by IsOlder batch_before IsOlder-compose before-IsOlder after-IsOlder _,
          returned,
          fallen,
          recorded,
          λ j.
              ap (find_row (λ (i : Item). i.id) j) stored
              ∙ find_row-update (λ (i : Item). i.id) j item_id
                  (λ i. record i { qty_stored = i.qty_stored +ℤ neg qty }) s.rows.items (λ i. refl),
          uncommitted,
        )

    -- In a clean session, asked for more than nothing and with enough on hand, the call leaves every
    -- other item with what it has on hand.
    pub fifo_consume_others :
        (i : ℕ)
        → 0 < qty
        → item_id ≢ i
        → on_hand i (fifo_consume item_id kind source qty s).1.rows.batches
          ≡ on_hand i s.rows.batches
    unfolding add_stored
    fifo_consume_others i positive other =
        rw (fifo_consume_run positive) (ground (arith, drawn_on_hand i))

  -- In a clean session with less on hand than asked, the call raises with the shortage, and nothing has changed.
  pub fifo_consume_short :
      IsClean s
      → on_hand item_id s.rows.batches < qty
      → fifo_consume item_id kind source qty s ≡ (
        err (
            insufficient_stock (
              record {
                item_id = item_id;
                required = qty;
                on_hand = on_hand item_id s.rows.batches;
                missing = qty - on_hand item_id s.rows.batches;
              }
              ∷ [])),
        s,
      )
  unfolding fifo_consume
  fifo_consume_short clean short =
      let asked : (qty == 0) ≡ false = ground arith in
      let lacking : ltb (on_hand item_id s.flushed.batches) qty ≡ true =
        rw clean.flushed (ground arith) in
      rw (asked, lacking, clean.flushed)
