-- ===== src/Ledger/Loop.antt =====
-- The loop of `fifo_consume` over the batches: how much it moves, what it leaves in the tables, and
-- the closed form of what each batch gives.
use tgc_bus_core.Base.{
  ℕ, ◌+◌, ◌-◌, ◌≤◌, min, ◌≡◌, ◌≢◌, refl, ap, ◌∙◌, String, true, false, Option, some, List, [], ◌∷◌,
  ◌++◌, arith, ltb, ◌==◌, if◌then◌else◌, sum_by, All, Bool-cases, inl, inr, ==→eq,
}
use tgc_bus_core.Base.Int.{neg_part}
use mathlib.Core.List.{append_assoc, append-nil}
use tgc_bus_core.Tables.{find_row, IsKeyed}
use tgc_bus_core.Tables.Rows.{find_row-update_ne, sum-update}
use tgc_bus_core.StockTables.{ItemBatch, ItemMovement, SourceId, StockDb}
use tgc_bus_core.Ledger.{on_hand, take_from, draw, Drawn, movement_of, consume_loop}

-- The quantity that movements take out.
abbrev pub moved : List ItemMovement → ℕ
moved = sum_by (λ m. neg_part m.qty_change)

abbrev pub total_left : List ItemBatch → ℕ
total_left = sum_by (λ b. b.qty_remaining)

-- The session holds this batch, and it is one of the item's.
abbrev pub IsHeld : ℕ → List ItemBatch → ItemBatch → Type 0
IsHeld item_id batches b = (find_row (λ r. r.id) b.id batches ≡ some b) × (b.item_id ≡ item_id)

pub IsHeld-draw :
    (item_id id taken : ℕ) (db : StockDb) (bs : List ItemBatch)
    → All (λ o. o.id ≢ id) bs
    → All (IsHeld item_id db.batches) bs
    → All (IsHeld item_id (draw id taken db).batches) bs
unfolding draw
IsHeld-draw item_id id taken db [] _ _ = tt
IsHeld-draw item_id id taken db (b ∷ bs) (n, ns) (h, hs) = (
  (find_row-update_ne (λ r. r.id) b.id id (take_from taken) db.batches (λ a. refl) n ∙ h.0, h.1),
  IsHeld-draw item_id id taken db bs ns hs,
)

pub on_hand-draw :
    (item_id i taken : ℕ) (db : StockDb) (b : ItemBatch)
    → IsHeld item_id db.batches b
    → taken ≤ b.qty_remaining
    → on_hand i (draw b.id taken db).batches + (if item_id == i then taken else 0)
      ≡ on_hand i db.batches
unfolding on_hand draw
on_hand-draw item_id i taken db b (found, same) fits = ground (
  arith,
  sum-update (λ r. r.id) (λ r. if r.item_id == i then r.qty_remaining else 0) b.id (take_from taken)
      db.batches found,
)

module _ (item_id : ℕ) (kind : String) (source : Option SourceId) where
  abbrev pub loop : List ItemBatch → ℕ → StockDb → Drawn
  loop = consume_loop item_id kind source

  moved-movement_of :
      (b : ItemBatch) (t : ℕ) → neg_part (movement_of item_id kind source b t).qty_change ≡ t
  unfolding movement_of
  moved-movement_of b t = ground arith

  -- The tables after one round.
  abbrev pub next : ItemBatch → ℕ → StockDb → StockDb
  next b r db =
      let drawn = draw b.id (min b.qty_remaining r) db in
      record drawn {
        movements =
            drawn.movements ++ movement_of item_id kind source b (min b.qty_remaining r) ∷ [];
      }

  pub loop-moved :
      (bs : List ItemBatch) (r : ℕ) (db : StockDb)
      → moved (loop bs r db).moves + (loop bs r db).remaining ≡ r
  unfolding consume_loop
  loop-moved [] r db = omega arith
  loop-moved (b ∷ bs) r db = elim (Bool-cases (r == 0)) [
    | inl met ↦ rw met (omega arith)
    | inr more ↦ rw more (
        omega (
          arith,
          moved-movement_of b (min b.qty_remaining r),
          loop-moved bs (r - min b.qty_remaining r) (next b r db),
        ))
  ]

  pub loop-remaining :
      (bs : List ItemBatch) (r : ℕ) (db : StockDb) → (loop bs r db).remaining ≡ r - total_left bs
  unfolding consume_loop
  loop-remaining [] r db = omega arith
  loop-remaining (b ∷ bs) r db = elim (Bool-cases (r == 0)) [
    | inl met ↦ rw met (omega (arith, ==→eq r 0 met))
    | inr more ↦
        rw more (omega (arith, loop-remaining bs (r - min b.qty_remaining r) (next b r db)))
  ]

  pub loop-on_hand :
      (i : ℕ) (bs : List ItemBatch) (r : ℕ) (db : StockDb)
      → IsKeyed (λ b. b.id) bs
      → All (IsHeld item_id db.batches) bs
      → on_hand i (loop bs r db).db.batches
          + (if item_id == i then moved (loop bs r db).moves else 0)
        ≡ on_hand i db.batches
  unfolding consume_loop
  loop-on_hand i [] r db keyed held = ground arith
  loop-on_hand i (b ∷ bs) r db (fresh, keyed) (h, hs) = elim (Bool-cases (r == 0)) [
    | inl met ↦ rw met (ground arith)
    | inr more ↦ rw more (
        ground (
          arith,
          moved-movement_of b (min b.qty_remaining r),
          on_hand-draw item_id i (min b.qty_remaining r) db b h,
          loop-on_hand i bs (r - min b.qty_remaining r) (next b r db) keyed
              (IsHeld-draw item_id b.id (min b.qty_remaining r) db bs fresh hs),
        ))
  ]

  -- The loop writes movements at the end, and no table but those two.
  pub loop-db :
      (bs : List ItemBatch) (r : ℕ) (db : StockDb)
      → (loop bs r db).db ≡ record db {
        batches = (loop bs r db).db.batches;
        movements = db.movements ++ (loop bs r db).moves;
      }
  unfolding consume_loop draw
  loop-db [] r db = rw append-nil
  loop-db (b ∷ bs) r db = elim (Bool-cases (r == 0)) [
    | inl met ↦ rw met (rw append-nil)
    | inr more ↦ rw more (loop-db bs (r - min b.qty_remaining r) (next b r db) ∙ rw append_assoc)
  ]

  -- What each batch gives when the older ones before it held `older`: all it has, or what is
  -- still needed, if anything is.
  abbrev pub share : ℕ → ℕ → List ItemBatch → List ItemMovement
  share needed older [] = []
  share needed older (b ∷ bs) =
      if ltb older needed
      then movement_of item_id kind source b (min b.qty_remaining (needed - older))
        ∷ share needed (older + b.qty_remaining) bs
      else []

  pub loop-moves :
      (bs : List ItemBatch) (needed older : ℕ) (db : StockDb)
      → (loop bs (needed - older) db).moves ≡ share needed older bs
  unfolding consume_loop
  loop-moves [] needed older db = refl
  loop-moves (b ∷ bs) needed older db = elim (Bool-cases (ltb older needed)) [
    | inl more ↦
        let some_left : (needed - older == 0) ≡ false = ground arith in
        let rest : needed - older - min b.qty_remaining (needed - older)
            ≡ needed - (older + b.qty_remaining) =
          omega arith in
        rw (more, some_left, rest)
          (ap (λ ms. movement_of item_id kind source b (min b.qty_remaining (needed - older)) ∷ ms)
            (loop-moves bs needed (older + b.qty_remaining) _))
    | inr met ↦ let none_left : (needed - older == 0) ≡ true = ground arith in rw (met, none_left)
  ]
