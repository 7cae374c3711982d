-- ===== src/Manufacturing/Slices.antt =====
-- What the loop of `fifo.allocate` takes from batches that are held.
use tgc_bus_core.Base.{
  ℕ, ◌+◌, ◌-◌, min, ◌≡◌, refl, ◌∙◌, arith, Option, none, some, List, [], ◌∷◌, ◌==◌, ==→eq,
  if◌then◌else◌, All, sum_by, Bool-cases, Option-cases, inl, inr,
}
use tgc_bus_core.Tables.{find_row, IsKeyed}
use tgc_bus_core.Tables.Rows.{find_row-update_ne, find_row-update_self, update_row-absent}
use tgc_bus_core.StockTables.{ItemBatch, StockDb}
use tgc_bus_core.Ledger.{on_hand, draw, take_from}
use tgc_bus_core.Ledger.Loop.{IsHeld, IsHeld-draw, on_hand-draw}
use tgc_bus_core.Manufacturing.{Allocation, slice_of, allocate_loop}

-- What the slices take of one item.
abbrev pub allocated : ℕ → List Allocation → ℕ
allocated i = sum_by (λ a. if a.item_id == i then a.qty else 0)

abbrev pub owner_of : Option ItemBatch → Option ℕ
owner_of none = none
owner_of (some b) = some b.item_id

-- The item of the batch with a key.
abbrev pub owner : ℕ → List ItemBatch → Option ℕ
owner k batches = owner_of (find_row (λ b. b.id) k batches)

owner-draw :
    (k id taken : ℕ) (db : StockDb) → owner k (draw id taken db).batches ≡ owner k db.batches
unfolding draw
owner-draw k id taken db = elim (Option-cases (find_row (λ (b : ItemBatch). b.id) id db.batches)) [
  | inl absent ↦
      rw (update_row-absent (λ (b : ItemBatch). b.id) id (take_from taken) db.batches absent) refl
  | inr (b, found) ↦ elim (Bool-cases (k == id)) [
    | inl same ↦
        let e : k ≡ id = ==→eq k id same in
        rw
          (
            e,
            find_row-update_self (λ (b : ItemBatch). b.id) id (take_from taken) db.batches
                (λ o. refl) found,
            found,
          )
          refl
    | inr other ↦
        rw
          (find_row-update_ne (λ (b : ItemBatch). b.id) k id (take_from taken) db.batches
            (λ o. refl) (λ e. ground arith))
          refl
  ]
]

module _ (item_id : ℕ) where
  pub loop-owner :
      (k : ℕ) (bs : List ItemBatch) (r : ℕ) (db : StockDb)
      → owner k (allocate_loop item_id bs r db).db.batches ≡ owner k db.batches
  unfolding allocate_loop
  loop-owner k [] r db = refl
  loop-owner k (b ∷ bs) r db = elim (Bool-cases (r == 0)) [
    | inl met ↦ rw met refl
    | inr more ↦ elim (Bool-cases (min b.qty_remaining r == 0)) [
      | inl nothing ↦ rw (more, nothing) (loop-owner k bs (r - min b.qty_remaining r) db)
      | inr taken ↦
          rw (more, taken)
            (loop-owner k bs (r - min b.qty_remaining r) (draw b.id (min b.qty_remaining r) db)
              ∙ owner-draw k b.id (min b.qty_remaining r) db)
    ]
  ]

  pub loop-left :
      (i : ℕ) (bs : List ItemBatch) (r : ℕ) (db : StockDb)
      → IsKeyed (λ b. b.id) bs
      → All (IsHeld item_id db.batches) bs
      → on_hand i (allocate_loop item_id bs r db).db.batches
          + allocated i (allocate_loop item_id bs r db).slices
        ≡ on_hand i db.batches
  unfolding allocate_loop slice_of
  loop-left i [] r db keyed held = ground arith
  loop-left i (b ∷ bs) r db (fresh, keyed) (h, hs) = elim (Bool-cases (r == 0)) [
    | inl met ↦ rw met (ground arith)
    | inr more ↦ elim (Bool-cases (min b.qty_remaining r == 0)) [
      | inl nothing ↦ rw (more, nothing) (loop-left i bs (r - min b.qty_remaining r) db keyed hs)
      | inr taken ↦
          rw (more, taken)
            (ground (
              arith,
              on_hand-draw item_id i (min b.qty_remaining r) db b h,
              loop-left i bs (r - min b.qty_remaining r) (draw b.id (min b.qty_remaining r) db)
                  keyed (IsHeld-draw item_id b.id (min b.qty_remaining r) db bs fresh hs),
            ))
    ]
  ]

  pub loop-db :
      (bs : List ItemBatch) (r : ℕ) (db : StockDb)
      → (allocate_loop item_id bs r db).db
        ≡ record db { batches = (allocate_loop item_id bs r db).db.batches }
  unfolding allocate_loop draw
  loop-db [] r db = refl
  loop-db (b ∷ bs) r db = elim (Bool-cases (r == 0)) [
    | inl met ↦ rw met refl
    | inr more ↦ elim (Bool-cases (min b.qty_remaining r == 0)) [
      | inl nothing ↦ rw (more, nothing) (loop-db bs (r - min b.qty_remaining r) db)
      | inr taken ↦
          rw (more, taken)
            (loop-db bs (r - min b.qty_remaining r) (draw b.id (min b.qty_remaining r) db))
    ]
  ]
