-- ===== src/Manufacturing/Keyed.antt =====
-- core/manufacturing/service.py: a run keeps the keys of batches apart.
use tgc_bus_core.Base.{
  ℕ, ◌-◌, min, refl, List, [], ◌∷◌, map, sum_by, if◌then◌else◌, ltb, ◌==◌, Bool-cases, inl, inr,
}
use tgc_bus_core.Base.Int.{ℤ}
use tgc_bus_core.Tables.Rows.{IsKeyed-update, IsKeyed-append}
use tgc_bus_core.Effects.{Env, GivesFreshKeys}
use tgc_bus_core.Effects.Keeps.{Keeps}
use tgc_bus_core.StockTables.{ItemBatch, StockDb}
use tgc_bus_core.Ledger.{draw, take_from, open_batches, add_stored}
use tgc_bus_core.Ledger.Keyed.{HasKeyedBatches, Keyed}
use tgc_bus_core.Manufacturing.{Allocation, RunRequest, allocate_loop, allocate}
use tgc_bus_core.Manufacturing.Consumed.{store_consumed-db}
use tgc_bus_core.Manufacturing.Execute.{start_run, finish_run, produced, consumed_of}
use tgc_bus_core.Manufacturing.Stable.{record_movement, IsRunStable}

-- Nothing is drawn of an empty batch.
abbrev drawn : ItemBatch → ℕ → StockDb → StockDb
drawn b taken db = if taken == 0 then db else draw b.id taken db

drawn-Keyed :
    (b : ItemBatch) (taken : ℕ) (db : StockDb)
    → HasKeyedBatches db
    → HasKeyedBatches (drawn b taken db)
unfolding draw
drawn-Keyed b taken db h = elim (Bool-cases (taken == 0)) [
  | inl nothing ↦ rw nothing h
  | inr some_taken ↦
      rw some_taken
        (IsKeyed-update (λ (b : ItemBatch). b.id) b.id (take_from taken) db.batches (λ o. refl) h)
]

allocate_loop-Keyed :
    (item_id : ℕ) (bs : List ItemBatch) (n : ℕ) (db : StockDb)
    → HasKeyedBatches db
    → HasKeyedBatches (allocate_loop item_id bs n db).db
unfolding allocate_loop
allocate_loop-Keyed item_id [] n db h = h
allocate_loop-Keyed item_id (b ∷ bs) n db h =
    let taken = min b.qty_remaining n in
    let rest =
      allocate_loop-Keyed item_id bs (n - taken) (drawn b taken db) (drawn-Keyed b taken db h) in
    elim (Bool-cases (n == 0)) [
      | inl done ↦ rw done h
      | inr more ↦ elim (Bool-cases (taken == 0)) [
        | inl nothing ↦ rw (more, nothing) (rw nothing at rest)
        | inr some_taken ↦ rw (more, some_taken) (rw some_taken at rest)
      ]
    ]

Keyed-allocate : (item_id qty : ℕ) → Keeps Keyed (allocate item_id qty)
unfolding allocate
Keyed-allocate item_id qty = elim (Bool-cases (qty == 0)) [
  | inl nothing ↦ rw nothing (record { at = λ s h. h })
  | inr more ↦ rw more (record {
    at = λ s h.
        elim (Bool-cases
          (ltb (sum_by (λ (b : ItemBatch). b.qty_remaining) (open_batches item_id s)) qty)) [
            | inl short ↦ rw short h
            | inr enough ↦
                rw enough (allocate_loop-Keyed item_id (open_batches item_id s) qty s.rows h)
          ];
  })
]

Keyed-finish_run :
    (env : Env)
    → GivesFreshKeys env
    → (body : RunRequest) (output_item_id : ℕ) (output_qty : ℤ) (run_id : ℕ)
      (allocations : List Allocation) (qty cost per : ℕ)
    → Keeps Keyed (finish_run env body output_item_id output_qty run_id allocations qty cost per)
unfolding finish_run add_stored produced
Keyed-finish_run env new body output_item_id output_qty run_id allocations qty cost per = record {
  at = λ s h.
      let id = env.next_id (map (λ (b : ItemBatch). b.id) s.rows.batches) in
      let appended =
        IsKeyed-append (λ (b : ItemBatch). b.id) s.rows.batches
          (produced env run_id output_item_id qty per id) (new _) h in
      rw (store_consumed-db (consumed_of [] allocations) _) appended;
}

pub Keyed-run : (env : Env) → GivesFreshKeys env → IsRunStable env Keyed
unfolding start_run record_movement
Keyed-run env new = record {
  starts = λ body output_item_id output_qty. record { at = λ s h. h };
  draws = Keyed-allocate;
  uses = λ run_id a. record { at = λ s h. h };
  ends = Keyed-finish_run env new;
}
