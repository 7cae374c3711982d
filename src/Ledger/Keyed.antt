-- ===== src/Ledger/Keyed.antt =====
-- The ledger keeps the keys of batches apart.
use tgc_bus_core.Base.{
  ℕ, ◌-◌, min, refl, String, Option, List, [], ◌∷◌, ltb, ◌==◌, Bool-cases, inl, inr,
}
use tgc_bus_core.Tables.{IsKeyed}
use tgc_bus_core.Tables.Rows.{IsKeyed-update, IsKeyed-append}
use tgc_bus_core.Effects.{Env, GivesFreshKeys}
use tgc_bus_core.Effects.Keeps.{Keeps, keeps_rules}
use tgc_bus_core.StockTables.{ItemBatch, SourceId, StockDb, StockSession}
use tgc_bus_core.Ledger.{
  draw, take_from, consume_loop, finish_consume, on_hand_qty, add_stored, fifo_consume, add_batch,
}

abbrev pub HasKeyedBatches : StockDb → Type 0
HasKeyedBatches db = IsKeyed (λ (b : ItemBatch). b.id) db.batches

abbrev pub Keyed : StockSession → Type 0
Keyed s = HasKeyedBatches s.rows

module _ (item_id : ℕ) (kind : String) (source : Option SourceId) where
  consume_loop-Keyed :
      (bs : List ItemBatch) (n : ℕ) (db : StockDb)
      → HasKeyedBatches db
      → HasKeyedBatches (consume_loop item_id kind source bs n db).db
  unfolding consume_loop draw
  consume_loop-Keyed [] n db h = h
  consume_loop-Keyed (b ∷ bs) n db h = elim (Bool-cases (n == 0)) [
    | inl done ↦ rw done h
    | inr more ↦
        let taken = min b.qty_remaining n in
        rw more (
          consume_loop-Keyed bs (n - taken) _ (
            IsKeyed-update (λ (b : ItemBatch). b.id) b.id (take_from taken) db.batches (λ o. refl)
              h))
  ]

  Keyed-finish_consume :
      (qty avail : ℕ) (bs : List ItemBatch)
      → Keeps Keyed (finish_consume item_id kind source qty avail bs)
  unfolding finish_consume add_stored
  Keyed-finish_consume qty avail bs = record {
    at = λ s h.
        let drawn = consume_loop item_id kind source bs qty s.rows in
        let k = consume_loop-Keyed bs qty s.rows h in
        elim (Bool-cases (ltb 0 drawn.remaining)) [
          | inl short ↦ rw short k
          | inr enough ↦ rw enough k
        ];
  }

  pub Keyed-fifo_consume : (qty : ℕ) → Keeps Keyed (fifo_consume item_id kind source qty)
  unfolding fifo_consume on_hand_qty
  Keyed-fifo_consume qty = search (keeps_rules, Keyed-finish_consume) depth 12

pub Keyed-add_batch :
    (env : Env)
    → GivesFreshKeys env
    → (item_id qty cost : ℕ) (kind : String) (source : Option SourceId)
    → Keeps Keyed (add_batch env item_id qty cost kind source)
unfolding add_batch add_stored
Keyed-add_batch env new item_id qty cost kind source = elim (Bool-cases (qty == 0)) [
  | inl nothing ↦ rw nothing (record { at = λ s h. h })
  | inr more ↦
      rw more
        (record { at = λ s h. IsKeyed-append (λ (b : ItemBatch). b.id) s.rows.batches _ (new _) h })
]
