-- ===== src/Ledger/Balance.antt =====
-- The ledger is in balance: for each item the movements sum up to the quantity on hand, and the
-- item's stored quantity is the quantity on hand. Every operation of the ledger keeps that.
use tgc_bus_core.Base.{
  ℕ, zero, suc, ◌+◌, ◌-◌, ◌≤◌, min, ◌≡◌, ◌≢◌, refl, sym, ap, ◌∙◌, String, true, false, Option, List,
  [], ◌∷◌, ◌++◌, map, arith, ltb, ◌==◌, if◌then◌else◌, sum_by-append, All, Bool-cases, inl, inr,
  ==→eq, ltb→le, ltb→lt,
}
use tgc_bus_core.Base.Int.{ℤ, pos, neg, neg_part, pos_part, ◌+ℤ◌, sum_ℤ, sum_ℤ-append, int_laws}
use tgc_bus_core.Tables.{update_row, IsKeyed}
use tgc_bus_core.Tables.Rows.{IsKeyed-update}
use tgc_bus_core.Effects.{Env}
use tgc_bus_core.StockTables.{Item, ItemBatch, ItemMovement, SourceId, StockDb, StockSession}
use tgc_bus_core.Ledger.{on_hand, add_stored, movement_of, fifo_consume, received, add_batch}
use tgc_bus_core.Ledger.Loop.{moved, share}
use tgc_bus_core.Ledger.Consume.{
  IsClean, queue, fifo_consume_short, fifo_consume_shares, taken_on_hand, moved-share,
}

-- What the movements say of one item.
abbrev pub net : ℕ → List ItemMovement → ℤ
net i = sum_ℤ (λ m. if m.item_id == i then m.qty_change else pos 0)

abbrev pub IsStored : (ℕ → ℕ) → List Item → Type 0
IsStored held = All (λ i. i.qty_stored ≡ pos (held i.id))

pub record IsBalanced (db : StockDb) : Type 0 where
  pub movements : (i : ℕ) → net i db.movements ≡ pos (on_hand i db.batches)
  pub stored : IsStored (λ i. on_hand i db.batches) db.items
  pub items_keyed : IsKeyed (λ (i : Item). i.id) db.items

pub neg-add : (a b c : ℕ) → neg_part (neg a) ≡ b → neg a +ℤ neg c ≡ neg (b + c)
unfolding ◌+ℤ◌
neg-add a b c h = ground arith

pub add-zero_ℤ : (a : ℤ) → a +ℤ pos 0 ≡ a
add-zero_ℤ a = omega int_laws

pub zero-add : (a : ℤ) → pos 0 +ℤ a ≡ a
zero-add a = omega int_laws

module _ (item_id : ℕ) (kind : String) (source : Option SourceId) where
  net-share :
      (i needed older : ℕ) (bs : List ItemBatch)
      → net i (share item_id kind source needed older bs)
        ≡ (if item_id == i then neg (moved (share item_id kind source needed older bs)) else pos 0)
  unfolding movement_of
  net-share i needed older [] = ground arith
  net-share i needed older (b ∷ bs) =
      let taken = min b.qty_remaining (needed - older) in
      let rest = net-share i needed (older + b.qty_remaining) bs in
      elim (Bool-cases (ltb older needed)) [
        | inr met ↦ rw met (ground arith)
        | inl more ↦ elim (Bool-cases (item_id == i)) [
          | inl same ↦
              rw (more, same)
                (ap (λ n. neg taken +ℤ n) (rest ∙ rw same)
                  ∙ neg-add taken (neg_part (neg taken)) _ refl)
          | inr other ↦ rw (more, other) (zero-add _ ∙ rest ∙ rw other)
        ]
      ]

IsStored-same :
    (held held' : ℕ → ℕ) (items : List Item) (id : ℕ)
    → ((i : ℕ) → i ≢ id → held' i ≡ held i)
    → All (λ (i : Item). i.id ≢ id) items
    → IsStored held items
    → IsStored held' items
IsStored-same held held' [] id same _ _ = tt
IsStored-same held held' (q ∷ items) id same (n, ns) (s, ss) =
    (s ∙ ap pos (sym (same q.id n)), IsStored-same held held' items id same ns ss)

-- A change at one item.
pub IsStored-change :
    (item_id : ℕ) (change : ℤ) (held held' : ℕ → ℕ) (items : List Item)
    → ((i : ℕ) → (i == item_id) ≡ false → held' i ≡ held i)
    → pos (held' item_id) ≡ pos (held item_id) +ℤ change
    → IsKeyed (λ (i : Item). i.id) items
    → IsStored held items
    → IsStored held' (
        update_row
          (λ i. i.id)
          item_id
          (λ i. record i { qty_stored = i.qty_stored +ℤ change })
          items)
unfolding update_row
IsStored-change item_id change held held' [] same moved keyed stored = tt
IsStored-change item_id change held held' (q ∷ items) same moved (fresh, keyed) (s, ss) =
    elim (Bool-cases (q.id == item_id)) [
      | inl here ↦ rw here (
        let at : q.id ≡ item_id = ==→eq q.id item_id here in rw (s, at) (sym moved),
        IsStored-same held held' items q.id (λ i n. same i (ground arith)) fresh ss,
      )
      | inr other ↦ rw other (
        s ∙ ap pos (sym (same q.id other)),
        IsStored-change item_id change held held' items same moved keyed ss,
      )
    ]

pub net-append : (i : ℕ) (ms ns : List ItemMovement) → net i (ms ++ ns) ≡ net i ms +ℤ net i ns
net-append i ms ns = sum_ℤ-append (λ m. if m.item_id == i then m.qty_change else pos 0) ms ns

-- New movements and batches that agree, and the change of the item's stored quantity.
balance-change :
    (item_id : ℕ) (change : ℤ) (db db' : StockDb) (new : List ItemMovement)
    → IsBalanced db
    → db'.movements ≡ db.movements ++ new
    → db'.items ≡ (add_stored item_id change db).items
    → ((i : ℕ) → net i new ≡ (if item_id == i then change else pos 0))
    → ((i : ℕ)
        → pos (on_hand i db'.batches)
          ≡ pos (on_hand i db.batches) +ℤ (if item_id == i then change else pos 0))
    → IsBalanced db'
unfolding add_stored
balance-change item_id change db db' new b moves items net_new held = record {
  movements =
      λ i. rw (moves, net-append i db.movements new, b.movements i, net_new i) (sym (held i));
  stored =
      (rw items (
        IsStored-change item_id change (λ i. on_hand i db.batches) (λ i. on_hand i db'.batches)
          db.items same (rw self at (held item_id)) b.items_keyed b.stored));
  items_keyed =
      rw items (IsKeyed-update (λ (i : Item). i.id) item_id _ db.items (λ i. refl) b.items_keyed);
}
  where
    self : (item_id == item_id) ≡ true
    self = ground arith

    same : (i : ℕ) → (i == item_id) ≡ false → on_hand i db'.batches ≡ on_hand i db.batches
    same i n =
        let flip : (item_id == i) ≡ false = ground arith in
        let e : pos (on_hand i db'.batches) ≡ pos (on_hand i db.batches) +ℤ pos 0 =
          rw flip at (held i) in
        ap pos_part (e ∙ add-zero_ℤ (pos (on_hand i db.batches)))

pub sub-pos : (a b c : ℕ) → a + c ≡ b → pos a ≡ pos b +ℤ neg c
unfolding ◌+ℤ◌
sub-pos a b c h = ground arith

-- From a clean session in balance, consumption keeps the balance, whether it succeeds or raises.
pub fifo_consume-IsBalanced :
    (item_id : ℕ) (kind : String) (source : Option SourceId) (qty : ℕ) (s : StockSession)
    → IsClean s
    → IsBalanced s.rows
    → IsBalanced (fifo_consume item_id kind source qty s).1.rows
fifo_consume-IsBalanced item_id kind source zero s clean b = unfold fifo_consume in b
fifo_consume-IsBalanced item_id kind source (suc n) s clean b =
    elim (Bool-cases (ltb (on_hand item_id s.rows.batches) (suc n))) [
      | inl short ↦ rw (fifo_consume_short item_id kind source (suc n) s clean (ltb→lt _ _ short)) b
      | inr enough ↦ taken (ltb→le _ _ enough)
    ]
  where
    qty : ℕ
    qty = suc n

    new : List ItemMovement
    new = share item_id kind source qty 0 (queue item_id s.rows.batches)

    held :
        (i : ℕ)
        → qty ≤ on_hand item_id s.rows.batches
        → pos (on_hand i (fifo_consume item_id kind source qty s).1.rows.batches)
          ≡ pos (on_hand i s.rows.batches) +ℤ (if item_id == i then neg qty else pos 0)
    held i h =
        let left = taken_on_hand item_id kind source qty s clean h i (omega arith) in
        elim (Bool-cases (item_id == i)) [
          | inl same ↦ rw same (sub-pos _ _ qty (rw same at left))
          | inr other ↦ rw other (sub-pos _ _ 0 (rw other at left))
        ]

    taken :
        qty ≤ on_hand item_id s.rows.batches
        → IsBalanced (fifo_consume item_id kind source qty s).1.rows
    taken h =
        let takes = fifo_consume_shares item_id kind source qty s clean h (omega arith) in
        balance-change item_id (neg qty) s.rows (fifo_consume item_id kind source qty s).1.rows new
          b takes.2 takes.3
          (λ i.
            net-share item_id kind source i qty 0 (queue item_id s.rows.batches)
            ∙ ap (λ m. if item_id == i then neg m else pos 0)
                (moved-share item_id kind source qty s clean h))
          (λ i. held i h)

pub on_hand-append :
    (i : ℕ) (bs cs : List ItemBatch) → on_hand i (bs ++ cs) ≡ on_hand i bs + on_hand i cs
unfolding on_hand
on_hand-append i bs cs = sum_by-append (λ b. if b.item_id == i then b.qty_remaining else 0) bs cs

pub add-pos : (a b c : ℕ) → a ≡ b + c → pos a ≡ pos b +ℤ pos c
unfolding ◌+ℤ◌
add-pos a b c h = ground arith

module _ (env : Env) (item_id qty cost : ℕ) (kind : String) (source : Option SourceId)
    (s : StockSession) where
  -- A new batch raises what is on hand of its item by its quantity, and of no other item.
  pub add_batch_on_hand :
      (i : ℕ)
      → on_hand i (add_batch env item_id qty cost kind source s).1.rows.batches
        ≡ on_hand i s.rows.batches + (if item_id == i then qty else 0)
  unfolding add_batch add_stored
  add_batch_on_hand i = elim (Bool-cases (qty == 0)) [
    | inl nothing ↦ rw nothing (ground arith)
    | inr more ↦ rw more (on_hand-append i s.rows.batches _ ∙ (unfold on_hand in ground arith))
  ]

  -- A new batch keeps the balance.
  pub add_batch-IsBalanced :
      IsBalanced s.rows → IsBalanced (add_batch env item_id qty cost kind source s).1.rows
  add_batch-IsBalanced b = elim (Bool-cases (qty == 0)) [
    | inl nothing ↦ unfold add_batch in rw nothing b
    | inr more ↦
        balance-change item_id (pos qty) s.rows _ new b
          (unfold add_batch add_stored in rw more refl)
          (unfold add_batch add_stored in rw more refl) (λ i. unfold received in add-zero_ℤ _)
          (λ i. held i)
  ]
    where
      new : List ItemMovement
      new =
          received item_id (env.next_id (map (λ b. b.id) s.rows.batches)) qty cost kind source ∷ []

      held :
          (i : ℕ)
          → pos (on_hand i (add_batch env item_id qty cost kind source s).1.rows.batches)
            ≡ pos (on_hand i s.rows.batches) +ℤ (if item_id == i then pos qty else pos 0)
      held i = elim (Bool-cases (item_id == i)) [
        | inl same ↦ rw same (add-pos _ _ qty (rw same at (add_batch_on_hand i)))
        | inr other ↦ rw other (add-pos _ _ 0 (rw other at (add_batch_on_hand i)))
      ]
