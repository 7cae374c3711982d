-- ===== src/Manufacturing/Drawn.antt =====
-- What `fifo.allocate` takes from the batches, also where earlier allocations are not flushed yet.
use tgc_bus_core.Base.{
  ℕ, ◌+◌, ◌≡◌, ◌≢◌, refl, sym, ap, ◌∙◌, arith, true, ◌&&◌, none, some, List, [], ◌∷◌, ◌++◌, map,
  ltb, ◌==◌, if◌then◌else◌, All, sum_by, sum_by-append, Bool-cases, Option-cases, inl, inr,
}
use mathlib.Core.List.{append-nil, append_assoc}
use tgc_bus_core.Base.Int.{ℤ-cases}
use tgc_bus_core.Tables.{find_row, current, IsKeyed}
use tgc_bus_core.Tables.Rows.{find_row-key}
use tgc_bus_core.Tables.Order.{All-order_by, All-kept}
use tgc_bus_core.Effects.{Action, pure, ok}
use tgc_bus_core.Effects.Gives.{Gives, Gives-bind, Gives-gets, Gives-pure, Gives-if}
use tgc_bus_core.StockTables.{ItemBatch, StockDb, StockSession}
use tgc_bus_core.Ledger.{on_hand, on_hand_qty, batch_before, open_batches}
use tgc_bus_core.Ledger.Loop.{IsHeld}
use tgc_bus_core.Ledger.Consume.{queue, queue-found, queue-IsKeyed, is_open}
use tgc_bus_core.Manufacturing.{Allocation, allocate_loop, allocate, Required}
use tgc_bus_core.Manufacturing.Execute.{allocate_component, allocate_all}
use tgc_bus_core.Manufacturing.Slices.{allocated, owner, loop-owner, loop-left, loop-db}

-- The allocations `slices` are taken from what `d0` had, and nothing else is changed but what
-- does not belong to the ledger.
pub record IsDrawn (d0 : StockDb) (slices : List Allocation) (s : StockSession) : Type 0 where
  pub keyed : IsKeyed (λ (b : ItemBatch). b.id) s.flushed.batches
  pub owners : (k : ℕ) → owner k s.rows.batches ≡ owner k s.flushed.batches
  pub movements : s.rows.movements ≡ d0.movements
  pub items : s.rows.items ≡ d0.items
  pub left : (i : ℕ) → on_hand i s.rows.batches + allocated i slices ≡ on_hand i d0.batches

current-key : (rows : List ItemBatch) (b : ItemBatch) → (current (λ b. b.id) rows b).id ≡ b.id
unfolding current
current-key rows b = elim (Option-cases (find_row (λ (b : ItemBatch). b.id) b.id rows)) [
  | inl absent ↦ rw absent refl
  | inr (r, found) ↦ rw found (find_row-key (λ (b : ItemBatch). b.id) b.id rows found)
]

All-current :
    (rows rest : List ItemBatch) (k : ℕ)
    → All (λ b. b.id ≢ k) rest
    → All (λ b. b.id ≢ k) (map (current (λ b. b.id) rows) rest)
All-current rows [] k _ = tt
All-current rows (b ∷ rest) k (n, ns) = (rw (current-key rows b) n, All-current rows rest k ns)

IsKeyed-current :
    (rows rest : List ItemBatch)
    → IsKeyed (λ b. b.id) rest
    → IsKeyed (λ b. b.id) (map (current (λ b. b.id) rows) rest)
IsKeyed-current rows [] _ = tt
IsKeyed-current rows (b ∷ rest) (fresh, keyed) =
    (rw (current-key rows b) (All-current rows rest b.id fresh), IsKeyed-current rows rest keyed)

-- An open batch that is flushed is held, as it is now, by the item.
current-IsHeld :
    (item_id : ℕ) (rows flushed : List ItemBatch) (b : ItemBatch)
    → owner b.id rows ≡ owner b.id flushed
    → find_row (λ b. b.id) b.id flushed ≡ some b
    → is_open item_id b ≡ true
    → IsHeld item_id rows (current (λ b. b.id) rows b)
unfolding current
current-IsHeld item_id rows flushed b same found opened =
    elim (Option-cases (find_row (λ (b : ItemBatch). b.id) b.id rows)) [
      | inl absent ↦ let no : none ≡ some b.item_id = rw (absent, found) at same in cc
      | inr (r, here) ↦
          let e : some r.item_id ≡ some b.item_id = rw (here, found) at same in
          let key : r.id ≡ b.id = find_row-key (λ (b : ItemBatch). b.id) b.id rows here in
          let of_item : b.item_id ≡ item_id = ground arith in
          let owned : r.item_id ≡ b.item_id = cc in
          rw here (ap (λ k. find_row (λ (b : ItemBatch). b.id) k rows) key ∙ here, owned ∙ of_item)
    ]

All-IsHeld :
    (item_id : ℕ) (rows flushed rest : List ItemBatch)
    → ((k : ℕ) → owner k rows ≡ owner k flushed)
    → All (λ b. find_row (λ b. b.id) b.id flushed ≡ some b) rest
    → All (λ b. is_open item_id b ≡ true) rest
    → All (IsHeld item_id rows) (map (current (λ b. b.id) rows) rest)
All-IsHeld item_id rows flushed [] same _ _ = tt
All-IsHeld item_id rows flushed (b ∷ rest) same (f, fs) (o, os) = (
  current-IsHeld item_id rows flushed b (same b.id) f o,
  All-IsHeld item_id rows flushed rest same fs os,
)

allocated-append :
    (i : ℕ) (xs ys : List Allocation) → allocated i (xs ++ ys) ≡ allocated i xs + allocated i ys
allocated-append i xs ys =
    sum_by-append (λ (a : Allocation). if a.item_id == i then a.qty else 0) xs ys

-- One allocation, on top of others.
allocated-IsDrawn :
    (d0 : StockDb) (slices : List Allocation) (item_id qty : ℕ) (s : StockSession)
    → IsDrawn d0 slices s
    → let out = allocate_loop item_id (open_batches item_id s) qty s.rows in
      IsDrawn d0 (slices ++ out.slices) (record s { rows = out.db })
unfolding open_batches
allocated-IsDrawn d0 slices item_id qty s h =
    let batches = open_batches item_id s in
    let out = allocate_loop item_id batches qty s.rows in
    let open_now = queue item_id s.flushed.batches in
    let held : All (IsHeld item_id s.rows.batches) batches =
      All-IsHeld item_id s.rows.batches s.flushed.batches open_now h.owners
        (queue-found item_id s.flushed.batches h.keyed)
        (All-order_by batch_before (λ b. is_open item_id b ≡ true) _
          (All-kept (is_open item_id) s.flushed.batches)) in
    let keyed : IsKeyed (λ (b : ItemBatch). b.id) batches =
      IsKeyed-current s.rows.batches open_now (queue-IsKeyed item_id s.flushed.batches h.keyed) in
    record {
      keyed = h.keyed;
      owners = λ k. loop-owner item_id k batches qty s.rows ∙ h.owners k;
      movements =
          ap (λ (d : StockDb). d.movements) (loop-db item_id batches qty s.rows) ∙ h.movements;
      items = ap (λ (d : StockDb). d.items) (loop-db item_id batches qty s.rows) ∙ h.items;
      left = λ i. omega (
        arith,
        allocated-append i slices out.slices,
        h.left i,
        loop-left item_id i batches qty s.rows keyed held,
      );
    }

module _ (d0 : StockDb) (slices : List Allocation) where
  -- What an action allocates comes on top.
  abbrev pub Allocates : Action StockSession (List Allocation) → Type 0
  Allocates = Gives (IsDrawn d0 slices) (λ more. IsDrawn d0 (slices ++ more))

  nothing-Allocates : Allocates (pure [])
  nothing-Allocates = Gives-pure [] (λ s h. rw (append-nil slices) h)

  allocate-Allocates : (item_id qty : ℕ) → Allocates (allocate item_id qty)
  unfolding allocate
  allocate-Allocates item_id qty = elim (Bool-cases (qty == 0)) [
    | inl nothing ↦ rw nothing nothing-Allocates
    | inr more ↦ rw more (record {
      at = λ s a p h.
          let batches = open_batches item_id s in
          elim (Bool-cases (ltb (sum_by (λ (b : ItemBatch). b.qty_remaining) batches) qty)) [
            | inl short ↦ let no = rw short at h in cc
            | inr enough ↦
                let e : ok (allocate_loop item_id batches qty s.rows).slices ≡ ok a =
                  rw enough at h in
                let same : (allocate_loop item_id batches qty s.rows).slices ≡ a = cc in
                rw enough (rw (sym same) (allocated-IsDrawn d0 slices item_id qty s p))
          ];
    })
  ]

  on_hand_qty-keeps :
      (item_id : ℕ)
      → Gives (IsDrawn d0 slices) (λ held s. IsDrawn d0 slices s) (on_hand_qty item_id)
  unfolding on_hand_qty
  on_hand_qty-keeps item_id = Gives-gets _

  component-Allocates : (r : Required) → Allocates (allocate_component r)
  unfolding allocate_component
  component-Allocates r = elim (ℤ-cases r.required_base) [
    | inr (n, negative) ↦ rw negative nothing-Allocates
    | inl (n, needed) ↦ rw needed (elim (Bool-cases (n == 0)) [
      | inl nothing ↦ rw nothing nothing-Allocates
      | inr more ↦ rw more (
          Gives-bind (on_hand_qty r.item_id) _ (on_hand_qty-keeps r.item_id) (λ held.
            Gives-if (r.is_optional && ltb held n) _ _ nothing-Allocates
              (allocate-Allocates r.item_id n)))
    ])
  ]

-- All the allocations of a run.
pub allocate_all-Allocates :
    (d0 : StockDb) (rs : List Required) (slices : List Allocation)
    → Allocates d0 slices (allocate_all rs)
unfolding allocate_all
allocate_all-Allocates d0 [] slices = nothing-Allocates d0 slices
allocate_all-Allocates d0 (r ∷ rs) slices =
    Gives-bind _ _ (component-Allocates d0 slices r) (λ taken.
      Gives-bind _ _ (allocate_all-Allocates d0 rs (slices ++ taken))
        (λ rest. Gives-pure (taken ++ rest) (λ s h. rw (sym (append_assoc slices taken rest)) h)))
