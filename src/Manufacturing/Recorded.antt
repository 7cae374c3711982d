-- ===== src/Manufacturing/Recorded.antt =====
-- The first steps of a run: its row, the allocations' movements.
use tgc_bus_core.Base.{ℕ, ◌+◌, ◌≡◌, refl, sym, ap, ◌∙◌, arith, List, [], ◌∷◌, ◌++◌, map}
use mathlib.Core.List.{append_assoc, append-nil, map-append}
use tgc_bus_core.Base.Int.{ℤ}
use tgc_bus_core.Tables.{find_row}
use tgc_bus_core.Effects.{http, Action, Env, lift, write, gets, or_raise, ◌>>=◌}
use tgc_bus_core.Effects.Keeps.{keeps_rules}
use tgc_bus_core.Effects.Gives.{Gives, Gives-of, Gives-bind, Gives-pure}
use tgc_bus_core.StockTables.{StockDb, StockSession}
use tgc_bus_core.Ledger.{on_hand}
use tgc_bus_core.Ledger.Consume.{IsClean}
use tgc_bus_core.Manufacturing.{Allocation, RunRequest}
use tgc_bus_core.Manufacturing.Slices.{allocated}
use tgc_bus_core.Manufacturing.Drawn.{IsDrawn}
use tgc_bus_core.Manufacturing.Execute.{
  used, cost_cents_for_base_qty, record_input, record_inputs, start_run,
}

-- From a session that is clean: the run's row is written, and nothing of the ledger.
pub start_run-Gives :
    (env : Env) (body : RunRequest) (output : ℕ) (qty : ℤ) (s0 : StockSession)
    → IsClean s0
    → Gives (λ s. s ≡ s0) (λ run_id. IsDrawn s0.rows []) (start_run env body output qty)
unfolding start_run
start_run-Gives env body output qty s0 clean = record {
  at = λ s a e h. rw e (record {
    keyed = clean.keyed;
    owners = λ k. refl;
    movements = refl;
    items = refl;
    left = λ i. omega arith;
  });
}

-- Of the allocations, those in `done` have their movements.
pub record IsRecorded (d0 : StockDb) (run_id : ℕ) (slices done : List Allocation) (s : StockSession)
    : Type 0 where
  pub movements : s.rows.movements ≡ d0.movements ++ map (used run_id) done
  pub items : s.rows.items ≡ d0.items
  pub left : (i : ℕ) → on_hand i s.rows.batches + allocated i slices ≡ on_hand i d0.batches

record_movement-Gives :
    (d0 : StockDb) (run_id : ℕ) (slices done : List Allocation) (a : Allocation)
    → Gives
        (IsRecorded d0 run_id slices done)
        (λ (u : Unit {0}). IsRecorded d0 run_id slices (done ++ a ∷ []))
        (write (λ (db : StockDb). record db { movements = db.movements ++ used run_id a ∷ [] }))
record_movement-Gives d0 run_id slices done a = record {
  at = λ s u p h. record {
    movements =
        ap (λ ms. ms ++ used run_id a ∷ []) p.movements
        ∙ append_assoc d0.movements (map (used run_id) done) (used run_id a ∷ [])
        ∙ ap (λ ms. d0.movements ++ ms) (sym (map-append (used run_id) done (a ∷ [])));
    items = p.items;
    left = p.left;
  };
}

-- What follows the movement.
abbrev cost_of : Allocation → Action StockSession ℕ
cost_of a = do
  found ← gets (λ s. find_row (λ i. i.id) a.item_id s.rows.items)
  item ← or_raise found (http 404 "item_not_found")
  lift (cost_cents_for_base_qty a.unit_cost_cents a.qty item)

record_input-Gives :
    (d0 : StockDb) (run_id : ℕ) (slices done : List Allocation) (a : Allocation)
    → Gives
        (IsRecorded d0 run_id slices done)
        (λ cost. IsRecorded d0 run_id slices (done ++ a ∷ []))
        (record_input run_id a)
unfolding record_input
record_input-Gives d0 run_id slices done a =
    Gives-bind _ _ (record_movement-Gives d0 run_id slices done a)
      (λ u. Gives-of (cost_of a) (search keeps_rules depth 9))

pub record_inputs-Gives :
    (d0 : StockDb) (run_id : ℕ) (slices done rest : List Allocation)
    → Gives
        (IsRecorded d0 run_id slices done)
        (λ cost. IsRecorded d0 run_id slices (done ++ rest))
        (record_inputs run_id rest)
unfolding record_inputs
record_inputs-Gives d0 run_id slices done [] = Gives-pure 0 (λ s h. rw (append-nil done) h)
record_inputs-Gives d0 run_id slices done (a ∷ rest) =
    Gives-bind _ _ (record_input-Gives d0 run_id slices done a) (λ cost.
      Gives-bind _ _ (record_inputs-Gives d0 run_id slices (done ++ a ∷ []) rest)
        (λ more. Gives-pure (cost + more) (λ s h. rw (sym (append_assoc done (a ∷ []) rest)) h)))
