-- ===== src/ManufactureRoutes/Ends.antt =====
-- core/api/routes/manufacturing.py: what the request of a run leaves in the database.
use tgc_bus_core.Base.{ℕ, ◌≡◌, refl, ap, inl, inr, List, [], ◌∷◌, ◌++◌, All}
use tgc_bus_core.Effects.{
  Error, Result, ok, err, Result-cases, Action, Env, GivesFreshKeys, lift, fresh, ◌>>=◌,
}
use tgc_bus_core.Effects.Keeps.{Keeps, Keeps-lift, Reads-bind, keeps_rules}
use tgc_bus_core.StockTables.{ManufacturingRun, StockDb, StockSession}
use tgc_bus_core.Manufacturing.{RunRequest, RunShortage, Validated, validate_run}
use tgc_bus_core.Manufacturing.Execute.{RunResult, execute_run_txn}
use tgc_bus_core.Manufacturing.Stable.{Keeps-execute_run, Keeps-validate_run}
use tgc_bus_core.Manufacturing.Transaction.{execute_run_txn_rolls_back, execute_run_txn_commits}
use tgc_bus_core.Manufacturing.Balance.{execute_run_txn-IsBalanced}
use tgc_bus_core.Manufacturing.Keyed.{Keyed-run}
use tgc_bus_core.Ledger.Consume.{IsClean}
use tgc_bus_core.StockRoutes.Serve.{IsSound}
use tgc_bus_core.QuantityGuard.{Json}
use tgc_bus_core.ManufactureRoutes.{
  check_payload, canonical_manufacture, checked_output, no_hook, run_or_refuse, attempt, answer_run,
  attempt_answered, execute_manufacture,
}
use tgc_bus_core.ManufactureRoutes.Failing.{
  HasFailed, Failing, Failing-fresh, Keeps-checked_output, Failing-refuse_short,
  Failing-answer_error,
}

-- A raise leaves the database so, and a return leaves it sound.
module _ (env : Env) (d : StockDb) where
  abbrev Ends : {A : Type 0} → Result A → StockSession → Type 0
  Ends (ok a) t = GivesFreshKeys env → IsSound d → IsSound t.committed
  Ends (err e) t = Failing d t

  abbrev EndsFrom : {A : Type 0} → Action StockSession A → StockSession → Type 0
  EndsFrom m s = Ends (m s).0 (m s).1

  pub IsSound-runs : (runs : List ManufacturingRun) → IsSound d → IsSound (record d { runs = runs })
  IsSound-runs runs h = record {
    balanced = record {
      movements = h.balanced.movements;
      stored = h.balanced.stored;
      items_keyed = h.balanced.items_keyed;
    };
    keyed = h.keyed;
  }

  Failing-IsSound : (t : StockSession) → Failing d t → IsSound d → IsSound t.committed
  Failing-IsSound t h sound = rw h.same (IsSound-runs (d.runs ++ h.failed) sound)

  Ends-of : {A : Type 0} (r : Result A) (t : StockSession) → Failing d t → Ends r t
  Ends-of (ok a) t h = λ new. Failing-IsSound t h
  Ends-of (err e) t h = h

  -- What only reads, before another action.
  Ends-bind :
      {A B : Type 0} (m : Action StockSession A) (f : A → Action StockSession B) (s : StockSession)
      → Failing d s
      → Keeps (λ t. t ≡ s) m
      → ((a : A) → EndsFrom (f a) s)
      → EndsFrom (m >>= f) s
  Ends-bind m f s h reads k = elim (Reads-bind m f s reads) [
    | inl (a, goes_on) ↦ rw goes_on (k a)
    | inr (e, stops) ↦ rw stops h
  ]

abbrev Sound : StockSession → Type 0
Sound s = IsClean s × IsSound s.rows × IsSound s.committed

module _ (env : Env) (body : RunRequest) (d : StockDb) where
  Failing-Sound : (s : StockSession) → Failing d s → IsSound d → Sound s
  Failing-Sound s h sound =
      let all = IsSound-runs env d (d.runs ++ h.failed) sound in
      rw h.same (record { flushed = refl; keyed = all.keyed }, all, all)

  -- A run that returns leaves what is committed sound.
  IsSound-run :
      GivesFreshKeys env
      → (v : Validated) (s : StockSession) → Sound s
      → (r : RunResult)
      → (execute_run_txn env no_hook body v.output_item_id v.required v.output_qty_base s).0 ≡ ok r
      → IsSound
          (execute_run_txn env no_hook body v.output_item_id v.required v.output_qty_base
            s).1.committed
  IsSound-run new v s (clean, rows, committed) r returned = record {
    balanced =
        execute_run_txn-IsBalanced env no_hook body v.output_item_id v.required v.output_qty_base s
          clean rows.balanced committed.balanced;
    keyed =
        rw
          (execute_run_txn_commits env no_hook body v.output_item_id v.required v.output_qty_base s
            r returned)
          ((Keeps-execute_run (Keyed-run env new) body v.output_item_id v.output_qty_base
              v.required).at
            s rows.keyed);
  }

  run-Ends :
      (v : Validated) (shortages : List RunShortage) (s : StockSession)
      → Failing d s
      → EndsFrom env d (run_or_refuse env body v shortages) s
  run-Ends v [] s h =
      elim (Result-cases
        (execute_run_txn env no_hook body v.output_item_id v.required v.output_qty_base s).0) [
          | inl (r, returned) ↦
              rw returned (λ new sound. IsSound-run new v s (Failing-Sound s h sound) r returned)
          | inr (e, raised) ↦
              let back =
                execute_run_txn_rolls_back env no_hook body v.output_item_id v.required
                  v.output_qty_base s e raised in
              rw (raised, back)
                (record {
                  failed = h.failed;
                  all_failed = h.all_failed;
                  same = ap (λ (t : StockSession). fresh t.committed) h.same;
                })
        ]
  run-Ends v (x ∷ xs) s h =
      Ends-of env d _ _ ((Failing-refuse_short env body d v.output_item_id).at s h)

  attempt-Ends : (s : StockSession) → Failing d s → EndsFrom env d (attempt env body) s
  unfolding attempt
  attempt-Ends s h =
      Ends-bind env d (validate_run body) _ s h (Keeps-validate_run body)
        (λ v. run-Ends v v.shortages s h)

  answer-Ends :
      (output_item_id : ℕ) (r : Result RunResult) (t : StockSession)
      → Ends env d r t
      → EndsFrom env d (answer_run env body output_item_id r) t
  answer-Ends output_item_id (ok r) t h = h
  answer-Ends output_item_id (err e) t h =
      Ends-of env d _ _ ((Failing-answer_error env body d output_item_id e).at t h)

  execute-Ends : (s : StockSession) → Failing d s → EndsFrom env d (execute_manufacture env body) s
  unfolding execute_manufacture attempt_answered
  execute-Ends s h =
      Ends-bind env d (checked_output body) _ s h (Keeps-checked_output body)
        (λ o. answer-Ends o _ _ (attempt-Ends s h))

Keeps-check_payload : {P : StockSession → Type 0} (raw : Json) → Keeps P (check_payload raw)
unfolding check_payload
Keeps-check_payload (Json.array vs) = search keeps_rules
Keeps-check_payload Json.scalar = search keeps_rules
Keeps-check_payload (Json.object payload) = search keeps_rules depth 9

module _ (env : Env) (parse : Json → Result RunRequest) (raw : Json) (d : StockDb) where
  abbrev answer : Result RunResult × StockSession
  answer = canonical_manufacture env parse raw (fresh d)

  canonical-Ends : Ends env d answer.0 answer.1
  unfolding canonical_manufacture
  canonical-Ends =
      let h = Failing-fresh d in
      Ends-bind env d (check_payload raw) _ (fresh d) h (Keeps-check_payload raw) (λ u.
        Ends-bind env d (lift (parse raw)) _ (fresh d) h (Keeps-lift _)
          (λ body. execute-Ends env body d (fresh d) h))

  -- A request of a run that is answered by an error has changed nothing in the database but the
  -- list of runs, at whose end there may be runs now with the status of a failed one.
  pub canonical_manufacture_refused :
      (e : Error)
      → (canonical_manufacture env parse raw (fresh d)).0 ≡ err e
      → (failed : List ManufacturingRun) × All HasFailed failed
        × ((canonical_manufacture env parse raw (fresh d)).1.committed
            ≡ record d { runs = d.runs ++ failed })
  canonical_manufacture_refused e h =
      let ends : Failing d answer.1 = rw h at canonical-Ends in
      (ends.failed, ends.all_failed, ap (λ (t : StockSession). t.committed) ends.same)

  pub canonical_manufacture-IsSound :
      GivesFreshKeys env
      → IsSound d
      → IsSound (canonical_manufacture env parse raw (fresh d)).1.committed
  canonical_manufacture-IsSound new sound = of_result answer.0 canonical-Ends
    where
      of_result : (r : Result RunResult) → Ends env d r answer.1 → IsSound answer.1.committed
      of_result (ok a) h = h new sound
      of_result (err e) h = Failing-IsSound env d answer.1 h sound
