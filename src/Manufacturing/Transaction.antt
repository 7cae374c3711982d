-- ===== src/Manufacturing/Transaction.antt =====
-- The transaction around a manufacturing run: all of it is committed, or none of it is left.
use tgc_bus_core.Base.{ℕ, ◌≡◌, refl, inl, inr, ◌⊎◌, List}
use tgc_bus_core.Base.Int.{ℤ}
use tgc_bus_core.Effects.{Result, ok, err, Error, Env, fresh, write, flush}
use tgc_bus_core.Effects.Keeps.{Keeps, keeps_rules}
use tgc_bus_core.StockTables.{StockDb, StockSession}
use tgc_bus_core.Manufacturing.{allocate, Required, RunRequest}
use tgc_bus_core.Manufacturing.Stable.{record_movement, IsRunStable, Keeps-execute_run}
use tgc_bus_core.Manufacturing.Execute.{
  RunResult, execute_run, start_run, finish_run, hooked, transactional, execute_run_txn,
}

-- Nothing has been committed since.
abbrev pub Uncommitted : StockDb → StockSession → Type 0
Uncommitted d s = s.committed ≡ d

module _ (d : StockDb) where
  Keeps-write : (f : StockDb → StockDb) → Keeps (Uncommitted d) (write f)
  Keeps-write f = record { at = λ s h. h }

  Keeps-flush : Keeps (Uncommitted d) flush
  Keeps-flush = record { at = λ s h. h }

  ruleset uncommitted_rules = (keeps_rules, Keeps-write, Keeps-flush)

  -- No step of a run commits.
  Uncommitted-stable : (env : Env) → IsRunStable env (Uncommitted d)
  unfolding start_run finish_run record_movement allocate
  Uncommitted-stable env = record {
    starts = λ body output_item_id output_qty. record { at = λ s h. h };
    draws = λ item_id qty. search uncommitted_rules depth 12;
    uses = λ run_id a. record { at = λ s h. h };
    ends =
        λ body output_item_id output_qty run_id allocations qty cost per. record { at = λ s h. h };
  }

module _ {A : Type 0} (hook : A → Result (Unit {0})) where
  settled : Result A × StockSession → Result A × StockSession
  unfolding transactional hooked
  settled (r, t) = transactional hook (λ _. (r, t)) t

  hook-cases : (a : A) → (hook a ≡ ok tt) ⊎ ((e : Error) × (hook a ≡ err e))
  hook-cases a = of_result (hook a)
    where
      of_result : (r : Result (Unit {0})) → (r ≡ ok tt) ⊎ ((e : Error) × (r ≡ err e))
      of_result (ok tt) = inl refl
      of_result (err e) = inr (e, refl)

  settled-err :
      (m : Result A × StockSession) (d : StockDb) (e : Error)
      → Uncommitted d m.1
      → (settled m).0 ≡ err e
      → (settled m).1 ≡ fresh d
  unfolding settled
  settled-err (ok a, t) d e h raised = elim (hook-cases a) [
    | inl fine ↦ (let returned : ok a ≡ err e = rw fine at raised in cc)
    | inr (f, refused) ↦ rw (refused, h)
  ]
  settled-err (err _, t) d e h raised = rw h

  settled-ok :
      (m : Result A × StockSession) (a : A)
      → (settled m).0 ≡ ok a
      → settled m ≡ (ok a, fresh m.1.rows)
  unfolding settled
  settled-ok (ok a, t) b raised = elim (hook-cases a) [
    | inl fine ↦
        (let returned : ok a ≡ ok b = rw fine at raised in let same : a ≡ b = cc in rw (fine, same))
    | inr (f, refused) ↦ (let stopped : err f ≡ ok b = rw refused at raised in cc)
  ]
  settled-ok (err _, t) b raised = cc

  settled-returned : (m : Result A × StockSession) (a : A) → (settled m).0 ≡ ok a → m.0 ≡ ok a
  unfolding settled
  settled-returned (ok a, t) b raised = elim (hook-cases a) [
    | inl fine ↦ rw fine at raised
    | inr (f, refused) ↦ (let stopped : err f ≡ ok b = rw refused at raised in cc)
  ]
  settled-returned (err _, t) b raised = cc

module _ (env : Env) (hook : RunResult → Result (Unit {0})) (body : RunRequest) (output_item_id : ℕ)
    (required : List Required) (output_qty : ℤ) (s : StockSession) where
  -- Where a run or the hook after it raises, the session is back at what was committed before it.
  pub execute_run_txn_rolls_back :
      (e : Error)
      → (execute_run_txn env hook body output_item_id required output_qty s).0 ≡ err e
      → (execute_run_txn env hook body output_item_id required output_qty s).1 ≡ fresh s.committed
  unfolding execute_run_txn settled
  execute_run_txn_rolls_back e raised =
      settled-err hook (execute_run env body output_item_id output_qty required s) s.committed e
        ((Keeps-execute_run (Uncommitted-stable s.committed env) body output_item_id output_qty
            required).at
          s refl)
        raised

  -- Where the call returns, everything that the run wrote is committed, and nothing else is.
  pub execute_run_txn_commits :
      (r : RunResult)
      → (execute_run_txn env hook body output_item_id required output_qty s).0 ≡ ok r
      → execute_run_txn env hook body output_item_id required output_qty s
        ≡ (ok r, fresh (execute_run env body output_item_id output_qty required s).1.rows)
  unfolding execute_run_txn settled
  execute_run_txn_commits r returned =
      settled-ok hook (execute_run env body output_item_id output_qty required s) r returned

  pub execute_run_txn_returned :
      (r : RunResult)
      → (execute_run_txn env hook body output_item_id required output_qty s).0 ≡ ok r
      → (execute_run env body output_item_id output_qty required s).0 ≡ ok r
  unfolding execute_run_txn settled
  execute_run_txn_returned r returned =
      settled-returned hook (execute_run env body output_item_id output_qty required s) r returned
