-- ===== src/ManufactureRoutes/Failing.antt =====
-- core/api/routes/manufacturing.py: what the answers to an error leave in the database.
use tgc_bus_core.Base.{ℕ, ◌≡◌, refl, ap, sym, inl, inr, List, [], ◌∷◌, ◌++◌, map, All}
use mathlib.Core.List.{append-nil, append_assoc}
use mathlib.Core.Path.{subst}
use tgc_bus_core.Effects.{Error, Result-cases, Env, rollback, fresh}
use tgc_bus_core.Effects.Keeps.{Keeps, Keeps-raise, Leads-bind, keeps_rules}
use tgc_bus_core.Tables.{find_row}
use tgc_bus_core.StockTables.{ManufacturingRun, StockDb, StockSession}
use tgc_bus_core.Manufacturing.{RunRequest, recipe_run, adhoc_run}
use tgc_bus_core.ManufactureRoutes.{
  failed_quantity, checked_output, failed_run, record_failed_run, refuse_short, answer_error,
}

abbrev pub HasFailed : ManufacturingRun → Type 0
HasFailed r = r.status ≡ "failed_insufficient_stock"

-- The database, with runs after its own that failed, and a session with nothing to commit.
pub record Failing (d : StockDb) (s : StockSession) : Type 0 where
  pub failed : List ManufacturingRun
  pub all_failed : All HasFailed failed
  pub same : s ≡ fresh (record d { runs = d.runs ++ failed })

All-append_one :
    (rs : List ManufacturingRun) (r : ManufacturingRun)
    → All HasFailed rs
    → HasFailed r
    → All HasFailed (rs ++ r ∷ [])
All-append_one [] r h hr = (hr, tt)
All-append_one (q ∷ rs) r (hq, h) hr = (hq, All-append_one rs r h hr)

pub Failing-fresh : (d : StockDb) → Failing d (fresh d)
Failing-fresh d = record {
  failed = [];
  all_failed = tt;
  same = ap (λ runs. fresh (record d { runs = runs })) (sym (append-nil d.runs));
}

pub Keeps-checked_output :
    {P : StockSession → Type 0} (body : RunRequest) → Keeps P (checked_output body)
unfolding checked_output
Keeps-checked_output (adhoc_run _ _ _ _ _) = search keeps_rules
Keeps-checked_output (recipe_run _ _ _ _) = search keeps_rules depth 16

module _ (env : Env) (body : RunRequest) (d : StockDb) where
  Failing-rollback : Keeps (Failing d) rollback
  Failing-rollback = record {
    at = λ s h.
        subst (λ t. Failing d (rollback t).1) (sym h.same)
          (record { failed = h.failed; all_failed = h.all_failed; same = refl });
  }

  recorded :
      (output_item_id : ℕ) (failed : List ManufacturingRun)
      → All HasFailed failed
      → Failing d
          (record_failed_run env body output_item_id
            (fresh (record d { runs = d.runs ++ failed }))).1
  unfolding record_failed_run
  recorded output_item_id failed h =
      let before = record d { runs = d.runs ++ failed } in
      elim (Result-cases (failed_quantity body (find_row (λ i. i.id) output_item_id d.items))) [
        | inr (e, bad) ↦ rw bad (record { failed = failed; all_failed = h; same = refl })
        | inl (n, good) ↦
            let id = env.next_id (map (λ (r : ManufacturingRun). r.id) before.runs) in
            let r = failed_run env body output_item_id n id in
            rw good (record {
              failed = failed ++ r ∷ [];
              all_failed = All-append_one failed r h refl;
              same =
                  ap (λ runs. fresh (record d { runs = runs }))
                    (append_assoc d.runs failed (r ∷ []));
            })
      ]

  Failing-record_failed_run :
      (output_item_id : ℕ) → Keeps (Failing d) (record_failed_run env body output_item_id)
  Failing-record_failed_run output_item_id = record {
    at = λ s h.
        subst (λ t. Failing d (record_failed_run env body output_item_id t).1) (sym h.same)
          (recorded output_item_id h.failed h.all_failed);
  }

  pub Failing-refuse_short :
      (output_item_id : ℕ) → Keeps (Failing d) (refuse_short env body output_item_id)
  unfolding refuse_short
  Failing-refuse_short output_item_id =
      Leads-bind _ _ (Failing-record_failed_run output_item_id) (λ id. Keeps-raise _)

  ruleset failing_rules = (keeps_rules, Failing-rollback, Failing-refuse_short)

  pub Failing-answer_error :
      (output_item_id : ℕ) (e : Error) → Keeps (Failing d) (answer_error env body output_item_id e)
  unfolding answer_error
  Failing-answer_error o (Error.http status detail) = search failing_rules
  Failing-answer_error o (Error.active_invoice_exists id) = search failing_rules
  Failing-answer_error o (Error.value_error text) = search failing_rules
  Failing-answer_error o (Error.lookup_error text) = search failing_rules
  Failing-answer_error o Error.key_error = search failing_rules
  Failing-answer_error o (Error.insufficient_stock shortages) = search failing_rules
  Failing-answer_error o (Error.stock_shortages []) = search failing_rules
  Failing-answer_error o (Error.stock_shortages (x ∷ xs)) = search failing_rules
  Failing-answer_error o (Error.legacy_keys keys) = search failing_rules
  Failing-answer_error o Error.decimal_error = search failing_rules
  Failing-answer_error o Error.overflow_error = search failing_rules
  Failing-answer_error o Error.transaction_begun = search failing_rules
  Failing-answer_error o Error.integrity_error = search failing_rules
