-- ===== src/Examples/Backups.antt =====
-- Two runs of one script and a backup that is protected: the plan that keeps one of each.
use tgc_bus_core.Base.{All, mem_text, ℕ, ◌≡◌, refl, String, true, false, List, [], ◌∷◌}
use tgc_bus_core.Retention.{
  RetentionCandidate, add_to_group, group_all, plan_item, plan_items, plan_groups, plan_candidates,
}
use tgc_bus_core.Retention.Groups.{Groups, targets, Distinct}
use tgc_bus_core.Tables.{order_by}
use tgc_bus_core.Retention.Exact.{IsGroup, pruned_of, plan_candidates_prunes}

abbrev run_of : String → ℕ → RetentionCandidate
run_of name timestamp = record {
  path = name;
  name = name;
  timestamp = timestamp;
  target = "import";
  kind = "dir";
  protected = false;
}

abbrev backup : RetentionCandidate
backup = record (run_of "keep" 1) { protected = true }

abbrev runs : List RetentionCandidate
runs = run_of "monday" 2 ∷ backup ∷ run_of "tuesday" 3 ∷ []

kept_runs : (plan_candidates runs 1).kept_paths ≡ "tuesday" ∷ "keep" ∷ []
unfolding plan_candidates plan_groups plan_items plan_item group_all add_to_group order_by
kept_runs = refl

plan_candidates_prunes_example :
    (groups : Groups) × Distinct (targets groups)
    × All (λ (c : RetentionCandidate). mem_text c.target (targets groups) ≡ true) runs
    × All (IsGroup runs) groups
    × ((plan_candidates runs 1).prune_candidates ≡ pruned_of 1 groups)
plan_candidates_prunes_example = plan_candidates_prunes runs 1

pruned_run : (plan_candidates runs 1).prune_candidates ≡ run_of "monday" 2 ∷ []
unfolding plan_candidates plan_groups plan_items plan_item group_all add_to_group order_by
pruned_run = refl
