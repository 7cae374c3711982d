-- ===== src/Retention/Plan.antt =====
-- core/retention.py, `_plan_candidates`: what the plan prunes.
use tgc_bus_core.Base.{
  ℕ, suc, ◌+◌, ◌≡◌, ◌∙◌, arith, String, false, ◌||◌, List, [], ◌∷◌, ltb, ◌=ₛ◌, All, All-append,
  sum_by, sum_by-append, Bool-cases, inl, inr,
}
use tgc_bus_core.Tables.{order_by}
use tgc_bus_core.Tables.Order.{sum-order_by}
use tgc_bus_core.Retention.{
  RetentionCandidate, add_to_group, group_all, newer, Planned, plan_item, plan_items, plan_groups,
  plan_candidates,
}

abbrev pub IsFree : RetentionCandidate → Type 0
IsFree c = c.protected ≡ false

module _ (keep_count : ℕ) where
  plan_item-IsFree :
      (index : ℕ) (c : RetentionCandidate) (planned : Planned)
      → All IsFree planned.prune_candidates
      → All IsFree (plan_item keep_count index c planned).prune_candidates
  unfolding plan_item
  plan_item-IsFree index c planned h = elim (Bool-cases (ltb index keep_count || c.protected)) [
    | inl kept ↦ rw kept h
    | inr pruned ↦
        rw pruned (All-append IsFree planned.prune_candidates (c ∷ []) h (ground arith, tt))
  ]

  plan_items-IsFree :
      (index : ℕ) (items : List RetentionCandidate) (planned : Planned)
      → All IsFree planned.prune_candidates
      → All IsFree (plan_items keep_count index items planned).prune_candidates
  unfolding plan_items
  plan_items-IsFree index [] planned h = h
  plan_items-IsFree index (c ∷ items) planned h =
      plan_items-IsFree (suc index) items _ (plan_item-IsFree index c planned h)

  plan_groups-IsFree :
      (groups : List (String × List RetentionCandidate)) (planned : Planned)
      → All IsFree planned.prune_candidates
      → All IsFree (plan_groups keep_count groups planned).prune_candidates
  unfolding plan_groups
  plan_groups-IsFree [] planned h = h
  plan_groups-IsFree ((target, items) ∷ groups) planned h =
      plan_groups-IsFree groups _ (plan_items-IsFree 0 (order_by newer items) planned h)

-- A measure of paths: over a plan, over candidates, and over groups.
module _ (f : String → ℕ) where
  abbrev of_candidates : List RetentionCandidate → ℕ
  of_candidates = sum_by (λ c. f c.path)

  abbrev of_plan : Planned → ℕ
  of_plan planned = sum_by f planned.kept_paths + of_candidates planned.prune_candidates

  abbrev of_groups : List (String × List RetentionCandidate) → ℕ
  of_groups = sum_by (λ g. of_candidates g.1)

  of_plan-item :
      (keep_count index : ℕ) (c : RetentionCandidate) (planned : Planned)
      → of_plan (plan_item keep_count index c planned) ≡ of_plan planned + f c.path
  unfolding plan_item
  of_plan-item keep_count index c planned =
      elim (Bool-cases (ltb index keep_count || c.protected)) [
        | inl kept ↦ rw kept (rw (sum_by-append f planned.kept_paths (c.path ∷ [])) (omega arith))
        | inr pruned ↦ rw pruned (
            rw
              (sum_by-append (λ (c : RetentionCandidate). f c.path) planned.prune_candidates
                (c ∷ []))
              (omega arith))
      ]

  of_plan-items :
      (keep_count index : ℕ) (items : List RetentionCandidate) (planned : Planned)
      → of_plan (plan_items keep_count index items planned) ≡ of_plan planned + of_candidates items
  unfolding plan_items
  of_plan-items keep_count index [] planned = omega arith
  of_plan-items keep_count index (c ∷ items) planned = omega (
    arith,
    of_plan-items keep_count (suc index) items (plan_item keep_count index c planned),
    of_plan-item keep_count index c planned,
  )

  of_plan-groups :
      (keep_count : ℕ) (groups : List (String × List RetentionCandidate)) (planned : Planned)
      → of_plan (plan_groups keep_count groups planned) ≡ of_plan planned + of_groups groups
  unfolding plan_groups
  of_plan-groups keep_count [] planned = omega arith
  of_plan-groups keep_count ((target, items) ∷ groups) planned =
      of_plan-groups keep_count groups _
      ∙ rw (of_plan-items keep_count 0 (order_by newer items) planned)
          (rw (sum-order_by newer (λ (c : RetentionCandidate). f c.path) items) (omega arith))

  of_groups-add :
      (c : RetentionCandidate) (groups : List (String × List RetentionCandidate))
      → of_groups (add_to_group c groups) ≡ of_groups groups + f c.path
  unfolding add_to_group
  of_groups-add c [] = omega arith
  of_groups-add c ((target, items) ∷ groups) = elim (Bool-cases (target =ₛ c.target)) [
    | inl same ↦
        rw same
          (rw (sum_by-append (λ (c : RetentionCandidate). f c.path) items (c ∷ [])) (omega arith))
    | inr other ↦ rw other (omega (arith, of_groups-add c groups))
  ]

  of_groups-all :
      (candidates : List RetentionCandidate) (groups : List (String × List RetentionCandidate))
      → of_groups (group_all groups candidates) ≡ of_groups groups + of_candidates candidates
  unfolding group_all
  of_groups-all [] groups = omega arith
  of_groups-all (c ∷ candidates) groups =
      omega (arith, of_groups-all candidates (add_to_group c groups), of_groups-add c groups)

-- No protected candidate is pruned, and each candidate is either kept or pruned, once: whatever is
-- counted of the paths, the kept and the pruned together count what all candidates do.
pub plan_candidates_lem :
    (candidates : List RetentionCandidate) (keep_count : ℕ)
    → let planned = plan_candidates candidates keep_count in
      All IsFree planned.prune_candidates
      × ((f : String → ℕ)
          → sum_by f planned.kept_paths
              + sum_by (λ (c : RetentionCandidate). f c.path) planned.prune_candidates
            ≡ sum_by (λ (c : RetentionCandidate). f c.path) candidates)
unfolding plan_candidates
plan_candidates_lem candidates keep_count = (
  plan_groups-IsFree keep_count (group_all [] candidates) _ tt,
  λ f. omega (
    arith,
    of_plan-groups f keep_count (group_all [] candidates)
        (record { kept_paths = []; prune_candidates = [] }),
    of_groups-all f candidates [],
  ),
)
