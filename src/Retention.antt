-- ===== src/Retention.antt =====
-- core/retention.py: which runs and reports are pruned.
pub mod Plan
pub mod Groups
pub mod Exact
use tgc_bus_core.Base.{
  ℕ, suc, ◌+◌, String, Bool, true, false, ◌||◌, ◌&&◌, List, [], ◌∷◌, ◌++◌, map, ltb, ◌==◌, ◌=ₛ◌,
  if◌then◌else◌, text_before,
}
use tgc_bus_core.Tables.{order_by}

-- RetentionCandidate, with the name of its path.
pub record RetentionCandidate : Type 0 where
  pub path : String
  pub name : String
  pub timestamp : ℕ
  pub target : String
  pub kind : String
  pub protected : Bool

-- grouped.setdefault(candidate.target, []).append(candidate)
unfoldable pub add_to_group :
    RetentionCandidate
    → List (String × List RetentionCandidate)
    → List (String × List RetentionCandidate)
add_to_group c [] = (c.target, c ∷ []) ∷ []
add_to_group c ((target, items) ∷ groups) =
    if target =ₛ c.target
    then (target, items ++ c ∷ []) ∷ groups
    else (target, items) ∷ add_to_group c groups

unfoldable pub group_all :
    List (String × List RetentionCandidate)
    → List RetentionCandidate
    → List (String × List RetentionCandidate)
group_all groups [] = groups
group_all groups (c ∷ candidates) = group_all (add_to_group c groups) candidates

-- The key of the sort, from the greatest on. Equals keep their order.
abbrev pub newer : RetentionCandidate → RetentionCandidate → Bool
newer a b = ltb b.timestamp a.timestamp || (b.timestamp == a.timestamp && text_before b.name a.name)

-- The paths that are kept, and the candidates that are pruned.
pub record Planned : Type 0 where
  pub kept_paths : List String
  pub prune_candidates : List RetentionCandidate

-- The round of one candidate.
unfoldable pub plan_item : ℕ → ℕ → RetentionCandidate → Planned → Planned
plan_item keep_count index c planned =
    if ltb index keep_count || c.protected
    then record planned { kept_paths = planned.kept_paths ++ c.path ∷ [] }
    else record planned { prune_candidates = planned.prune_candidates ++ c ∷ [] }

-- for index, candidate in enumerate(items): …
unfoldable pub plan_items : ℕ → ℕ → List RetentionCandidate → Planned → Planned
plan_items keep_count index [] planned = planned
plan_items keep_count index (c ∷ items) planned =
    plan_items keep_count (suc index) items (plan_item keep_count index c planned)

unfoldable pub plan_groups : ℕ → List (String × List RetentionCandidate) → Planned → Planned
plan_groups keep_count [] planned = planned
plan_groups keep_count ((target, items) ∷ groups) planned =
    plan_groups keep_count groups (plan_items keep_count 0 (order_by newer items) planned)

-- `_plan_candidates`
unfoldable pub plan_candidates : List RetentionCandidate → ℕ → Planned
plan_candidates candidates keep_count =
    plan_groups keep_count (group_all [] candidates)
      (record { kept_paths = []; prune_candidates = [] })
