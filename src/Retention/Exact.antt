-- ===== src/Retention/Exact.antt =====
-- core/retention.py, `_plan_candidates`: exactly which candidates the plan prunes.
use mathlib.Core.List.{append_assoc, append-nil}
use mathlib.Core.Path.{subst}
use tgc_bus_core.Tables.Sorted.{Linked, Linked-order_by, order_by-Perm}
use tgc_bus_core.Retention.Groups.{Groups, targets, of_target, Distinct, group_all-Grouped}
use tgc_bus_core.Base.{
  true, Perm, ◌⊎◌, ltb, ltb→lt, ◌==◌, ==→eq, split_and, text_before, mem_text, All, ℕ, zero, suc,
  ◌-◌, ◌<◌, ◌≤◌, ◌≡◌, refl, sym, ap, ◌∙◌, arith, String, Bool, false, not, List, [], ◌∷◌, ◌++◌,
  keep, Bool-cases, inl, inr,
}
use tgc_bus_core.Tables.{order_by}
use tgc_bus_core.Retention.{
  RetentionCandidate, group_all, newer, Planned, plan_item, plan_items, plan_groups,
  plan_candidates,
}

abbrev pub is_free : RetentionCandidate → Bool
is_free c = not c.protected

-- What follows the first candidates of a list.
abbrev pub after : ℕ → List RetentionCandidate → List RetentionCandidate
after zero items = items
after (suc n) [] = []
after (suc n) (c ∷ items) = after n items

-- Of a later time, or of the same time and not with a name that comes before.
abbrev pub IsNewer : RetentionCandidate → RetentionCandidate → Type 0
IsNewer a b =
    (b.timestamp < a.timestamp)
    ⊎ ((b.timestamp ≡ a.timestamp)
        × ((text_before b.name a.name ≡ true) ⊎ (text_before a.name b.name ≡ false)))

newer-IsNewer : (a b : RetentionCandidate) → newer a b ≡ true → IsNewer a b
newer-IsNewer a b h = elim (Bool-cases (ltb b.timestamp a.timestamp)) [
  | inl sooner ↦ inl (ltb→lt _ _ sooner)
  | inr other ↦
      let (same, name) =
        split_and (b.timestamp == a.timestamp) (text_before b.name a.name) (rw other at h) in
      inr (==→eq _ _ same, inl name)
]

older-IsNewer : (a b : RetentionCandidate) → newer a b ≡ false → IsNewer b a
older-IsNewer a b h = elim (Bool-cases (ltb a.timestamp b.timestamp)) [
  | inl sooner ↦ inl (ltb→lt _ _ sooner)
  | inr other ↦
      let same : (b.timestamp == a.timestamp) ≡ true = ground arith in
      inr (sym (==→eq _ _ same), inr (ground arith))
]

-- Each group from the newest on.
abbrev sorted : Groups → Groups
sorted [] = []
sorted ((target, items) ∷ groups) = (target, order_by newer items) ∷ sorted groups

targets-sorted : (groups : Groups) → targets (sorted groups) ≡ targets groups
targets-sorted [] = refl
targets-sorted ((target, items) ∷ groups) = ap (λ ts. target ∷ ts) (targets-sorted groups)

-- A group of the plan: the candidates of its target, from the newest on.
abbrev pub IsGroup : List RetentionCandidate → String × List RetentionCandidate → Type 0
IsGroup candidates g = Perm g.1 (of_target g.0 candidates) × Linked IsNewer g.1

sorted-IsGroup :
    (candidates : List RetentionCandidate) (groups : Groups)
    → All (λ g. g.1 ≡ of_target g.0 candidates) groups
    → All (IsGroup candidates) (sorted groups)
sorted-IsGroup candidates [] _ = tt
sorted-IsGroup candidates ((target, items) ∷ groups) (p, ps) = (
  (
    subst (Perm (order_by newer items)) p (order_by-Perm newer items),
    Linked-order_by IsNewer newer newer-IsNewer older-IsNewer items,
  ),
  sorted-IsGroup candidates groups ps,
)

-- What is pruned of the groups: the unprotected ones that follow the first ones of each.
abbrev pub pruned_of : ℕ → List (String × List RetentionCandidate) → List RetentionCandidate
pruned_of keep_count [] = []
pruned_of keep_count ((target, items) ∷ groups) =
    keep is_free (after keep_count items) ++ pruned_of keep_count groups

plan_item_recent :
    (keep_count index : ℕ) (c : RetentionCandidate) (planned : Planned)
    → index < keep_count
    → (plan_item keep_count index c planned).prune_candidates ≡ planned.prune_candidates
unfolding plan_item
plan_item_recent keep_count index c planned h = ground arith

plan_item_pruned :
    (keep_count index : ℕ) (c : RetentionCandidate) (planned : Planned)
    → keep_count ≤ index
    → c.protected ≡ false
    → (plan_item keep_count index c planned).prune_candidates ≡ planned.prune_candidates ++ c ∷ []
unfolding plan_item
plan_item_pruned keep_count index c planned h free = ground arith

keep_free :
    (c : RetentionCandidate) (rest : List RetentionCandidate)
    → c.protected ≡ false
    → keep is_free (c ∷ rest) ≡ c ∷ keep is_free rest
keep_free c rest free = ground arith

plan_item_old :
    (keep_count index : ℕ) (c : RetentionCandidate) (planned : Planned)
    → keep_count ≤ index
    → (rest : List RetentionCandidate)
    → (plan_item keep_count index c planned).prune_candidates ++ keep is_free rest
      ≡ planned.prune_candidates ++ keep is_free (c ∷ rest)
unfolding plan_item
plan_item_old keep_count index c planned h rest = elim (Bool-cases c.protected) [
  | inl protected ↦ ground arith
  | inr free ↦
      ap (λ pruned. pruned ++ keep is_free rest)
        (plan_item_pruned keep_count index c planned h free)
      ∙ append_assoc planned.prune_candidates (c ∷ []) (keep is_free rest)
      ∙ ap (λ rest. planned.prune_candidates ++ rest) (sym (keep_free c rest free))
]

after_none : (n : ℕ) → after n [] ≡ []
after_none zero = refl
after_none (suc n) = refl

plan_items_prunes :
    (keep_count index n : ℕ) (items : List RetentionCandidate) (planned : Planned)
    → keep_count - index ≡ n
    → (plan_items keep_count index items planned).prune_candidates
      ≡ planned.prune_candidates ++ keep is_free (after n items)
unfolding plan_items
plan_items_prunes keep_count index n [] planned h =
    rw (after_none n) (sym (append-nil planned.prune_candidates))
plan_items_prunes keep_count index zero (c ∷ items) planned h =
    plan_items_prunes keep_count (suc index) zero items _ (omega arith)
    ∙ plan_item_old keep_count index c planned (omega arith) items
plan_items_prunes keep_count index (suc n) (c ∷ items) planned h =
    plan_items_prunes keep_count (suc index) n items _ (omega arith)
    ∙ ap (λ kept. kept ++ keep is_free (after n items))
        (plan_item_recent keep_count index c planned (omega arith))

plan_groups_prunes :
    (keep_count : ℕ) (groups : List (String × List RetentionCandidate)) (planned : Planned)
    → (plan_groups keep_count groups planned).prune_candidates
      ≡ planned.prune_candidates ++ pruned_of keep_count (sorted groups)
unfolding plan_groups
plan_groups_prunes keep_count [] planned = sym (append-nil planned.prune_candidates)
plan_groups_prunes keep_count ((target, items) ∷ groups) planned =
    plan_groups_prunes keep_count groups _
    ∙ ap (λ pruned. pruned ++ pruned_of keep_count (sorted groups))
        (plan_items_prunes keep_count 0 keep_count (order_by newer items) planned (omega arith))
    ∙ append_assoc planned.prune_candidates (keep is_free (after keep_count (order_by newer items)))
        (pruned_of keep_count (sorted groups))

-- The candidates fall into groups, one for each target and in it the target's candidates, each
-- newer than the next or of the same time and not before it by name. What is pruned is, group by
-- group, each unprotected candidate that follows the first keep_count ones.
pub plan_candidates_prunes :
    (candidates : List RetentionCandidate) (keep_count : ℕ)
    → (groups : Groups) × Distinct (targets groups)
      × All (λ c. mem_text c.target (targets groups) ≡ true) candidates
      × All (IsGroup candidates) groups
      × ((plan_candidates candidates keep_count).prune_candidates ≡ pruned_of keep_count groups)
unfolding plan_candidates
plan_candidates_prunes candidates keep_count =
    let groups = group_all [] candidates in
    let g =
      group_all-Grouped [] candidates [] (record { parts = tt; distinct = tt; covers = tt }) in
    (
      sorted groups,
      subst Distinct (sym (targets-sorted groups)) g.distinct,
      subst (λ ts. All (λ c. mem_text c.target ts ≡ true) candidates) (sym (targets-sorted groups))
          g.covers,
      sorted-IsGroup candidates groups g.parts,
      plan_groups_prunes keep_count groups _,
    )
