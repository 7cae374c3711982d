-- ===== src/Retention/Groups.antt =====
-- core/retention.py, `_plan_candidates`: the candidates of each target, in the order they came in.
use mathlib.Core.Path.{subst}
use mathlib.Core.List.{append_assoc, append-nil}
use tgc_bus_core.Base.{
  ◌≡◌, refl, sym, ap, ◌∙◌, arith, String, true, false, ◌||◌, List, [], ◌∷◌, ◌++◌, map, keep,
  keep-append, ◌=ₛ◌, eq_iff, mem_text, All, All-map, All-append, Bool-cases, inl, inr,
}
use tgc_bus_core.Retention.{RetentionCandidate, add_to_group, group_all}

abbrev pub Groups : Type 0
Groups = List (String × List RetentionCandidate)

abbrev pub targets : Groups → List String
targets groups = map (λ g. g.0) groups

-- The candidates of a target.
abbrev pub of_target : String → List RetentionCandidate → List RetentionCandidate
of_target target candidates = keep (λ c. target =ₛ c.target) candidates

-- No text occurs twice.
abbrev pub Distinct : List String → Type 0
Distinct [] = Unit
Distinct (t ∷ ts) = (mem_text t ts ≡ false) × Distinct ts

-- Each target that was seen has one group, with its candidates.
pub record Grouped (seen : List RetentionCandidate) (groups : Groups) : Type 0 where
  pub parts : All (λ g. g.1 ≡ of_target g.0 seen) groups
  pub distinct : Distinct (targets groups)
  pub covers : All (λ c. mem_text c.target (targets groups) ≡ true) seen

text_sym : (s t : String) → (s =ₛ t) ≡ false → (t =ₛ s) ≡ false
text_sym s t h = elim (Bool-cases (t =ₛ s)) [
  | inl same ↦ (let e : t ≡ s = (eq_iff t s).0 same in let back = (eq_iff s t).1 (sym e) in cc)
  | inr other ↦ other
]

module _ (c : RetentionCandidate) where
  of_target-same :
      (t : String) (seen : List RetentionCandidate)
      → (t =ₛ c.target) ≡ true
      → of_target t (seen ++ c ∷ []) ≡ of_target t seen ++ c ∷ []
  of_target-same t seen same = keep-append (λ d. t =ₛ d.target) seen (c ∷ []) ∙ rw same refl

  of_target-other :
      (t : String) (seen : List RetentionCandidate)
      → (t =ₛ c.target) ≡ false
      → of_target t (seen ++ c ∷ []) ≡ of_target t seen
  of_target-other t seen other =
      keep-append (λ d. t =ₛ d.target) seen (c ∷ []) ∙ rw other (append-nil (of_target t seen))

  others_stay :
      (seen : List RetentionCandidate) (groups : Groups)
      → mem_text c.target (targets groups) ≡ false
      → All (λ g. g.1 ≡ of_target g.0 seen) groups
      → All (λ g. g.1 ≡ of_target g.0 (seen ++ c ∷ [])) groups
  others_stay seen [] absent _ = tt
  others_stay seen ((t, items) ∷ groups) absent (p, ps) = elim (Bool-cases (c.target =ₛ t)) [
    | inl same ↦ (let e = rw same at absent in cc)
    | inr other ↦ (
      p ∙ sym (of_target-other t seen (text_sym c.target t other)),
      others_stay seen groups (rw other at absent) ps,
    )
  ]

  parts-add :
      (seen : List RetentionCandidate) (groups : Groups)
      → All (λ g. g.1 ≡ of_target g.0 seen) groups
      → (mem_text c.target (targets groups) ≡ false → of_target c.target seen ≡ [])
      → Distinct (targets groups)
      → All (λ g. g.1 ≡ of_target g.0 (seen ++ c ∷ [])) (add_to_group c groups)
  unfolding add_to_group
  parts-add seen [] _ new _ =
      let itself = (eq_iff c.target c.target).1 refl in
      (sym (of_target-same c.target seen itself ∙ rw (new refl) refl), tt)
  parts-add seen ((t, items) ∷ groups) (p, ps) new (once, distinct) =
      elim (Bool-cases (t =ₛ c.target)) [
        | inl same ↦
            let e : t ≡ c.target = (eq_iff t c.target).0 same in
            rw same (
              ap (λ is. is ++ c ∷ []) p ∙ sym (of_target-same t seen same),
              others_stay seen groups (rw e at once) ps,
            )
        | inr other ↦ rw other (
          p ∙ sym (of_target-other t seen other),
          parts-add seen groups ps (λ absent. new (rw (text_sym t c.target other) absent)) distinct,
        )
      ]

  mem_text-add :
      (s : String) (groups : Groups)
      → mem_text s (targets (add_to_group c groups))
        ≡ (mem_text s (targets groups) || s =ₛ c.target)
  unfolding add_to_group
  mem_text-add s [] = ground arith
  mem_text-add s ((t, items) ∷ groups) = elim (Bool-cases (t =ₛ c.target)) [
    | inl same ↦
        let e : t ≡ c.target = (eq_iff t c.target).0 same in rw same (rw (← e) (ground arith))
    | inr other ↦ rw other (ground (arith, mem_text-add s groups))
  ]

  Distinct-add :
      (groups : Groups) → Distinct (targets groups) → Distinct (targets (add_to_group c groups))
  unfolding add_to_group
  Distinct-add [] h = (refl, tt)
  Distinct-add ((t, items) ∷ groups) (once, h) = elim (Bool-cases (t =ₛ c.target)) [
    | inl same ↦ rw same (once, h)
    | inr other ↦ rw other (rw (mem_text-add t groups, once, other) refl, Distinct-add groups h)
  ]

  unseen :
      (ts : List String) (seen : List RetentionCandidate)
      → mem_text c.target ts ≡ false
      → All (λ d. mem_text d.target ts ≡ true) seen
      → of_target c.target seen ≡ []
  unseen ts [] absent _ = refl
  unseen ts (d ∷ seen) absent (there, h) = elim (Bool-cases (c.target =ₛ d.target)) [
    | inl same ↦
        let e : c.target ≡ d.target = (eq_iff c.target d.target).0 same in
        (let here = rw e at absent in cc)
    | inr other ↦ rw other (unseen ts seen absent h)
  ]

  Grouped-add :
      (seen : List RetentionCandidate) (groups : Groups)
      → Grouped seen groups
      → Grouped (seen ++ c ∷ []) (add_to_group c groups)
  Grouped-add seen groups g = record {
    parts =
        parts-add seen groups g.parts (λ absent. unseen (targets groups) seen absent g.covers)
          g.distinct;
    distinct = Distinct-add groups g.distinct;
    covers =
        All-append (λ d. mem_text d.target (targets (add_to_group c groups)) ≡ true) seen (c ∷ [])
          (All-map (λ d. mem_text d.target (targets groups) ≡ true)
            (λ d. mem_text d.target (targets (add_to_group c groups)) ≡ true) seen
            (λ d there. rw (mem_text-add d.target groups, there) refl) g.covers)
          (let itself = (eq_iff c.target c.target).1 refl in
            (rw (mem_text-add c.target groups, itself) (ground arith), tt));
  }

pub group_all-Grouped :
    (seen candidates : List RetentionCandidate) (groups : Groups)
    → Grouped seen groups
    → Grouped (seen ++ candidates) (group_all groups candidates)
unfolding group_all
group_all-Grouped seen [] groups g = subst (λ cs. Grouped cs groups) (sym (append-nil seen)) g
group_all-Grouped seen (c ∷ candidates) groups g =
    subst (λ cs. Grouped cs (group_all (add_to_group c groups) candidates))
      (append_assoc seen (c ∷ []) candidates)
      (group_all-Grouped (seen ++ c ∷ []) candidates (add_to_group c groups)
        (Grouped-add c seen groups g))
