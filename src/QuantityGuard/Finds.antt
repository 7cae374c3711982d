-- ===== src/QuantityGuard/Finds.antt =====
-- core/api/utils/quantity_guard.py: the guard finds every old key, at any depth, and no other.
use tgc_bus_core.Base.{
  ◌≡◌, refl, arith, String, Bool, true, false, ◌||◌, ◌&&◌, List, [], ◌∷◌, ◌++◌, ◌=ₛ◌, mem_text,
  eq_iff, if◌then◌else◌, Bool-cases, inl, inr, sym, ◌∙◌,
}
use tgc_bus_core.Effects.{ok}
use tgc_bus_core.QuantityGuard.{
  Json, Values, Members, scalar, array, object, no_value, value, no_member, member, legacy_qty_keys,
  add_key, walk, walk_values, walk_members, find_legacy_qty_keys, refuse_keys,
  reject_legacy_qty_keys,
}

-- The key stands somewhere in the body.
unfoldable mutual
  pub occurs : String → Json → Bool
  occurs k scalar = false
  occurs k (array vs) = occurs_values k vs
  occurs k (object ms) = occurs_members k ms

  pub occurs_values : String → Values → Bool
  occurs_values k no_value = false
  occurs_values k (value v vs) = occurs k v || occurs_values k vs

  pub occurs_members : String → Members → Bool
  occurs_members k no_member = false
  occurs_members k (member key v ms) = k =ₛ key || occurs k v || occurs_members k ms

mem-append :
    (k : String) (xs ys : List String) → mem_text k (xs ++ ys) ≡ (mem_text k xs || mem_text k ys)
mem-append k [] ys = refl
mem-append k (x ∷ xs) ys = ground (arith, mem-append k xs ys)

mem-add_key :
    (k key : String) (found : List String)
    → mem_text k (add_key key found) ≡ (k =ₛ key || mem_text k found)
unfolding add_key
mem-add_key k key found = elim (Bool-cases (mem_text key found)) [
  | inl there ↦ rw there (elim (Bool-cases (k =ₛ key)) [
    | inl same ↦ ground (arith, eq_iff k key, there, same)
    | inr other ↦ rw other refl
  ])
  | inr new ↦ rw new (ground (arith, mem-append k found (key ∷ [])))
]

or_true : (a : Bool) → true ≡ (a || true)
or_true a = ground arith

none_more : (a b : Bool) → a ≡ (a || (b && false))
none_more a b = ground arith

distribute : (a b c d : Bool) → ((a || (b && c)) || (b && d)) ≡ (a || (b && (c || d)))
distribute a b c d = ground arith

distribute_three :
    (a b c d e : Bool) → (((a || (b && c)) || (b && d)) || (b && e)) ≡ (a || (b && ((c || d) || e)))
distribute_three a b c d e = ground arith

-- What one key adds, for any set of old keys.
mem-add_old :
    (k key : String) (old found : List String)
    → mem_text k (if mem_text key old then add_key key found else found)
      ≡ (mem_text k found || (mem_text k old && k =ₛ key))
mem-add_old k key old found = elim (Bool-cases (k =ₛ key)) [
  | inl same ↦
      let e : k ≡ key = ground (arith, eq_iff k key, same) in
      elim (Bool-cases (mem_text key old)) [
        | inl is_old ↦ rw (is_old, mem-add_key k key found, same) (rw (e, is_old) (or_true _))
        | inr other ↦ rw other (rw (e, other) (none_more _ true))
      ]
  | inr different ↦ elim (Bool-cases (mem_text key old)) [
    | inl is_old ↦ rw (is_old, mem-add_key k key found, different) (none_more _ _)
    | inr other ↦ rw (other, different) (none_more _ _)
  ]
]

-- What `walk` adds to the set.
mutual
  unfolding walk occurs

  walk-finds :
      (k : String) (v : Json) (found : List String)
      → mem_text k (walk v found) ≡ (mem_text k found || (mem_text k legacy_qty_keys && occurs k v))
  walk-finds k scalar found = none_more _ _
  walk-finds k (array vs) found = walk_values-finds k vs found
  walk-finds k (object ms) found = walk_members-finds k ms found

  walk_values-finds :
      (k : String) (vs : Values) (found : List String)
      → mem_text k (walk_values vs found)
        ≡ (mem_text k found || (mem_text k legacy_qty_keys && occurs_values k vs))
  walk_values-finds k no_value found = none_more _ _
  walk_values-finds k (value v vs) found =
      walk_values-finds k vs (walk v found)
      ∙ rw (walk-finds k v found) (
          distribute (mem_text k found) (mem_text k legacy_qty_keys) (occurs k v)
            (occurs_values k vs))

  walk_members-finds :
      (k : String) (ms : Members) (found : List String)
      → mem_text k (walk_members ms found)
        ≡ (mem_text k found || (mem_text k legacy_qty_keys && occurs_members k ms))
  walk_members-finds k no_member found = none_more _ _
  walk_members-finds k (member key v ms) found =
      walk_members-finds k ms _
      ∙ rw (walk-finds k v (if mem_text key legacy_qty_keys then add_key key found else found)) (
          rw (mem-add_old k key legacy_qty_keys found) (
            distribute_three (mem_text k found) (mem_text k legacy_qty_keys) (k =ₛ key) (occurs k v)
              (occurs_members k ms)))

-- The guard finds exactly the old keys that the body holds at any depth.
pub find_legacy_qty_keys_lem :
    (k : String) (body : Json)
    → mem_text k (find_legacy_qty_keys body) ≡ (mem_text k legacy_qty_keys && occurs k body)
unfolding find_legacy_qty_keys
find_legacy_qty_keys_lem k body = walk-finds k body []

refuse_keys-passes : (keys : List String) → refuse_keys keys ≡ ok tt → keys ≡ []
unfolding refuse_keys
refuse_keys-passes [] h = refl
refuse_keys-passes (k ∷ keys) h = cc

-- A body that the guard lets through holds none of the old keys at any depth.
pub reject_legacy_qty_keys_passes :
    (body : Json) (k : String)
    → reject_legacy_qty_keys body ≡ ok tt
    → mem_text k legacy_qty_keys ≡ true
    → occurs k body ≡ false
unfolding reject_legacy_qty_keys
reject_legacy_qty_keys_passes body k passes is_old =
    let e : false ≡ (true && occurs k body) =
      rw (refuse_keys-passes _ passes, is_old) at (find_legacy_qty_keys_lem k body) in
    sym e
