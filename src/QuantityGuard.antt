-- ===== src/QuantityGuard.antt =====
-- core/api/utils/quantity_guard.py: requests with a raw quantity under an old key are refused.
pub mod Finds
use tgc_bus_core.Base.{
  ℕ, String, Bool, true, false, ◌||◌, List, [], ◌∷◌, ◌++◌, ◌=ₛ◌, mem_text, if◌then◌else◌,
  text_before,
}
use tgc_bus_core.Tables.{order_by}
use tgc_bus_core.Effects.{legacy_keys, Result, ok, err}

-- A JSON body: what is neither an object nor an array holds no key.
mutual
  pub data Json : Type 0 where
    scalar : Json
    array : Values → Json
    object : Members → Json

  pub data Values : Type 0 where
    no_value : Values
    value : Json → Values → Values

  pub data Members : Type 0 where
    no_member : Members
    member : String → Json → Members → Members

-- LEGACY_QTY_KEYS
abbrev pub legacy_qty_keys : List String
legacy_qty_keys =
    "qty" ∷ "qty_base" ∷ "quantity_int" ∷ "quantity" ∷ "output_qty" ∷ "qty_required" ∷ "raw_qty"
    ∷ []

-- found.add(key)
unfoldable pub add_key : String → List String → List String
add_key key found = if mem_text key found then found else found ++ key ∷ []

-- `walk`, with the set that it adds to.
unfoldable mutual
  unfolding add_key

  pub walk : Json → List String → List String
  walk scalar found = found
  walk (array vs) found = walk_values vs found
  walk (object ms) found = walk_members ms found

  pub walk_values : Values → List String → List String
  walk_values no_value found = found
  walk_values (value v vs) found = walk_values vs (walk v found)

  pub walk_members : Members → List String → List String
  walk_members no_member found = found
  walk_members (member key v ms) found =
      walk_members ms (walk v (if mem_text key legacy_qty_keys then add_key key found else found))

unfoldable pub find_legacy_qty_keys : Json → List String
unfolding walk
find_legacy_qty_keys body = walk body []

unfoldable pub refuse_keys : List String → Result (Unit {0})
refuse_keys [] = ok tt
refuse_keys (k ∷ ks) = err (legacy_keys (order_by text_before (k ∷ ks)))

unfoldable pub reject_legacy_qty_keys : Json → Result (Unit {0})
reject_legacy_qty_keys body = refuse_keys (find_legacy_qty_keys body)
