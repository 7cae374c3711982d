-- ===== src/Auth/Management.antt =====
-- core/auth/management.py: the system roles, and the guard on the last enabled owner.
use tgc_bus_core.Base.{
  ℕ, String, Bool, true, not, ◌&&◌, Option, none, some, List, [], ◌∷◌, ◌++◌, map, ltb, ◌==◌, ◌=ₛ◌,
  mem_text, if◌then◌else◌, keep, any, length,
}
use tgc_bus_core.Effects.{
  value_error, Action, Env, Session, pure, raise_if, gets, write, flush, ◌>>=◌, ◌>>◌,
}
use tgc_bus_core.Auth.{AuthRole, AuthUserRole, AuthRolePermission, AuthDb}
use tgc_bus_core.Auth.Permissions.{owner_role_key, default_role_bundles}

unfoldable pub role_of_key : String → List AuthRole → Option AuthRole
role_of_key key [] = none
role_of_key key (r ∷ roles) = if r.key =ₛ key then some r else role_of_key key roles

-- The permissions that a query finds for a role.
unfoldable pub permissions_of : ℕ → List AuthRolePermission → List String
permissions_of role_id rows = map (λ p. p.permission) (keep (λ p. p.role_id == role_id) rows)

-- The role of a key, made where there is none.
unfoldable pub ensure_role : Env → String → Option AuthRole → Action (Session AuthDb) ℕ
ensure_role env key (some role) = pure role.id
ensure_role env key none = do
  id ← gets (λ s. env.next_id (map (λ r. r.id) s.rows.roles))
  write
      (λ db. record db { roles = db.roles ++ record { id = id; key = key; is_system = true } ∷ [] })
  flush
  pure id

unfoldable pub grant : ℕ → List String → List String → List AuthRolePermission
grant role_id existing [] = []
grant role_id existing (permission ∷ permissions) =
    let rest = grant role_id existing permissions in
    if mem_text permission existing
    then rest
    else record { role_id = role_id; permission = permission } ∷ rest

unfoldable pub ensure_bundle : Env → String → List String → Action (Session AuthDb) (Unit {0})
ensure_bundle env key permissions = do
  found ← gets (λ s. role_of_key key s.flushed.roles)
  role_id ← ensure_role env key found
  existing ← gets (λ s. permissions_of role_id s.flushed.role_permissions)
  write (λ db. record db {
    role_permissions = db.role_permissions ++ grant role_id existing permissions;
  })

unfoldable pub ensure_bundles :
    Env → List (String × List String) → Action (Session AuthDb) (Unit {0})
ensure_bundles env [] = pure tt
ensure_bundles env ((key, permissions) ∷ bundles) = do
  ensure_bundle env key permissions
  ensure_bundles env bundles

unfoldable pub ensure_system_roles : Env → Action (Session AuthDb) (Unit {0})
ensure_system_roles env = do ensure_bundles env default_role_bundles; flush

-- A role row says that the user is an owner.
unfoldable pub is_owner : List AuthUserRole → List AuthRole → ℕ → Bool
is_owner user_roles roles user_id =
    any (λ u. u.user_id == user_id && any (λ r. r.id == u.role_id && r.key =ₛ owner_role_key) roles)
      user_roles

-- `_enabled_owner_user_ids`: a set, since the ids of users are unique.
unfoldable pub enabled_owner_user_ids : AuthDb → List ℕ
enabled_owner_user_ids db =
    map (λ u. u.id) (keep (λ u. u.is_enabled && is_owner db.user_roles db.roles u.id) db.users)

abbrev pub is_guarded : String → Bool
is_guarded proposed_change =
    mem_text proposed_change ("disable" ∷ "delete" ∷ "remove_owner_role" ∷ [])

abbrev pub is_last : ℕ → List ℕ → Bool
is_last user_id enabled_owner_ids =
    any (λ i. i == user_id) enabled_owner_ids && not (ltb 1 (length enabled_owner_ids))

-- `assert_not_last_enabled_owner`
unfoldable pub assert_not_last_enabled_owner : ℕ → String → Action (Session AuthDb) (Unit {0})
assert_not_last_enabled_owner user_id proposed_change = do
  enabled_owner_ids ← gets (λ s. enabled_owner_user_ids s.flushed)
  raise_if (is_guarded proposed_change && is_last user_id enabled_owner_ids)
      (value_error "last_enabled_owner")
