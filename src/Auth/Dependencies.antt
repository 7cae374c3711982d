-- ===== src/Auth/Dependencies.antt =====
-- core/auth/dependencies.py: who a request comes from, and whether it has a permission. The SHA-256
-- digest of `hashlib` is a parameter.
use tgc_bus_core.Base.{
  ℕ, String, Bool, false, not, ◌||◌, Option, none, some, List, [], ◌∷◌, ◌++◌, map, ◌==◌, ◌=ₛ◌,
  mem_text, if◌then◌else◌, keep, length, join, text_before,
}
use tgc_bus_core.Tables.{find_row, order_by}
use tgc_bus_core.Effects.{
  Error, http, Result, ok, err, Action, pure, raise_if, gets, lift, modify, of_option, ◌then_do◌,
  ◌>>=◌, ◌>>◌,
}
use tgc_bus_core.Auth.{AuthUser, AuthRole, AuthUserRole, AuthRolePermission, AuthSession, AuthDb}
use tgc_bus_core.Auth.Permissions.{all_permissions, owner_role_key}
use tgc_bus_core.Auth.Sessions.{session_is_valid}

pub record AuthUserContext : Type 0 where
  pub mode : String
  pub user_id : Option ℕ
  pub username : String
  pub roles : List String
  pub permissions : List String
  pub session_id : Option ℕ

-- A request: its cookie "bus_auth_session", and what its state holds.
pub record Request : Type 0 where
  pub cookie : Option String
  pub auth_mode : Option String
  pub session_id : Option ℕ
  pub user_id : Option ℕ

pub record AuthState : Type 0 where
  pub db : AuthDb
  pub request : Request

-- HTTPException(401, {"error": "auth_required"}) and its kin.
abbrev pub auth_required : Error
auth_required = http 401 "auth_required"

-- `_auth_user_count`
unfoldable pub auth_user_count : AuthDb → ℕ
auth_user_count db = if db.has_tables then length db.users else 0

-- `_unclaimed_context`
abbrev pub unclaimed_context : AuthUserContext
unclaimed_context = record {
  mode = "unclaimed";
  user_id = none;
  username = "local-system";
  roles = owner_role_key ∷ [];
  permissions = all_permissions;
  session_id = none;
}

unfoldable pub session_of_hash : String → List AuthSession → Option AuthSession
session_of_hash hash [] = none
session_of_hash hash (a ∷ sessions) =
    if a.session_hash =ₛ hash then some a else session_of_hash hash sessions

-- Each text once.
unfoldable pub as_set : List String → List String
as_set [] = []
as_set (t ∷ texts) = let rest = as_set texts in if mem_text t rest then rest else t ∷ rest

-- The roles of a user, by the join over `AuthUserRole`.
unfoldable pub roles_of : ℕ → List AuthUserRole → List AuthRole → List AuthRole
roles_of user_id [] roles = []
roles_of user_id (u ∷ user_roles) roles =
    let rest = roles_of user_id user_roles roles in
    if u.user_id == user_id then keep (λ r. r.id == u.role_id) roles ++ rest else rest

abbrev pub has_role : List AuthRole → ℕ → Bool
has_role [] id = false
has_role (r ∷ roles) id = r.id == id || has_role roles id

unfoldable pub granted_texts : List AuthRole → List AuthRolePermission → List String
granted_texts roles rows = map (λ p. p.permission) (keep (λ p. has_role roles p.role_id) rows)

-- `_roles_and_permissions`
unfoldable pub roles_and_permissions : AuthDb → ℕ → List String × List String
unfolding order_by
roles_and_permissions db user_id =
    let role_rows = roles_of user_id db.user_roles db.roles in
    let roles = order_by text_before (map (λ r. r.key) role_rows) in
    (
      roles,
      if mem_text owner_role_key roles
          then all_permissions
          else order_by text_before (as_set (granted_texts role_rows db.role_permissions)),
    )

-- A user id in the request's state that is not the session's.
abbrev pub mismatched : Option ℕ → ℕ → Bool
mismatched none user_id = false
mismatched (some state_user_id) user_id = not (state_user_id == user_id)

abbrev pub enabled_user : Option AuthUser → Option AuthUser
enabled_user none = none
enabled_user (some user) = if user.is_enabled then some user else none

module _ (digest : String → String) (now : ℕ) where
  -- `_session_from_cookie`
  unfoldable pub session_from_cookie : AuthDb → Option String → Option AuthSession
  session_from_cookie db none = none
  session_from_cookie db (some token) =
      if token =ₛ "" then none else session_of_hash (join "sha256-v1$" (digest token)) db.sessions

  -- The session that the request names, by the id in its state or by its cookie.
  unfoldable pub named_session : AuthDb → Request → Option AuthSession
  unfolding find_row
  named_session db request = elim (request.session_id) [
    | some id ↦ find_row (λ a. a.id) id db.sessions
    | none ↦ session_from_cookie db request.cookie
  ]

  -- `_valid_session`
  unfoldable pub valid_session : AuthDb → Request → Option AuthSession
  valid_session db request =
      let auth_session = named_session db request in
      if session_is_valid auth_session now then auth_session else none

  -- The checks of `_claimed_context`.
  unfoldable pub identify : AuthDb → Request → Result (AuthSession × AuthUser)
  unfolding find_row
  identify db request = of_option (valid_session db request) auth_required then_do λ auth_session.
      if mismatched request.user_id auth_session.user_id
      then err auth_required
      else (of_option (enabled_user (find_row (λ u. u.id) auth_session.user_id db.users))
            auth_required
          then_do λ user. ok (auth_session, user))

  unfoldable pub context_of : AuthDb → AuthSession → AuthUser → AuthUserContext
  context_of db auth_session user =
      let (roles, permissions) = roles_and_permissions db user.id in
      record {
        mode = "claimed";
        user_id = some user.id;
        username = user.username;
        roles = roles;
        permissions = permissions;
        session_id = some auth_session.id;
      }

  -- `_claimed_context`
  unfoldable pub claimed_context : Action AuthState AuthUserContext
  claimed_context = do
    identified ← gets (λ s. identify s.db s.request)
    (auth_session, user) ← lift identified
    modify (λ s. record s {
      request = record s.request {
        auth_mode = some "claimed";
        session_id = some auth_session.id;
        user_id = some user.id;
      };
    })
    gets (λ s. context_of s.db auth_session user)

  abbrev pub is_unclaimed : Option String → Bool
  is_unclaimed none = false
  is_unclaimed (some mode) = mode =ₛ "unclaimed"

  unfoldable pub require_user : Action AuthState AuthUserContext
  require_user = do
    unclaimed ← gets (λ s. is_unclaimed s.request.auth_mode || auth_user_count s.db == 0)
    if unclaimed then pure unclaimed_context else claimed_context

  unfoldable pub require_permission : String → Action AuthState AuthUserContext
  require_permission permission = do
    user ← require_user
    raise_if (not (mem_text permission user.permissions)) (http 403 "permission_denied")
    pure user
