-- ===== src/AuthRoutes/Login.antt =====
-- core/api/routes/auth.py: signing in and out, and new recovery codes.
use tgc_bus_core.Base.{
  ℕ, ◌+◌, String, not, ◌&&◌, Option, none, some, List, [], ◌∷◌, ◌++◌, map, length, ◌==◌, ◌=ₛ◌,
  if◌then◌else◌, get_or, is_some,
}
use tgc_bus_core.Tables.{find_row, update_row}
use tgc_bus_core.Effects.{
  http, Env, pure, raise, raise_if, gets, or_raise, write, flush, commit, ◌>>=◌, ◌>>◌,
}
use tgc_bus_core.Auth.{AuthUser, AuthSession, AuthRecoveryCode, AuthDb}
use tgc_bus_core.Auth.Sessions.{session_is_valid, session_should_touch, max_age}
use tgc_bus_core.Auth.Dependencies.{AuthUserContext, session_of_hash, enabled_user}
use tgc_bus_core.AuthRoutes.{
  Crypto, Client, LoginRequest, AuthAction, user_of_name, audit, hash_session_token,
  hash_recovery_code, use_code, normalize_username,
}

module _ (env : Env) (crypto : Crypto) where
  -- The session of `_create_session`.
  unfoldable pub new_session : ℕ → ℕ → AuthSession
  new_session user_id id = record {
    id = id;
    user_id = user_id;
    session_hash = hash_session_token env crypto env.new_token;
    created_at = some env.now;
    expires_at = some (env.now + max_age);
    revoked_at = none;
    last_seen_at = some env.now;
  }

  -- `_create_session`: the token.
  unfoldable pub create_session : ℕ → AuthAction String
  create_session user_id = do
    id ← gets (λ s. env.next_id (map (λ a. a.id) s.rows.sessions))
    write (λ db. record db { sessions = db.sessions ++ new_session user_id id ∷ [] })
    flush
    pure env.new_token

  abbrev pub refuse_login : ℕ → String → AuthAction String
  refuse_login status reason = do
    audit "auth.login_failed" none none
    commit
    raise (http status reason)

  abbrev pub set_last_login : AuthUser → AuthUser
  set_last_login u = record u { last_login_at = some env.now }

  unfoldable pub sign_in : AuthUser → AuthAction String
  sign_in user = do
    token ← create_session user.id
    write (λ db. record db { users = update_row (λ u. u.id) user.id set_last_login db.users })
    audit "auth.login_success" (some user.id) (some ("user", user.id))
    commit
    pure token

  abbrev pub named_user : AuthDb → Option String → Option AuthUser
  named_user db none = none
  named_user db (some username_norm) = user_of_name username_norm db.users

  abbrev pub with_password : String → Option AuthUser → Option AuthUser
  with_password password none = none
  with_password password (some user) =
      if crypto.verify_password password user.password_hash then some user else none

  -- The user of the name, with the password.
  unfoldable pub authenticated : AuthDb → LoginRequest → Option AuthUser
  authenticated db payload =
      with_password payload.password
        (named_user db (normalize_username env crypto payload.username))

  -- The token that the cookie is set to.
  unfoldable pub login : LoginRequest → AuthAction String
  login payload = do
    user_count ← gets (λ s. length s.flushed.users)
    raise_if (user_count == 0) (http 409 "setup_required")
    found ← gets (λ s. authenticated s.flushed payload)
    elim found [
      | none ↦ refuse_login 401 "invalid_credentials"
      | some user ↦ if user.is_enabled then sign_in user else refuse_login 403 "user_disabled"
    ]

  -- The session of the cookie, if it is valid.
  unfoldable pub cookie_session : AuthDb → Option String → Option AuthSession
  cookie_session db none = none
  cookie_session db (some token) =
      let found =
        if token =ₛ ""
        then none
        else session_of_hash (hash_session_token env crypto token) db.sessions in
      if session_is_valid found env.now then found else none

  abbrev pub touch : AuthSession → AuthSession
  touch a = record a { last_seen_at = some env.now }

  abbrev pub change_session : ℕ → (AuthSession → AuthSession) → AuthAction (Unit {0})
  change_session id f =
      write (λ db. record db { sessions = update_row (λ a. a.id) id f db.sessions })

  -- The sessions's user is enabled: the session is touched.
  unfoldable pub use_session :
      AuthSession → Option AuthUser → AuthAction (Option (AuthSession × AuthUser))
  use_session a none = pure none
  use_session a (some user) = do
    (if session_should_touch a env.now then change_session a.id touch else pure tt)
    pure (some (a, user))

  -- `_current_session`
  unfoldable pub current_session : Client → AuthAction (Option (AuthSession × AuthUser))
  current_session client = do
    found ← gets (λ s. cookie_session s.flushed client.cookie)
    elim found [
      | none ↦ pure none
      | some a ↦ (do
        user ← gets (λ s. enabled_user (find_row (λ u. u.id) a.user_id s.rows.users))
        use_session a user)
    ]

  abbrev pub sign_out : AuthSession → AuthSession
  sign_out a = record a { revoked_at = some env.now }

  unfoldable pub logout : Client → AuthAction (Unit {0})
  logout client = do
    found ← current_session client
    elim found [
      | none ↦ pure tt
      | some (a, user) ↦ (do
        change_session a.id sign_out
        audit "auth.logout" (some user.id) (some ("session", a.id))
        commit)
    ]

  abbrev pub retire_code : ℕ → AuthRecoveryCode → AuthRecoveryCode
  retire_code user_id c =
      if c.user_id == user_id && not (is_some c.used_at) then use_code env.now c else c

  -- `_new_recovery_codes`, of the texts that `_recovery_code` draws.
  unfoldable pub new_recovery_codes : ℕ → List String → AuthAction (Unit {0})
  new_recovery_codes user_id [] = pure tt
  new_recovery_codes user_id (code ∷ drawn) = do
    id ← gets (λ s. env.next_id (map (λ c. c.id) s.rows.recovery_codes))
    write (λ db. record db {
      recovery_codes =
          db.recovery_codes
          ++ record {
            id = id;
            user_id = user_id;
            code_hash = hash_recovery_code env crypto code;
            used_at = none;
          }
            ∷ [];
    })
    new_recovery_codes user_id drawn

  -- `_claimed_actor_id`
  unfoldable pub claimed_actor_id : AuthUserContext → AuthAction ℕ
  claimed_actor_id actor = do
    raise_if (not (actor.mode =ₛ "claimed")) (http 409 "claimed_mode_required")
    or_raise actor.user_id (http 409 "claimed_mode_required")

  unfoldable pub regenerate_recovery_codes :
      AuthUserContext → Option ℕ → List String → AuthAction (List String)
  regenerate_recovery_codes actor user_id drawn = do
    user_count ← gets (λ s. length s.flushed.users)
    raise_if (user_count == 0) (http 409 "claimed_mode_required")
    actor_user_id ← claimed_actor_id actor
    let target_user_id = get_or user_id actor_user_id
    user ← gets (λ s. find_row (λ u. u.id) target_user_id s.rows.users)
    found ← or_raise user (http 404 "user_not_found")
    write (λ db. record db { recovery_codes = map (retire_code target_user_id) db.recovery_codes })
    new_recovery_codes target_user_id drawn
    audit "auth.recovery_codes_regenerated" (some actor_user_id) (some ("user", target_user_id))
    commit
    pure drawn
