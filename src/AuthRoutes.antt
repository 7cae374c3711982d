-- ===== src/AuthRoutes.antt =====
-- core/api/routes/auth.py: what signing in, signing out and recovering an account share. SHA-256,
-- the password hashes of core/auth/passwords.py and Unicode's case mappings are parameters, and a
-- time is read once in a request.
pub mod Codes
pub mod Names
pub mod Recovery
pub mod Login
pub mod Recovers
pub mod Once
pub mod Spent
pub mod SignsIn
pub mod Limits
use tgc_bus_core.Base.{
  ℕ, ◌+◌, ◌*◌, String, Bool, true, false, not, ◌&&◌, ◌||◌, Option, none, some, List, [], ◌∷◌, ◌++◌,
  map, ltb, leb, ◌==◌, ◌=ₛ◌, if◌then◌else◌, get_or, is_some, strip, text_length, words, join_words,
  join, length, keep,
}
use tgc_bus_core.Passwords.{validate_password_policy}
use tgc_bus_core.Tables.{find_row, update_row}
use tgc_bus_core.Effects.{
  Error, http, Result, ok, err, Action, Env, Session, pure, raise, raise_if, gets, lift, modify,
  write, flush, commit, ◌>>=◌, ◌>>◌,
}
use tgc_bus_core.Auth.{
  AuthUser, AuthSession, AuthRecoveryCode, AuthRecoveryAttempt, AuthAuditEvent, AuthDb,
}
use tgc_bus_core.Auth.Sessions.{session_is_valid, session_should_touch, max_age}
use tgc_bus_core.Auth.Dependencies.{session_of_hash, enabled_user}

pub record Crypto : Type 0 where
  -- hashlib.sha256(text.encode("utf-8")).hexdigest()
  pub digest : String → String
  -- `hash_password` and `verify_password` of core/auth/passwords.py; the salt is drawn.
  pub hash_password : String → String
  pub verify_password : String → String → Bool
  pub upper : String → String
  pub casefold : String → String

-- Who asks: the cookie "bus_auth_session", the host and the user agent.
pub record Client : Type 0 where
  pub cookie : Option String
  pub host : Option String
  pub user_agent : Option String

pub record LoginRequest : Type 0 where
  pub username : String
  pub password : String

pub record RecoverRequest : Type 0 where
  pub username : String
  pub recovery_code : String
  pub new_password : String

abbrev pub AuthAction : Type 0 → Type 0
AuthAction A = Action (Session AuthDb) A

-- RECOVERY_RATE_LIMIT_MAX_FAILURES and RECOVERY_RATE_LIMIT_WINDOW_MINUTES, in microseconds.
abbrev pub max_failures : ℕ
max_failures = 5

abbrev pub limit_window : ℕ
limit_window = 15 * 60_000_000

abbrev pub recovery_failed : Error
recovery_failed = http 401 "recovery_failed"

-- `_recovery_locked`
unfoldable pub recovery_locked : AuthRecoveryAttempt → ℕ → Bool
recovery_locked row now = elim (row.locked_until) [
  | none ↦ false
  | some locked_until ↦ ltb now locked_until
]

abbrev pub is_locked_row : ℕ → Option AuthRecoveryAttempt → Bool
is_locked_row now none = false
is_locked_row now (some row) = recovery_locked row now

-- The window of the row's failures is over, or none has begun. A bound `t < now - window` of the
-- code is written `t + window < now`.
abbrev pub is_stale : Option ℕ → ℕ → Bool
is_stale none now = true
is_stale (some first_failed_at) now = ltb (first_failed_at + limit_window) now

abbrev pub begin_window : ℕ → AuthRecoveryAttempt → AuthRecoveryAttempt
begin_window now row = record row {
  first_failed_at = some now;
  failed_count = 0;
  locked_until = none;
}

abbrev pub count_failure : ℕ → AuthRecoveryAttempt → AuthRecoveryAttempt
count_failure now row = record row {
  failed_count = row.failed_count + 1;
  locked_until =
      if leb max_failures (row.failed_count + 1)
      then some (now + limit_window)
      else row.locked_until;
}

-- What `_record_recovery_failure` does to the row.
unfoldable pub fail_attempt : ℕ → AuthRecoveryAttempt → AuthRecoveryAttempt
fail_attempt now row =
    count_failure now (if is_stale row.first_failed_at now then begin_window now row else row)

abbrev pub clear_attempt : AuthRecoveryAttempt → AuthRecoveryAttempt
clear_attempt row = record row { failed_count = 0; first_failed_at = none; locked_until = none }

unfoldable pub attempt_of : String → String → List AuthRecoveryAttempt → Option AuthRecoveryAttempt
attempt_of username_norm client_key [] = none
attempt_of username_norm client_key (row ∷ rows) =
    if row.username_norm =ₛ username_norm && row.client_key =ₛ client_key
    then some row
    else attempt_of username_norm client_key rows

unfoldable pub user_of_name : String → List AuthUser → Option AuthUser
user_of_name username_norm [] = none
user_of_name username_norm (u ∷ users) =
    if u.username_norm =ₛ username_norm then some u else user_of_name username_norm users

-- The unused code of the user that has the hash.
unfoldable pub unused_code : ℕ → String → List AuthRecoveryCode → Option AuthRecoveryCode
unused_code user_id code_hash [] = none
unused_code user_id code_hash (c ∷ codes) =
    if c.user_id == user_id && c.code_hash =ₛ code_hash && not (is_some c.used_at)
    then some c
    else unused_code user_id code_hash codes

-- A session that is not revoked yet, of the user.
abbrev pub revoke : ℕ → ℕ → AuthSession → AuthSession
revoke now user_id a =
    if a.user_id == user_id && not (is_some a.revoked_at)
    then record a { revoked_at = some now }
    else a

-- `_revoke_user_sessions`
abbrev pub revoke_user_sessions : ℕ → ℕ → AuthDb → AuthDb
revoke_user_sessions now user_id db = record db { sessions = map (revoke now user_id) db.sessions }

abbrev pub use_code : ℕ → AuthRecoveryCode → AuthRecoveryCode
use_code now c = record c { used_at = some now }

abbrev pub audit : String → Option ℕ → Option (String × ℕ) → AuthAction (Unit {0})
audit action actor_user_id target = write (λ db. record db {
  audit_events =
      db.audit_events
      ++ record { action = action; actor_user_id = actor_user_id; target = target } ∷ [];
})

-- A ValueError, as `_require_valid_password` answers it.
abbrev pub as_bad_request : Result (Unit {0}) → Result (Unit {0})
as_bad_request (err (Error.value_error text)) = err (http 400 text)
as_bad_request r = r

unfoldable pub require_valid_password : String → Result (Unit {0})
require_valid_password password = as_bad_request (validate_password_policy password)

module _ (env : Env) (crypto : Crypto) where
  -- `hash_session_token`, of a token that is not empty.
  abbrev pub hash_session_token : String → String
  hash_session_token token = join "sha256-v1$" (crypto.digest token)

  -- `_hash_recovery_code`
  unfoldable pub hash_recovery_code : String → String
  hash_recovery_code code = join "recovery-sha256-v1$" (crypto.digest (crypto.upper (strip code)))

  -- `_hash_user_agent`
  unfoldable pub hash_user_agent : Client → Option String
  hash_user_agent client = elim (client.user_agent) [
    | none ↦ none
    | some agent ↦ if agent =ₛ "" then none else some (join "sha256-v1$" (crypto.digest agent))
  ]

  -- `_client_key`
  unfoldable pub client_key_of : Client → String
  client_key_of client = join "sha256-v1$" (
      crypto.digest (
        join (get_or client.host "unknown")
          (join "|" (get_or (hash_user_agent client) "no-agent"))))

  -- `normalize_username`; none is its ValueError.
  unfoldable pub normalize_username : String → Option String
  normalize_username username =
      let normalized = join_words (words (crypto.casefold (strip username))) in
      if normalized =ₛ "" then none else some normalized

  -- `_recovery_username_key`
  unfoldable pub recovery_username_key : String → String × Bool
  recovery_username_key username = elim (normalize_username username) [
    | some username_norm ↦ (username_norm, true)
    | none ↦ (join "invalid$" (crypto.digest (crypto.casefold (strip username))), false)
  ]
