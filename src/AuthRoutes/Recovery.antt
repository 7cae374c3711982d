-- ===== src/AuthRoutes/Recovery.antt =====
-- core/api/routes/auth.py: the recovery of an account by a code, and its limit.
use tgc_bus_core.Base.{
  ℕ, String, Bool, false, Option, none, some, [], ◌∷◌, ◌++◌, map, ◌==◌, if◌then◌else◌, length,
}
use tgc_bus_core.Tables.{find_row, update_row}
use tgc_bus_core.Effects.{
  http, Env, pure, raise, raise_if, gets, lift, write, flush, commit, ◌>>=◌, ◌>>◌,
}
use tgc_bus_core.Auth.{AuthUser, AuthRecoveryCode, AuthRecoveryAttempt, AuthDb}
use tgc_bus_core.Auth.Dependencies.{enabled_user}
use tgc_bus_core.AuthRoutes.{
  AuthAction, recovery_failed, is_locked_row, fail_attempt, clear_attempt, attempt_of, user_of_name,
  unused_code, revoke_user_sessions, use_code, audit, hash_recovery_code, client_key_of,
  require_valid_password, recovery_username_key, Crypto, Client, RecoverRequest,
}

module _ (env : Env) (crypto : Crypto) where
  -- The end of `_rate_limit_row`: the id of the row.
  unfoldable pub ensure_attempt : String → String → Option AuthRecoveryAttempt → AuthAction ℕ
  ensure_attempt username_norm client_key (some row) = pure row.id
  ensure_attempt username_norm client_key none = do
    id ← gets (λ s. env.next_id (map (λ r. r.id) s.rows.recovery_attempts))
    write (λ db. record db {
      recovery_attempts =
          db.recovery_attempts
          ++ record {
            id = id;
            username_norm = username_norm;
            client_key = client_key;
            failed_count = 0;
            first_failed_at = none;
            locked_until = none;
          }
            ∷ [];
    })
    flush
    pure id

  -- `_rate_limit_row`
  unfoldable pub rate_limit_row : String → String → AuthAction ℕ
  rate_limit_row username_norm client_key = do
    found ← gets (λ s. attempt_of username_norm client_key s.flushed.recovery_attempts)
    ensure_attempt username_norm client_key found

  abbrev pub change_attempt :
      ℕ → (AuthRecoveryAttempt → AuthRecoveryAttempt) → AuthAction (Unit {0})
  change_attempt id f =
      write
        (λ db. record db { recovery_attempts = update_row (λ r. r.id) id f db.recovery_attempts })

  -- `_record_recovery_failure`
  unfoldable pub record_recovery_failure : String → String → AuthAction (Unit {0})
  record_recovery_failure username_norm client_key = do
    id ← rate_limit_row username_norm client_key
    change_attempt id (fail_attempt env.now)

  abbrev pub clear_found : Option AuthRecoveryAttempt → AuthAction (Unit {0})
  clear_found none = pure tt
  clear_found (some row) = change_attempt row.id clear_attempt

  -- `_clear_recovery_failures`
  unfoldable pub clear_recovery_failures : String → String → AuthAction (Unit {0})
  clear_recovery_failures username_norm client_key = do
    found ← gets (λ s. attempt_of username_norm client_key s.flushed.recovery_attempts)
    clear_found found

  abbrev pub named_or_none : AuthDb → String × Bool → Option AuthUser
  named_or_none db (username_norm, username_valid) =
      if username_valid then user_of_name username_norm db.users else none

  abbrev pub with_user : AuthUser → Option AuthRecoveryCode → Option (AuthUser × AuthRecoveryCode)
  with_user user none = none
  with_user user (some code) = some (user, code)

  abbrev pub code_for : AuthDb → String → Option AuthUser → Option (AuthUser × AuthRecoveryCode)
  code_for db recovery_code none = none
  code_for db recovery_code (some user) =
      with_user user
        (unused_code user.id (hash_recovery_code env crypto recovery_code) db.recovery_codes)

  -- The user and the code that a recovery may use.
  unfoldable pub recoverable :
      AuthDb → String × Bool → String → Option (AuthUser × AuthRecoveryCode)
  recoverable db key recovery_code = code_for db recovery_code (enabled_user (named_or_none db key))

  abbrev pub reset_password : String → AuthUser → AuthUser
  reset_password new_password u = record u {
    password_hash = crypto.hash_password new_password;
    must_change_password = false;
  }

  unfoldable pub refuse_recovery : String → String → AuthAction (Unit {0})
  refuse_recovery username_norm client_key = do
    record_recovery_failure username_norm client_key
    commit
    raise recovery_failed

  -- The end of a recovery that succeeds.
  unfoldable pub complete_recovery :
      String → String → String → AuthUser → AuthRecoveryCode → AuthAction (Unit {0})
  complete_recovery username_norm client_key new_password user code = do
    write (λ db. record db {
      recovery_codes = update_row (λ c. c.id) code.id (use_code env.now) db.recovery_codes;
    })
    write (λ db. record db {
      users = update_row (λ u. u.id) user.id (reset_password new_password) db.users;
    })
    write (revoke_user_sessions env.now user.id)
    clear_recovery_failures username_norm client_key
    audit "auth.recovery_used" (some user.id) (some ("user", user.id))
    commit

  abbrev pub answer_found :
      RecoverRequest
      → String × Bool
      → String
      → Option (AuthUser × AuthRecoveryCode)
      → AuthAction (Unit {0})
  answer_found payload key client_key none = refuse_recovery key.0 client_key
  answer_found payload key client_key (some (user, code)) =
      complete_recovery key.0 client_key payload.new_password user code

  unfoldable pub try_recovery : RecoverRequest → String × Bool → String → AuthAction (Unit {0})
  try_recovery payload key client_key = do
    lift (require_valid_password payload.new_password)
    found ← gets (λ s. recoverable s.flushed key payload.recovery_code)
    answer_found payload key client_key found

  unfoldable pub is_locked : ℕ → AuthDb → Bool
  is_locked id db = is_locked_row env.now (find_row (λ r. r.id) id db.recovery_attempts)

  abbrev pub refuse_locked : AuthAction (Unit {0})
  refuse_locked = do commit; raise recovery_failed

  unfoldable pub recover : RecoverRequest → Client → AuthAction (Unit {0})
  recover payload client = do
    user_count ← gets (λ s. length s.flushed.users)
    raise_if (user_count == 0) (http 409 "claimed_mode_required")
    let key = recovery_username_key env crypto payload.username
    let client_key = client_key_of env crypto client
    id ← rate_limit_row key.0 client_key
    locked ← gets (λ s. is_locked id s.rows)
    if locked then refuse_locked else try_recovery payload key client_key
