-- ===== src/AuthRoutes/Recovers.antt =====
-- core/api/routes/auth.py: what a recovery needs, and what it leaves.
use mathlib.Core.Path.{subst}
use tgc_bus_core.Base.{
  ℕ, ◌≡◌, refl, ap, ◌∙◌, sym, arith, String, Bool, true, false, Option, none, some, List, [], ◌∷◌,
  ◌++◌, map, length, ◌==◌, All, Mem, Bool-cases, Option-cases, inl, inr,
}
use tgc_bus_core.Tables.{find_row, update_row, IsKeyed}
use tgc_bus_core.Tables.Rows.{find_row-keyed, find_row-update_self}
use tgc_bus_core.Effects.{ok, Result-cases, Env, Session, fresh}
use tgc_bus_core.Auth.{AuthUser, AuthSession, AuthRecoveryCode, AuthRecoveryAttempt, AuthDb}
use tgc_bus_core.Auth.Sessions.{session_is_valid}
use tgc_bus_core.Auth.Dependencies.{enabled_user}
use tgc_bus_core.Auth.Access.{enabled_user_lem}
use tgc_bus_core.AuthRoutes.{
  Crypto, Client, RecoverRequest, recovery_failed, attempt_of, unused_code, revoke, use_code,
  hash_recovery_code, require_valid_password, recovery_username_key, client_key_of,
  normalize_username,
}
use tgc_bus_core.AuthRoutes.Recovery.{
  code_for, named_or_none, recoverable, record_recovery_failure, refuse_recovery,
  clear_recovery_failures, complete_recovery, try_recovery, is_locked, rate_limit_row,
  ensure_attempt, recover,
}
use tgc_bus_core.AuthRoutes.Names.{recovery_user}
use tgc_bus_core.AuthRoutes.Codes.{never_ok, Usable, unused_code-Usable}

module _ (env : Env) (crypto : Crypto) where
  abbrev new_attempt : String → String → ℕ → AuthRecoveryAttempt
  new_attempt name key id = record {
    id = id;
    username_norm = name;
    client_key = key;
    failed_count = 0;
    first_failed_at = none;
    locked_until = none;
  }

  -- After the row for the limit is made sure of, nothing else has changed.
  rate_limit_row-runs :
      (name key : String) (db : AuthDb)
      → (attempts : List AuthRecoveryAttempt) × (id : ℕ) × (rate_limit_row env crypto name key
            (fresh db)
          ≡ (
            ok id,
            record {
              rows = record db { recovery_attempts = attempts };
              flushed = record db { recovery_attempts = attempts };
              committed = db;
            },
          ))
  unfolding rate_limit_row ensure_attempt
  rate_limit_row-runs name key db = elim (Option-cases (attempt_of name key db.recovery_attempts)) [
    | inl missing ↦
        let id = env.next_id (map (λ (r : AuthRecoveryAttempt). r.id) db.recovery_attempts) in
        (db.recovery_attempts ++ new_attempt name key id ∷ [], id, rw missing refl)
    | inr (row, found) ↦ (db.recovery_attempts, row.id, rw found refl)
  ]

  pub code_for-some :
      (db : AuthDb) (recovery_code : String) (o : Option AuthUser) (user : AuthUser)
      (code : AuthRecoveryCode)
      → code_for env crypto db recovery_code o ≡ some (user, code)
      → (o ≡ some user)
        × (unused_code user.id (hash_recovery_code env crypto recovery_code) db.recovery_codes
            ≡ some code)
  code_for-some db recovery_code none user code h = cc
  code_for-some db recovery_code (some u) user code h =
      elim (Option-cases
        (unused_code u.id (hash_recovery_code env crypto recovery_code) db.recovery_codes)) [
          | inl missing ↦ (let e : none ≡ some (user, code) = rw missing at h in cc)
          | inr (c, found) ↦
              (let e : some (u, c) ≡ some (user, code) = rw found at h in
                let same_u : u ≡ user = cc in
                let same_c : c ≡ code = cc in
                (ap some same_u, rw (← same_u) (found ∙ ap some same_c)))
        ]

  -- What a recovery that succeeds does with the tables.
  pub record Recovered (user : AuthUser) (code : AuthRecoveryCode) (before after : AuthDb)
      : Type 0 where
    pub codes :
        after.recovery_codes
        ≡ update_row
            (λ (c : AuthRecoveryCode). c.id)
            code.id
            (use_code env.now)
            before.recovery_codes
    pub sessions : after.sessions ≡ map (revoke env.now user.id) before.sessions

  complete_recovery-Recovered :
      (name key new_password : String) (user : AuthUser) (code : AuthRecoveryCode)
      (s : Session AuthDb)
      → Recovered user code s.rows
          (complete_recovery env crypto name key new_password user code s).1.committed
  unfolding complete_recovery clear_recovery_failures
  complete_recovery-Recovered name key new_password user code s =
      elim (Option-cases (attempt_of name key s.flushed.recovery_attempts)) [
        | inl missing ↦ rw missing (record { codes = refl; sessions = refl })
        | inr (row, found) ↦ rw found (record { codes = refl; sessions = refl })
      ]

  try_recovery-Recovered :
      (payload : RecoverRequest) (key : String × Bool) (client_key : String) (s : Session AuthDb)
      → (try_recovery env crypto payload key client_key s).0 ≡ ok tt
      → (user : AuthUser) × (code : AuthRecoveryCode) × (recoverable env crypto s.flushed key
            payload.recovery_code
          ≡ some (user, code))
        × Recovered user code s.rows (try_recovery env crypto payload key client_key s).1.committed
  unfolding try_recovery refuse_recovery
  try_recovery-Recovered payload key client_key s h =
      elim (Result-cases (require_valid_password payload.new_password)) [
        | inr (e, bad) ↦ (let e' = rw bad at h in cc)
        | inl (_, good) ↦
            elim (Option-cases (recoverable env crypto s.flushed key payload.recovery_code)) [
              | inl missing ↦ absurd (
                  never_ok (record_recovery_failure env crypto key.0 client_key) recovery_failed s
                    tt (rw (good, missing) at h))
              | inr ((user, code), found) ↦ (
                user,
                code,
                found,
                rw (good, found)
                    (complete_recovery-Recovered key.0 client_key payload.new_password user code s),
              )
            ]
      ]

  code_for-same :
      (db : AuthDb) (attempts : List AuthRecoveryAttempt) (recovery_code : String)
      (o : Option AuthUser)
      → code_for env crypto db recovery_code o
        ≡ code_for env crypto (record db { recovery_attempts = attempts }) recovery_code o
  code_for-same db attempts recovery_code none = refl
  code_for-same db attempts recovery_code (some user) = refl

  pub recover-Recovered :
      (payload : RecoverRequest) (client : Client) (db : AuthDb)
      → (recover env crypto payload client (fresh db)).0 ≡ ok tt
      → (user : AuthUser) × (code : AuthRecoveryCode) × (recoverable env crypto db
            (recovery_username_key env crypto payload.username)
            payload.recovery_code
          ≡ some (user, code))
        × Recovered user code db (recover env crypto payload client (fresh db)).1.committed
  unfolding recover recoverable
  recover-Recovered payload client db h = elim (Bool-cases (length db.users == 0)) [
    | inl unclaimed ↦ (let e = rw unclaimed at h in cc)
    | inr claimed ↦
        let key = recovery_username_key env crypto payload.username in
        let client_key = client_key_of env crypto client in
        let (attempts, id, runs) = rate_limit_row-runs key.0 client_key db in
        let db' : AuthDb = record db { recovery_attempts = attempts } in
        elim (Bool-cases (is_locked env crypto id db')) [
          | inl locked ↦ (let e = rw (claimed, runs, locked) at h in cc)
          | inr unlocked ↦
              let (user, code, found, done) =
                try_recovery-Recovered payload key client_key
                  (record { rows = db'; flushed = db'; committed = db })
                  (rw (claimed, runs, unlocked) at h) in
              rw (claimed, runs, unlocked)
                (
                  user,
                  code,
                  code_for-same db attempts payload.recovery_code
                        (enabled_user (named_or_none env crypto db key))
                      ∙ found,
                  record { codes = done.codes; sessions = done.sessions },
                )
        ]
  ]

  -- The user and the code of a recovery that succeeds.
  pub recover-Usable :
      (payload : RecoverRequest) (client : Client) (db : AuthDb)
      → IsKeyed (λ (c : AuthRecoveryCode). c.id) db.recovery_codes
      → (recover env crypto payload client (fresh db)).0 ≡ ok tt
      → (user : AuthUser) × (code : AuthRecoveryCode) × (enabled_user
            (named_or_none env crypto db (recovery_username_key env crypto payload.username))
          ≡ some user)
        × (find_row (λ (c : AuthRecoveryCode). c.id) code.id db.recovery_codes ≡ some code)
        × Usable user.id (hash_recovery_code env crypto payload.recovery_code) code
        × Recovered user code db (recover env crypto payload client (fresh db)).1.committed
  unfolding recoverable
  recover-Usable payload client db keyed h =
      let (user, code, found, done) = recover-Recovered payload client db h in
      let (named, unused) = code_for-some db payload.recovery_code _ user code found in
      let (here, usable) =
        unused_code-Usable
          (λ c. find_row (λ (c : AuthRecoveryCode). c.id) c.id db.recovery_codes ≡ some c) user.id _
          db.recovery_codes code unused
          (find_row-keyed (λ (c : AuthRecoveryCode). c.id) db.recovery_codes keyed) in
      (user, code, named, here, usable, done)

  each_revoked :
      (user_id : ℕ) (sessions : List AuthSession)
      → All
          (λ a. a.user_id ≡ user_id → (t : ℕ) → session_is_valid (some a) t ≡ false)
          (map (revoke env.now user_id) sessions)
  unfolding session_is_valid
  each_revoked user_id [] = tt
  each_revoked user_id (a ∷ sessions) = (λ same t. ground arith, each_revoked user_id sessions)

-- Where the keys of the codes are apart: a recovery that succeeds used a code that was unused and
-- had the hash of the text given, of a user who is in the database, is enabled and has the name
-- given, once normalised; afterwards that code is used, and no session of the user is valid, at
-- any time.
pub recover_ok :
    (env : Env) (crypto : Crypto) (payload : RecoverRequest) (client : Client) (db : AuthDb)
    → IsKeyed (λ (c : AuthRecoveryCode). c.id) db.recovery_codes
    → (recover env crypto payload client (fresh db)).0 ≡ ok tt
    → let after = (recover env crypto payload client (fresh db)).1.committed in
      (user : AuthUser) × (code : AuthRecoveryCode) × Mem user db.users
      × (normalize_username env crypto payload.username ≡ some user.username_norm)
      × (user.is_enabled ≡ true)
      × (code.user_id ≡ user.id)
      × (code.code_hash ≡ hash_recovery_code env crypto payload.recovery_code)
      × (code.used_at ≡ none)
      × (find_row (λ (c : AuthRecoveryCode). c.id) code.id db.recovery_codes ≡ some code)
      × (find_row (λ (c : AuthRecoveryCode). c.id) code.id after.recovery_codes
          ≡ some (use_code env.now code))
      × All
          (λ a. a.user_id ≡ user.id → (t : ℕ) → session_is_valid (some a) t ≡ false)
          after.sessions
recover_ok env crypto payload client db keyed h =
    let (user, code, named, here, usable, done) =
      recover-Usable env crypto payload client db keyed h in
    let (found, enabled) = enabled_user_lem _ user named in
    let (there, has_name) = recovery_user env crypto payload.username db user found in
    (
      user,
      code,
      there,
      has_name,
      enabled,
      usable.of_user,
      usable.matches,
      usable.unused,
      here,
      ap (find_row (λ (c : AuthRecoveryCode). c.id) code.id) done.codes
          ∙ find_row-update_self (λ (c : AuthRecoveryCode). c.id) code.id (use_code env.now)
              db.recovery_codes (λ c. refl) here,
      subst (All (λ a. a.user_id ≡ user.id → (t : ℕ) → session_is_valid (some a) t ≡ false))
          (sym done.sessions) (each_revoked env crypto user.id db.sessions),
    )
