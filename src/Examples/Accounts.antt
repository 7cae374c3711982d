-- ===== src/Examples/Accounts.antt =====
-- An account of the office: its owner signs in, recovers the account, and is locked out. The texts
-- stand for their digests.
use tgc_bus_core.Base.{
  Mem, inr, ℕ, ◌+◌, ◌≡◌, ◌≢◌, refl, arith, false, true, ◌&&◌, none, some, [], ◌∷◌, ltb, leb, ◌=ₛ◌,
  All, join, strip, words, join_words, split_on, text_length,
}
use tgc_bus_core.Tables.{find_row, update_row}
use tgc_bus_core.Effects.{ok, err, fresh}
use tgc_bus_core.Auth.{AuthUser, AuthSession, AuthRecoveryCode, AuthRecoveryAttempt, AuthDb}
use tgc_bus_core.Auth.Sessions.{session_is_valid}
use tgc_bus_core.Auth.Dependencies.{Request, identify, session_of_hash}
use tgc_bus_core.Passwords.{validate_password_policy}
use tgc_bus_core.AuthRoutes.{
  Crypto, Client, RecoverRequest, limit_window, max_failures, recovery_failed, recovery_locked,
  fail_attempt, use_code, hash_recovery_code, client_key_of, hash_user_agent, recovery_username_key,
  attempt_of, user_of_name, require_valid_password, unused_code, normalize_username,
}
use tgc_bus_core.AuthRoutes.Recovery.{
  recover, rate_limit_row, ensure_attempt, is_locked, try_recovery, recoverable, complete_recovery,
  clear_recovery_failures,
}
use tgc_bus_core.AuthRoutes.Login.{login, authenticated}
use tgc_bus_core.AuthRoutes.SignsIn.{login_lets_in}
use tgc_bus_core.AuthRoutes.Recovers.{recover_ok}
use tgc_bus_core.AuthRoutes.Once.{serve_recoveries, recover_once}
use tgc_bus_core.AuthRoutes.Limits.{fail_all, failures-lock, recover_locked}
use tgc_bus_core.Examples.Shop.{env}
use tgc_bus_core.Examples.Office.{owner, accounts}

abbrev crypto : Crypto
crypto = record {
  digest = λ t. t;
  hash_password = λ t. t;
  verify_password = λ p h. p =ₛ h;
  upper = λ t. t;
  casefold = λ t. t;
}

abbrev desk : Client
desk = record { cookie = none; host = some "local"; user_agent = none }

abbrev spare_code : AuthRecoveryCode
spare_code = record { id = 1; user_id = 1; code_hash = "recovery-sha256-v1$CODE"; used_at = none }

abbrev with_code : AuthDb
with_code = record accounts { recovery_codes = spare_code ∷ [] }

abbrev visit : Request
visit = record { cookie = some "token"; auth_mode = none; session_id = none; user_id = some 1 }

login_lets_in_example :
    let (r, s) =
      login env crypto (record { username = "ann"; password = "secret" }) (fresh accounts) in
    (r ≡ ok "token")
    × ((a : AuthSession) × (v : AuthUser) × (identify crypto.digest 40_000_000_000 s.committed visit
          ≡ ok (a, v))
        × (v.id ≡ 1))
login_lets_in_example =
    login_lets_in env crypto (record { username = "ann"; password = "secret" }) accounts (owner 1)
      40_000_000_000 visit ((λ e. ground arith, tt), (tt, tt))
      (unfold authenticated user_of_name normalize_username words join_words split_on strip in refl)
      refl refl (unfold session_of_hash join in refl) (omega arith) (omega arith) (omega arith) refl
      refl (inr refl)

abbrev request : RecoverRequest
request = record { username = "ann"; recovery_code = "CODE"; new_password = "longenough" }

recovered : (recover env crypto request desk (fresh with_code)).0 ≡ ok tt
unfolding recover recovery_username_key client_key_of hash_user_agent rate_limit_row attempt_of
    ensure_attempt is_locked recovery_locked try_recovery require_valid_password
    validate_password_policy recoverable user_of_name unused_code hash_recovery_code
    complete_recovery clear_recovery_failures find_row update_row join strip normalize_username
    words join_words split_on text_length
recovered = refl

recover_ok_example :
    let after = (recover env crypto request desk (fresh with_code)).1.committed in
    (user : AuthUser) × (code : AuthRecoveryCode) × Mem user with_code.users
    × (normalize_username env crypto "ann" ≡ some user.username_norm)
    × (user.is_enabled ≡ true)
    × (code.user_id ≡ user.id)
    × (code.code_hash ≡ hash_recovery_code env crypto "CODE")
    × (code.used_at ≡ none)
    × (find_row (λ (c : AuthRecoveryCode). c.id) code.id with_code.recovery_codes ≡ some code)
    × (find_row (λ (c : AuthRecoveryCode). c.id) code.id after.recovery_codes
        ≡ some (use_code env.now code))
    × All (λ a. a.user_id ≡ user.id → (t : ℕ) → session_is_valid (some a) t ≡ false) after.sessions
recover_ok_example = recover_ok env crypto request desk with_code (tt, tt) recovered

recover_once_example :
    let after = (recover env crypto request desk (fresh with_code)).1.committed in
    (recover env crypto request desk
      (fresh (serve_recoveries crypto ((env, request, desk) ∷ []) after))).0
    ≢ ok tt
recover_once_example =
    recover_once crypto env env request request desk desk ((env, request, desk) ∷ []) with_code
      (tt, tt) (tt, tt) refl recovered

abbrev attempt : AuthRecoveryAttempt
attempt = record {
  id = 1;
  username_norm = "ann";
  client_key = "sha256-v1$local|no-agent";
  failed_count = 5;
  first_failed_at = some 50;
  locked_until = some 90_000;
}

abbrev locked_out : AuthDb
locked_out = record with_code { recovery_attempts = attempt ∷ [] }

attempt_found :
    attempt_of
      (recovery_username_key env crypto "ann").0
      (client_key_of env crypto desk)
      locked_out.recovery_attempts
    ≡ some attempt
unfolding attempt_of recovery_username_key client_key_of hash_user_agent join normalize_username
    words join_words split_on strip
attempt_found = refl

recover_locked_example :
    recover env crypto request desk (fresh locked_out) ≡ (err recovery_failed, fresh locked_out)
recover_locked_example =
    recover_locked env crypto request desk locked_out attempt (omega arith) (tt, tt) attempt_found
      (unfold recovery_locked in refl)

abbrev untried : AuthRecoveryAttempt
untried = record attempt { failed_count = 0; first_failed_at = none; locked_until = none }

failures-lock_example :
    recovery_locked (fail_attempt 60 (fail_all (20 ∷ 30 ∷ 40 ∷ 50 ∷ []) untried)) 70
    ≡ (leb max_failures (3 + 2) && ltb 70 (60 + limit_window))
failures-lock_example =
    failures-lock untried 20 (30 ∷ 40 ∷ 50 ∷ []) 60 70 refl
      (omega arith, (omega arith, (omega arith, tt))) (omega arith)
