-- ===== src/AuthRoutes/Once.antt =====
-- core/api/routes/auth.py: a recovery code works once.
use mathlib.Core.Path.{subst}
use tgc_bus_core.Base.{ℕ, ◌≡◌, ◌≢◌, sym, String, Bool, Option, none, some, List, [], ◌∷◌}
use tgc_bus_core.Tables.{update_row, IsKeyed}
use tgc_bus_core.Effects.{ok, Env, Session, fresh, write, commit}
use tgc_bus_core.Effects.Keeps.{Keeps, Leads-bind, Keeps-gets, Keeps-pure, keeps_rules}
use tgc_bus_core.Auth.{AuthUser, AuthRecoveryCode, AuthRecoveryAttempt, AuthDb}
use tgc_bus_core.AuthRoutes.{
  Crypto, Client, RecoverRequest, clear_attempt, use_code, hash_recovery_code, revoke_user_sessions,
  audit,
}
use tgc_bus_core.AuthRoutes.Recovery.{
  ensure_attempt, rate_limit_row, change_attempt, record_recovery_failure, clear_recovery_failures,
  refuse_recovery, complete_recovery, try_recovery, recover, clear_found, answer_found, recoverable,
  reset_password,
}
use tgc_bus_core.AuthRoutes.Spent.{
  HasApartHashes, Spent, Spent-unused_code, Spent-update, used-Spent,
}
use tgc_bus_core.AuthRoutes.Recovers.{code_for-some, recover-Recovered, recover-Usable}

module _ (h : String) where
  -- In every view of the session.
  abbrev IsSpent : Session AuthDb → Type 0
  IsSpent s =
      Spent h s.rows.recovery_codes
      × Spent h s.flushed.recovery_codes
      × Spent h s.committed.recovery_codes

  Keeps-commit : Keeps IsSpent commit
  Keeps-commit = record { at = λ s (a, b, c). (a, a, a) }

  module _ (env : Env) (crypto : Crypto) where
    Keeps-ensure :
        (name key : String) (o : Option AuthRecoveryAttempt)
        → Keeps IsSpent (ensure_attempt env crypto name key o)
    unfolding ensure_attempt
    Keeps-ensure name key (some row) = Keeps-pure _
    Keeps-ensure name key none = record { at = λ s (a, b, c). (a, a, c) }

    Keeps-change :
        (id : ℕ) (f : AuthRecoveryAttempt → AuthRecoveryAttempt)
        → Keeps IsSpent (change_attempt env crypto id f)
    Keeps-change id f = record { at = λ s k. k }

    ruleset spent_rules = (keeps_rules, Keeps-ensure, Keeps-change, Keeps-commit)

    Keeps-rate_limit_row : (name key : String) → Keeps IsSpent (rate_limit_row env crypto name key)
    unfolding rate_limit_row
    Keeps-rate_limit_row name key = search spent_rules depth 9

    Keeps-refuse : (name key : String) → Keeps IsSpent (refuse_recovery env crypto name key)
    unfolding refuse_recovery record_recovery_failure
    Keeps-refuse name key = search (spent_rules, Keeps-rate_limit_row) depth 9

    Keeps-clear : (name key : String) → Keeps IsSpent (clear_recovery_failures env crypto name key)
    unfolding clear_recovery_failures
    Keeps-clear name key = Leads-bind _ _ (Keeps-gets _) (λ found. of_found found)
      where
        of_found : (o : Option AuthRecoveryAttempt) → Keeps IsSpent (clear_found env crypto o)
        of_found none = Keeps-pure tt
        of_found (some row) = Keeps-change row.id clear_attempt

    Keeps-use :
        (id : ℕ)
        → Keeps IsSpent (
            write (λ (db : AuthDb). record db {
              recovery_codes = update_row (λ c. c.id) id (use_code env.now) db.recovery_codes;
            }))
    Keeps-use id = record {
      at = λ s (a, b, c). (Spent-update h id env.now s.rows.recovery_codes a, b, c);
    }

    Keeps-users :
        (f : List AuthUser → List AuthUser)
        → Keeps IsSpent (write (λ (db : AuthDb). record db { users = f db.users }))
    Keeps-users f = record { at = λ s k. k }

    Keeps-revoke : (id : ℕ) → Keeps IsSpent (write (revoke_user_sessions env.now id))
    Keeps-revoke id = record { at = λ s k. k }

    Keeps-audit :
        (action : String) (actor : Option ℕ) (target : Option (String × ℕ))
        → Keeps IsSpent (audit action actor target)
    Keeps-audit action actor target = record { at = λ s k. k }

    Keeps-complete :
        (name key new_password : String) (user : AuthUser) (code : AuthRecoveryCode)
        → Keeps IsSpent (complete_recovery env crypto name key new_password user code)
    unfolding complete_recovery
    Keeps-complete name key new_password user code = Leads-bind _ _ (Keeps-use code.id) (λ _.
        Leads-bind _ _
          (Keeps-users (update_row (λ u. u.id) user.id (reset_password env crypto new_password)))
          (λ _. Leads-bind _ _ (Keeps-revoke user.id) (λ _.
            Leads-bind _ _ (Keeps-clear name key) (λ _.
              Leads-bind _ _
                (Keeps-audit "auth.recovery_used" (some user.id) (some ("user", user.id)))
                (λ _. Keeps-commit)))))

    Keeps-found :
        (payload : RecoverRequest) (key : String × Bool) (client_key : String)
        (found : Option (AuthUser × AuthRecoveryCode))
        → Keeps IsSpent (answer_found env crypto payload key client_key found)
    Keeps-found payload key client_key none = Keeps-refuse key.0 client_key
    Keeps-found payload key client_key (some (user, code)) =
        Keeps-complete key.0 client_key payload.new_password user code

    Keeps-try :
        (payload : RecoverRequest) (key : String × Bool) (client_key : String)
        → Keeps IsSpent (try_recovery env crypto payload key client_key)
    unfolding try_recovery
    Keeps-try payload key client_key = search (keeps_rules, Keeps-found) depth 9

    -- A recovery leaves no code with the hash, where there was none.
    Keeps-recover :
        (payload : RecoverRequest) (client : Client)
        → Keeps IsSpent (recover env crypto payload client)
    unfolding recover
    Keeps-recover payload client = search (spent_rules, Keeps-rate_limit_row, Keeps-try) depth 12

-- Recoveries in sequence, each at its own time and in a session of its own.
unfoldable pub serve_recoveries : Crypto → List (Env × RecoverRequest × Client) → AuthDb → AuthDb
serve_recoveries crypto [] db = db
serve_recoveries crypto ((env, payload, client) ∷ requests) db =
    serve_recoveries crypto requests (recover env crypto payload client (fresh db)).1.committed

serve_recoveries-Spent :
    (crypto : Crypto) (h : String) (requests : List (Env × RecoverRequest × Client)) (db : AuthDb)
    → Spent h db.recovery_codes
    → Spent h (serve_recoveries crypto requests db).recovery_codes
unfolding serve_recoveries
serve_recoveries-Spent crypto h [] db k = k
serve_recoveries-Spent crypto h ((env, payload, client) ∷ requests) db k =
    serve_recoveries-Spent crypto h requests _
      ((Keeps-recover h env crypto payload client).at (fresh db) (k, k, k)).2

recover-Spent :
    (env : Env) (crypto : Crypto) (payload : RecoverRequest) (client : Client) (db : AuthDb)
    → Spent (hash_recovery_code env crypto payload.recovery_code) db.recovery_codes
    → (recover env crypto payload client (fresh db)).0 ≢ ok tt
unfolding recoverable
recover-Spent env crypto payload client db k h =
    let (user, code, found, done) = recover-Recovered env crypto payload client db h in
    let (named, unused) = code_for-some env crypto db payload.recovery_code _ user code found in
    let missing =
      Spent-unused_code (hash_recovery_code env crypto payload.recovery_code) user.id
        db.recovery_codes k in
    cc

-- A recovery code works once: after a recovery with it that succeeds, and any recoveries after that,
-- no recovery with a text of the same hash succeeds, whoever asks and at any time, where the
-- database keeps the hashes of its codes and the keys of their rows apart.
pub recover_once :
    (crypto : Crypto) (env env' : Env) (payload payload' : RecoverRequest) (client client' : Client)
    (between : List (Env × RecoverRequest × Client)) (db : AuthDb)
    → HasApartHashes db.recovery_codes
    → IsKeyed (λ (c : AuthRecoveryCode). c.id) db.recovery_codes
    → hash_recovery_code env' crypto payload'.recovery_code
      ≡ hash_recovery_code env crypto payload.recovery_code
    → (recover env crypto payload client (fresh db)).0 ≡ ok tt
    → let after = (recover env crypto payload client (fresh db)).1.committed in
      (recover env' crypto payload' client' (fresh (serve_recoveries crypto between after))).0
      ≢ ok tt
recover_once crypto env env' payload payload' client client' between db apart keyed same h =
    let hash = hash_recovery_code env crypto payload.recovery_code in
    let (user, code, named, here, usable, done) =
      recover-Usable env crypto payload client db keyed h in
    let spent =
      subst (Spent hash) (sym done.codes)
        (used-Spent hash code.id env.now db.recovery_codes code here usable.matches apart) in
    let after = (recover env crypto payload client (fresh db)).1.committed in
    let later = serve_recoveries crypto between after in
    recover-Spent env' crypto payload' client' later (
      subst (λ h. Spent h later.recovery_codes) (sym same)
        (serve_recoveries-Spent crypto hash between after spent))
