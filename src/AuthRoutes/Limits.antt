-- ===== src/AuthRoutes/Limits.antt =====
-- core/api/routes/auth.py: failed recoveries lock the recovery of an account for a client.
use tgc_bus_core.Base.{
  ℕ, suc, ◌+◌, ◌≤◌, ◌<◌, ◌≡◌, refl, ap, ◌∙◌, arith, String, true, false, ◌&&◌, Option, none, some,
  List, [], ◌∷◌, length, ltb, leb, ◌==◌, ◌=ₛ◌, All, Bool-cases, inl, inr,
}
use mathlib.Core.Path.{subst}
use tgc_bus_core.Tables.{find_row, IsKeyed}
use tgc_bus_core.Tables.Rows.{find_row-keyed}
use tgc_bus_core.Effects.{err, Env, fresh}
use tgc_bus_core.Auth.{AuthRecoveryAttempt, AuthDb}
use tgc_bus_core.AuthRoutes.{
  Crypto, Client, RecoverRequest, max_failures, limit_window, recovery_failed, recovery_locked,
  is_stale, fail_attempt, attempt_of, client_key_of, recovery_username_key, is_locked_row,
}
use tgc_bus_core.AuthRoutes.Recovery.{rate_limit_row, ensure_attempt, is_locked, recover}

-- Failures at one time after another.
unfoldable pub fail_all : List ℕ → AuthRecoveryAttempt → AuthRecoveryAttempt
fail_all [] row = row
fail_all (t ∷ ts) row = fail_all ts (fail_attempt t row)

-- So many failures since the time, too few to lock.
record Counts (begun n : ℕ) (row : AuthRecoveryAttempt) : Type 0 where
  first : row.first_failed_at ≡ some begun
  count : row.failed_count ≡ n
  unlocked : n < max_failures → row.locked_until ≡ none

module _ (begun : ℕ) where
  fail_attempt-begins :
      (row : AuthRecoveryAttempt)
      → is_stale row.first_failed_at begun ≡ true
      → Counts begun 1 (fail_attempt begun row)
  unfolding fail_attempt
  fail_attempt-begins row stale =
      rw stale (record { first = refl; count = refl; unlocked = λ few. refl })

  is_stale_within :
      (o : Option ℕ) (t : ℕ) → o ≡ some begun → t ≤ begun + limit_window → is_stale o t ≡ false
  is_stale_within none t h le = cc
  is_stale_within (some b) t h le = ground arith

  fail_attempt-Counts :
      (n t : ℕ) (row : AuthRecoveryAttempt)
      → Counts begun n row
      → t ≤ begun + limit_window
      → Counts begun (n + 1) (fail_attempt t row)
  unfolding fail_attempt
  fail_attempt-Counts n t row c le = rw (is_stale_within row.first_failed_at t c.first le) (record {
    first = c.first;
    count = ground (arith, c.count);
    unlocked = λ few. ground (arith, c.count, c.unlocked);
  })

  fail_all-Counts :
      (n : ℕ) (ts : List ℕ) (row : AuthRecoveryAttempt)
      → Counts begun n row
      → All (λ t. t ≤ begun + limit_window) ts
      → Counts begun (n + length ts) (fail_all ts row)
  unfolding fail_all
  fail_all-Counts n [] row c _ = record {
    first = c.first;
    count = omega (arith, c.count);
    unlocked = λ few. c.unlocked (omega arith);
  }
  fail_all-Counts n (t ∷ ts) row c (le, les) =
      let e : n + suc (length ts) ≡ n + 1 + length ts = omega arith in
      rw e (fail_all-Counts (n + 1) ts (fail_attempt t row) (fail_attempt-Counts n t row c le) les)

  locked_of_Counts :
      (n t now : ℕ) (row : AuthRecoveryAttempt)
      → Counts begun n row
      → t ≤ begun + limit_window
      → recovery_locked (fail_attempt t row) now
        ≡ (leb max_failures (n + 1) && ltb now (t + limit_window))
  unfolding recovery_locked fail_attempt
  locked_of_Counts n t now row c le =
      rw (is_stale_within row.first_failed_at t c.first le, c.count)
        (elim (Bool-cases (leb max_failures (n + 1))) [
          | inl many ↦ rw many refl
          | inr few ↦ rw (few, c.unlocked (ground arith)) refl
        ])

-- Where failed recoveries begin a window, and all come within 15 minutes of the first, the recovery
-- is locked after the last of them exactly where they are five or more, and until 15 minutes after
-- the last.
pub failures-lock :
    (row : AuthRecoveryAttempt) (begun : ℕ) (ts : List ℕ) (t now : ℕ)
    → is_stale row.first_failed_at begun ≡ true
    → All (λ u. u ≤ begun + limit_window) ts
    → t ≤ begun + limit_window
    → recovery_locked (fail_attempt t (fail_all (begun ∷ ts) row)) now
      ≡ (leb max_failures (length ts + 2) && ltb now (t + limit_window))
unfolding fail_all
failures-lock row begun ts t now stale les le =
    let e : length ts + 2 ≡ 1 + length ts + 1 = omega arith in
    rw e (
      locked_of_Counts begun (1 + length ts) t now _
        (fail_all-Counts begun 1 ts _ (fail_attempt-begins begun row stale) les) le)

attempt_of-All :
    (P : AuthRecoveryAttempt → Type 0) (name key : String) (rows : List AuthRecoveryAttempt)
    (row : AuthRecoveryAttempt)
    → attempt_of name key rows ≡ some row
    → All P rows
    → P row
unfolding attempt_of
attempt_of-All P name key [] row h ps = cc
attempt_of-All P name key (r ∷ rows) row h (p, ps) =
    elim (Bool-cases (r.username_norm =ₛ name && r.client_key =ₛ key)) [
      | inl here ↦
          (let e : some r ≡ some row = rw here at h in let same : r ≡ row = cc in subst P same p)
      | inr later ↦ attempt_of-All P name key rows row (rw later at h) ps
    ]

-- While the recovery of a name is locked for a client, every request for it from that client is
-- refused in the same way, also with a code that is right, and nothing changes.
pub recover_locked :
    (env : Env) (crypto : Crypto) (payload : RecoverRequest) (client : Client) (db : AuthDb)
    (row : AuthRecoveryAttempt)
    → 0 < length db.users
    → IsKeyed (λ (r : AuthRecoveryAttempt). r.id) db.recovery_attempts
    → attempt_of
        (recovery_username_key env crypto payload.username).0
        (client_key_of env crypto client)
        db.recovery_attempts
      ≡ some row
    → recovery_locked row env.now ≡ true
    → recover env crypto payload client (fresh db) ≡ (err recovery_failed, fresh db)
unfolding recover rate_limit_row ensure_attempt
recover_locked env crypto payload client db row claimed keyed found locked =
    let here : find_row (λ (r : AuthRecoveryAttempt). r.id) row.id db.recovery_attempts ≡ some row =
      attempt_of-All
        (λ r. find_row (λ (r : AuthRecoveryAttempt). r.id) r.id db.recovery_attempts ≡ some r) _ _
        db.recovery_attempts row found
        (find_row-keyed (λ (r : AuthRecoveryAttempt). r.id) db.recovery_attempts keyed) in
    let some_user : (length db.users == 0) ≡ false = ground arith in
    let shut : is_locked env crypto row.id db ≡ true =
      unfold is_locked in (ap (is_locked_row env.now) here ∙ locked) in
    rw (some_user, found, shut) refl
