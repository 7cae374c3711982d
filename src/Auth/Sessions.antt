-- ===== src/Auth/Sessions.antt =====
-- core/auth/sessions.py: when a session is valid. A bound `t <= now - limit` of the code is
-- written `t + limit <= now`, which is the same for times.
use tgc_bus_core.Base.{
  ℕ, ◌+◌, ◌*◌, ◌≤◌, ◌≡◌, refl, arith, Bool, true, false, not, ◌&&◌, Option, none, some, leb,
  is_some, or_else, split_and,
}
use tgc_bus_core.Auth.{AuthSession}

abbrev minute : ℕ
minute = 60_000_000

abbrev pub idle_timeout : ℕ
idle_timeout = 720 * minute

abbrev pub max_age : ℕ
max_age = 30 * 1440 * minute

abbrev pub touch_interval : ℕ
touch_interval = 5 * minute

-- A time that is there, with so much added, has been reached.
abbrev reached : ℕ → ℕ → Option ℕ → Bool
reached limit now none = false
reached limit now (some t) = leb (t + limit) now

-- An expiry that is there lies ahead.
abbrev ahead : ℕ → Option ℕ → Bool
ahead now none = false
ahead now (some expires_at) = not (leb expires_at now)

unfoldable pub is_current : AuthSession → ℕ → Bool
is_current a now =
    ahead now a.expires_at
    && not (reached max_age now a.created_at)
    && not (reached idle_timeout now (or_else a.last_seen_at a.created_at))

-- `session_is_valid`
unfoldable pub session_is_valid : Option AuthSession → ℕ → Bool
session_is_valid none now = false
session_is_valid (some a) now = not (is_some a.revoked_at) && is_current a now

-- `session_should_touch`
unfoldable pub session_should_touch : AuthSession → ℕ → Bool
session_should_touch a now = elim (a.last_seen_at) [
  | none ↦ true
  | some last_seen ↦ leb (last_seen + touch_interval) now
]

module _ (before now : ℕ) (earlier : before ≤ now) where
  ahead-before : (o : Option ℕ) → ahead now o ≡ true → ahead before o ≡ true
  ahead-before none h = cc
  ahead-before (some e) h = ground arith

  reached-before :
      (limit : ℕ) (o : Option ℕ)
      → not (reached limit now o) ≡ true
      → not (reached limit before o) ≡ true
  reached-before limit none h = refl
  reached-before limit (some t) h = ground arith

  -- A session that is valid at one time was valid at every time before, with the same row: once it
  -- is not valid, it stays so until its row changes.
  pub session_is_valid_before :
      (a : AuthSession)
      → session_is_valid (some a) now ≡ true
      → session_is_valid (some a) before ≡ true
  unfolding session_is_valid is_current
  session_is_valid_before a valid =
      let (unrevoked, current) = split_and (not (is_some a.revoked_at)) (is_current a now) valid in
      let (early, unseen) =
        split_and (ahead now a.expires_at && not (reached max_age now a.created_at))
          (not (reached idle_timeout now (or_else a.last_seen_at a.created_at))) current in
      let (unexpired, young) =
        split_and (ahead now a.expires_at) (not (reached max_age now a.created_at)) early in
      rw (
        unrevoked,
        ahead-before a.expires_at unexpired,
        reached-before max_age a.created_at young,
        reached-before idle_timeout (or_else a.last_seen_at a.created_at) unseen,
      )
