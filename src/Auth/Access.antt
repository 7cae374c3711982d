-- ===== src/Auth/Access.antt =====
-- A request passes only with a valid session of an enabled user who has the permission.
use tgc_bus_core.Base.{
  ℕ, ◌≡◌, refl, sym, ap, ◌∙◌, String, Bool, true, false, ◌==◌, Option, none, some, mem_text,
  if◌then◌else◌, Bool-cases, Option-cases, inl, inr, ◌⊎◌, ◌≢◌, List, [], ◌∷◌, Mem, All, All-members,
  join, ◌=ₛ◌, eq_iff, arith,
}
use tgc_bus_core.Tables.Rows.{find_row-All}
use mathlib.Core.Path.{subst}
use tgc_bus_core.Tables.{find_row}
use tgc_bus_core.Effects.{Result-cases, ok, err, http}
use tgc_bus_core.Auth.{AuthUser, AuthSession, AuthDb}
use tgc_bus_core.Auth.Sessions.{session_is_valid}
use tgc_bus_core.Auth.Dependencies.{
  AuthUserContext, Request, AuthState, auth_required, auth_user_count, mismatched, enabled_user,
  valid_session, named_session, identify, session_of_hash, session_from_cookie, context_of,
  claimed_context, is_unclaimed, require_user, require_permission,
}

-- What a request says of its session: its id in the request's state, or else the token in the cookie,
-- which is not empty.
abbrev pub IsNamedBy : (String → String) → Option ℕ → Option String → AuthSession → Type 0
IsNamedBy digest (some id) cookie a = a.id ≡ id
IsNamedBy digest none none a = ⊥
IsNamedBy digest none (some token) a =
    (token ≢ "") × (a.session_hash ≡ join "sha256-v1$" (digest token))

-- A valid session in the database that the request names, of a user who is there and enabled, and
-- whom the request's state does not contradict.
pub record IsIdentified (digest : String → String) (now : ℕ) (db : AuthDb) (request : Request)
    (a : AuthSession) (u : AuthUser) : Type 0 where
  pub stored : Mem a db.sessions
  pub named : IsNamedBy digest request.session_id request.cookie a
  pub agrees : (request.user_id ≡ none) ⊎ (request.user_id ≡ some a.user_id)
  pub valid : session_is_valid (some a) now ≡ true
  pub present : Mem u db.users
  pub of_session : u.id ≡ a.user_id
  pub enabled : u.is_enabled ≡ true

session_of_hash-All :
    (P : AuthSession → Type 0) (hash : String) (sessions : List AuthSession) (a : AuthSession)
    → session_of_hash hash sessions ≡ some a
    → All P sessions
    → P a × (a.session_hash ≡ hash)
unfolding session_of_hash
session_of_hash-All P hash [] a h ps = cc
session_of_hash-All P hash (b ∷ sessions) a h (p, ps) = elim (Bool-cases (b.session_hash =ₛ hash)) [
  | inl here ↦
      let e : some b ≡ some a = rw here at h in
      let same : b ≡ a = cc in
      subst (λ c. P c × (c.session_hash ≡ hash)) same (p, (eq_iff b.session_hash hash).0 here)
  | inr later ↦ session_of_hash-All P hash sessions a (rw later at h) ps
]

mismatched_lem : (o : Option ℕ) (id : ℕ) → mismatched o id ≡ false → (o ≡ none) ⊎ (o ≡ some id)
mismatched_lem none id h = inl refl
mismatched_lem (some i) id h = inr (let same : i ≡ id = ground arith in ap some same)

pub enabled_user_lem :
    (o : Option AuthUser) (u : AuthUser)
    → enabled_user o ≡ some u
    → (o ≡ some u) × (u.is_enabled ≡ true)
enabled_user_lem none u h = cc
enabled_user_lem (some v) u h = of_flag v.is_enabled refl h
  where
    of_flag :
        (b : Bool)
        → v.is_enabled ≡ b
        → (if b then some v else none) ≡ some u
        → (some v ≡ some u) × (u.is_enabled ≡ true)
    of_flag true enabled same =
        let at : v ≡ u = cc in (same, ap (λ (w : AuthUser). w.is_enabled) (sym at) ∙ enabled)
    of_flag false disabled nothing = cc

not_same : (token : String) → (token =ₛ "") ≡ false → token ≢ ""
not_same token h e = let same = (eq_iff token "").1 e in cc

module _ (digest : String → String) (now : ℕ) where
  session_from_cookie_lem :
      (db : AuthDb) (cookie : Option String) (a : AuthSession)
      → session_from_cookie digest now db cookie ≡ some a
      → Mem a db.sessions × IsNamedBy digest none cookie a
  unfolding session_from_cookie
  session_from_cookie_lem db none a h = cc
  session_from_cookie_lem db (some token) a h = elim (Bool-cases (token =ₛ "")) [
    | inl empty ↦ (let nothing : none ≡ some a = rw empty at h in cc)
    | inr full ↦
        let hash = join "sha256-v1$" (digest token) in
        let (there, hashed) =
          session_of_hash-All (λ b. Mem b db.sessions) hash db.sessions a (rw full at h)
            (All-members db.sessions) in
        (there, (not_same token full, hashed))
  ]

  named_session_lem :
      (db : AuthDb) (id : Option ℕ) (cookie : Option String) (a : AuthSession)
      → (elim id [
        | some k ↦ find_row (λ (r : AuthSession). r.id) k db.sessions
        | none ↦ session_from_cookie digest now db cookie
      ])
        ≡ some a
      → Mem a db.sessions × IsNamedBy digest id cookie a
  named_session_lem db (some id) cookie a h =
      find_row-All (λ (r : AuthSession). r.id) (λ b. Mem b db.sessions) id db.sessions a h
        (All-members db.sessions)
  named_session_lem db none cookie a h = session_from_cookie_lem db cookie a h

  valid_session_lem :
      (db : AuthDb) (request : Request) (a : AuthSession)
      → valid_session digest now db request ≡ some a
      → (session_is_valid (some a) now ≡ true)
        × Mem a db.sessions
        × IsNamedBy digest request.session_id request.cookie a
  unfolding valid_session named_session
  valid_session_lem db request a found =
      elim (Bool-cases (session_is_valid (named_session digest now db request) now)) [
        | inl valid ↦
            let named : named_session digest now db request ≡ some a = rw valid at found in
            let (stored, names) = named_session_lem db request.session_id request.cookie a named in
            (rw named at valid, stored, names)
        | inr refused ↦ (let nothing : none ≡ some a = rw refused at found in cc)
      ]

  identify-IsIdentified :
      (db : AuthDb) (request : Request) (a : AuthSession) (u : AuthUser)
      → identify digest now db request ≡ ok (a, u)
      → IsIdentified digest now db request a u
  unfolding identify
  identify-IsIdentified db request a u h =
      elim (Option-cases (valid_session digest now db request)) [
        | inl missing ↦ (let refused : err auth_required ≡ ok (a, u) = rw missing at h in cc)
        | inr (b, valid) ↦ elim (Bool-cases (mismatched request.user_id b.user_id)) [
          | inl wrong ↦ (let refused : err auth_required ≡ ok (a, u) = rw (valid, wrong) at h in cc)
          | inr right ↦
              elim (Option-cases
                (enabled_user (find_row (λ (r : AuthUser). r.id) b.user_id db.users))) [
                  | inl missing ↦
                      (let refused : err auth_required ≡ ok (a, u) =
                          rw (valid, right, missing) at h in
                        cc)
                  | inr (v, user) ↦
                      let identified : ok (b, v) ≡ ok (a, u) = rw (valid, right, user) at h in
                      let pair : (b, v) ≡ (a, u) = cc in
                      let (found, enabled) = enabled_user_lem _ v user in
                      let (there, of_session) =
                        find_row-All (λ (r : AuthUser). r.id) (λ w. Mem w db.users) b.user_id
                          db.users v found (All-members db.users) in
                      let (current, stored, named) = valid_session_lem db request b valid in
                      subst
                        (λ (p : AuthSession × AuthUser). IsIdentified digest now db request p.0 p.1)
                        pair
                        (record {
                          stored = stored;
                          named = named;
                          agrees = mismatched_lem request.user_id b.user_id right;
                          valid = current;
                          present = there;
                          of_session = of_session;
                          enabled = enabled;
                        })
                ]
        ]
      ]

  -- In an installation with users, a request that has not been let through as unclaimed and is
  -- granted a permission names, by the id in its state or else by its cookie, a session in the
  -- database that is valid now, of a user who is in the database and enabled and is the one in the
  -- request's state, if any, and the permission is among those of that user's roles.
  pub require_permission_granted :
      (permission : String) (s : AuthState) (user : AuthUserContext)
      → is_unclaimed digest now s.request.auth_mode ≡ false
      → (auth_user_count s.db == 0) ≡ false
      → (require_permission digest now permission s).0 ≡ ok user
      → (a : AuthSession) × (u : AuthUser) × IsIdentified digest now s.db s.request a u
        × (user ≡ context_of digest now s.db a u)
        × (mem_text permission user.permissions ≡ true)
  unfolding require_permission require_user claimed_context
  require_permission_granted permission s user claimed populated granted =
      elim (Result-cases (identify digest now s.db s.request)) [
        | inr (e, refused) ↦
            (let stopped : err e ≡ ok user = rw (claimed, populated, refused) at granted in cc)
        | inl ((a, u), identified) ↦
            elim (Bool-cases (mem_text permission (context_of digest now s.db a u).permissions)) [
              | inl has ↦
                  let passed : ok (context_of digest now s.db a u) ≡ ok user =
                    rw (claimed, populated, identified, has) at granted in
                  let same : context_of digest now s.db a u ≡ user = cc in
                  (
                    a,
                    u,
                    identify-IsIdentified s.db s.request a u identified,
                    sym same,
                    rw same at has,
                  )
              | inr lacks ↦
                  (let stopped : err (http 403 "permission_denied") ≡ ok user =
                      rw (claimed, populated, identified, lacks) at granted in
                    cc)
            ]
      ]
