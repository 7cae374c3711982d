-- ===== src/AuthRoutes/SignsIn.antt =====
-- core/api/routes/auth.py and core/auth/dependencies.py: who has signed in is who is let in.
use tgc_bus_core.Base.{
  ℕ, ◌+◌, ◌*◌, ◌≤◌, ◌⊎◌, ◌<◌, ◌≡◌, refl, arith, String, true, false, Option, none, some, List, [],
  ◌∷◌, ◌++◌, length, map, ◌==◌, ◌=ₛ◌, eq_iff, All, Bool-cases, inl, inr,
}
use tgc_bus_core.Tables.{find_row, update_row, IsKeyed}
use tgc_bus_core.Tables.Rows.{find_row-keyed, find_row-update_self}
use tgc_bus_core.Effects.{ok, Env, fresh}
use tgc_bus_core.Auth.{AuthUser, AuthSession, AuthDb}
use tgc_bus_core.Auth.Sessions.{session_is_valid, is_current}
use tgc_bus_core.Auth.Dependencies.{
  Request, mismatched, session_of_hash, session_from_cookie, named_session, valid_session, identify,
}
use tgc_bus_core.AuthRoutes.{Crypto, LoginRequest, hash_session_token, normalize_username}
use tgc_bus_core.AuthRoutes.Names.{user_of_name-All}
use tgc_bus_core.AuthRoutes.Login.{
  new_session, create_session, set_last_login, sign_in, authenticated, named_user, with_password,
  login,
}

matched : (o : Option ℕ) (id : ℕ) → (o ≡ none) ⊎ (o ≡ some id) → mismatched o id ≡ false
matched o id (inl nobody) = rw nobody refl
matched o id (inr same) = rw same (ground arith)

session_of_hash-new :
    (hash : String) (sessions : List AuthSession) (a : AuthSession)
    → a.session_hash ≡ hash
    → session_of_hash hash sessions ≡ none
    → session_of_hash hash (sessions ++ a ∷ []) ≡ some a
unfolding session_of_hash
session_of_hash-new hash [] a e h = rw ((eq_iff a.session_hash hash).1 e) refl
session_of_hash-new hash (b ∷ sessions) a e h = elim (Bool-cases (b.session_hash =ₛ hash)) [
  | inl here ↦ (let none_here : some b ≡ none = rw here at h in cc)
  | inr later ↦ rw later (session_of_hash-new hash sessions a e (rw later at h))
]

module _ (env : Env) (crypto : Crypto) where
  new_session_valid :
      (user_id id now : ℕ)
      → env.now ≤ now
      → now < env.now + 720 * 60_000_000
      → session_is_valid (some (new_session env crypto user_id id)) now ≡ true
  unfolding session_is_valid is_current new_session
  new_session_valid user_id id now later early = ground arith

  named_user-All :
      (P : AuthUser → Type 0) (db : AuthDb) (name : Option String) (u : AuthUser)
      → named_user env crypto db name ≡ some u
      → All P db.users
      → P u
  named_user-All P db none u h ps = cc
  named_user-All P db (some name) u h ps = (user_of_name-All P name db.users u h ps).0

  with_password-some :
      (password : String) (o : Option AuthUser) (u : AuthUser)
      → with_password env crypto password o ≡ some u
      → o ≡ some u
  with_password-some password none u h = cc
  with_password-some password (some v) u h =
      elim (Bool-cases (crypto.verify_password password v.password_hash)) [
        | inl right ↦ rw right at h
        | inr wrong ↦ (let e : none ≡ some u = rw wrong at h in cc)
      ]

  module _ (payload : LoginRequest) (db : AuthDb) (u : AuthUser)
      (keyed : IsKeyed (λ (u : AuthUser). u.id) db.users)
      (known : authenticated env crypto db payload ≡ some u) where
    found_by_id : find_row (λ (u : AuthUser). u.id) u.id db.users ≡ some u
    unfolding authenticated
    found_by_id =
        named_user-All (λ v. find_row (λ (u : AuthUser). u.id) v.id db.users ≡ some v) db
          (normalize_username env crypto payload.username) u
          (with_password-some payload.password _ u known)
          (find_row-keyed (λ (u : AuthUser). u.id) db.users keyed)

    updated_by_id :
        find_row
          (λ (u : AuthUser). u.id)
          u.id
          (update_row (λ (u : AuthUser). u.id) u.id (set_last_login env crypto) db.users)
        ≡ some (set_last_login env crypto u)
    updated_by_id =
        find_row-update_self (λ (u : AuthUser). u.id) u.id (set_last_login env crypto) db.users
          (λ a. refl) found_by_id

    abbrev opened : AuthSession
    opened = new_session env crypto u.id (env.next_id (map (λ (a : AuthSession). a.id) db.sessions))

    -- The database after the sign-in.
    abbrev signed_in : AuthDb
    signed_in = record db {
      users = update_row (λ (u : AuthUser). u.id) u.id (set_last_login env crypto) db.users;
      sessions = db.sessions ++ opened ∷ [];
      audit_events =
          db.audit_events
          ++ record {
            action = "auth.login_success";
            actor_user_id = some u.id;
            target = some ("user", u.id);
          }
            ∷ [];
    }

    login_runs :
        u.is_enabled ≡ true
        → 0 < length db.users
        → login env crypto payload (fresh db) ≡ (ok env.new_token, fresh signed_in)
    unfolding login sign_in create_session
    login_runs enabled claimed =
        let some_user : (length db.users == 0) ≡ false = ground arith in
        rw (some_user, known, enabled) refl

    session_found :
        session_of_hash (hash_session_token env crypto env.new_token) db.sessions ≡ none
        → session_of_hash (hash_session_token env crypto env.new_token) signed_in.sessions
          ≡ some opened
    session_found new = session_of_hash-new _ db.sessions opened (unfold new_session in refl) new

    signed_in-identify :
        (now : ℕ) (request : Request)
        → env.now ≤ now
        → now < env.now + 720 * 60_000_000
        → request.cookie ≡ some env.new_token
        → request.session_id ≡ none
        → (request.user_id ≡ none) ⊎ (request.user_id ≡ some u.id)
        → u.is_enabled ≡ true
        → (env.new_token =ₛ "") ≡ false
        → session_of_hash (hash_session_token env crypto env.new_token) db.sessions ≡ none
        → identify crypto.digest now signed_in request ≡ ok (opened, set_last_login env crypto u)
    unfolding identify valid_session named_session session_from_cookie
    signed_in-identify now request later early cookie unnamed agrees enabled token_there new =
        let id = env.next_id (map (λ (a : AuthSession). a.id) db.sessions) in
        let by_id : opened.user_id ≡ u.id = unfold new_session in refl in
        rw
          (
            unnamed,
            cookie,
            token_there,
            session_found new,
            new_session_valid u.id id now later early,
            by_id,
            matched request.user_id u.id agrees,
            updated_by_id,
            enabled,
          )
          refl

-- Where the keys of the users are apart, and the new token is not empty and its hash is that of no
-- session: whoever signs in with the name and the password of an enabled user gets the token, and
-- for twelve hours from then on, a request that has the token as its cookie, names no session by
-- its id and no other user, is let in as that user by what the sign-in has left.
pub login_lets_in :
    (env : Env) (crypto : Crypto) (payload : LoginRequest) (db : AuthDb) (u : AuthUser) (now : ℕ)
    (request : Request)
    → IsKeyed (λ (u : AuthUser). u.id) db.users
    → authenticated env crypto db payload ≡ some u
    → u.is_enabled ≡ true
    → (env.new_token =ₛ "") ≡ false
    → session_of_hash (hash_session_token env crypto env.new_token) db.sessions ≡ none
    → 0 < length db.users
    → env.now ≤ now
    → now < env.now + 720 * 60_000_000
    → request.cookie ≡ some env.new_token
    → request.session_id ≡ none
    → (request.user_id ≡ none) ⊎ (request.user_id ≡ some u.id)
    → let (r, s) = login env crypto payload (fresh db) in
      (r ≡ ok env.new_token)
      × ((a : AuthSession) × (v : AuthUser) × (identify crypto.digest now s.committed request
            ≡ ok (a, v))
          × (v.id ≡ u.id))
login_lets_in env crypto payload db u now request keyed known enabled token_there new claimed later
      early cookie unnamed agrees =
    rw (login_runs env crypto payload db u keyed known enabled claimed) (
      refl,
      (
        opened env crypto payload db u keyed known,
        set_last_login env crypto u,
        signed_in-identify env crypto payload db u keyed known now request later early cookie
            unnamed agrees enabled token_there new,
        refl,
      ),
    )
