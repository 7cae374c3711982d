-- ===== src/AuthRoutes/Names.antt =====
-- core/api/routes/auth.py: the user that a name stands for.
use mathlib.Core.Path.{subst}
use tgc_bus_core.Base.{
  ◌≡◌, refl, ap, sym, ◌∙◌, String, true, none, some, List, [], ◌∷◌, ◌=ₛ◌, eq_iff, All, All-members,
  Mem, Bool-cases, Option-cases, inl, inr,
}
use tgc_bus_core.Effects.{Env}
use tgc_bus_core.Auth.{AuthUser, AuthDb}
use tgc_bus_core.AuthRoutes.{Crypto, user_of_name, normalize_username, recovery_username_key}
use tgc_bus_core.AuthRoutes.Recovery.{named_or_none}

-- The user that is found by a name has it, and is one of the users.
pub user_of_name-All :
    (P : AuthUser → Type 0) (name : String) (users : List AuthUser) (u : AuthUser)
    → user_of_name name users ≡ some u
    → All P users
    → P u × (u.username_norm ≡ name)
unfolding user_of_name
user_of_name-All P name [] u h ps = cc
user_of_name-All P name (v ∷ users) u h (p, ps) = elim (Bool-cases (v.username_norm =ₛ name)) [
  | inl here ↦
      let e : some v ≡ some u = rw here at h in
      let same : v ≡ u = cc in
      subst (λ w. P w × (w.username_norm ≡ name)) same (p, (eq_iff v.username_norm name).0 here)
  | inr later ↦ user_of_name-All P name users u (rw later at h) ps
]

module _ (env : Env) (crypto : Crypto) where
  key_named :
      (username name : String)
      → normalize_username env crypto username ≡ some name
      → recovery_username_key env crypto username ≡ (name, true)
  unfolding recovery_username_key
  key_named username name is_name = rw (recovery_username_key, is_name) refl

  no_user :
      (username : String) (db : AuthDb)
      → normalize_username env crypto username ≡ none
      → named_or_none env crypto db (recovery_username_key env crypto username) ≡ none
  unfolding recovery_username_key
  no_user username db no_name = rw (recovery_username_key, no_name) refl

  pub recovery_user :
      (username : String) (db : AuthDb) (user : AuthUser)
      → named_or_none env crypto db (recovery_username_key env crypto username) ≡ some user
      → Mem user db.users × (normalize_username env crypto username ≡ some user.username_norm)
  recovery_user username db user h = elim (Option-cases (normalize_username env crypto username)) [
    | inl no_name ↦ (let nobody = no_user username db no_name in cc)
    | inr (name, is_name) ↦
        let found : user_of_name name db.users ≡ some user =
          rw (key_named username name is_name) at h in
        let (there, named) =
          user_of_name-All (λ u. Mem u db.users) name db.users user found (All-members db.users) in
        (there, is_name ∙ ap some (sym named))
  ]
