-- ===== src/AuthRoutes/Codes.antt =====
-- core/api/routes/auth.py: the codes that a recovery may use.
use mathlib.Core.Path.{subst}
use tgc_bus_core.Base.{
  ℕ, ◌≡◌, refl, String, true, not, ◌&&◌, Option, none, some, List, [], ◌∷◌, ◌==◌, ◌=ₛ◌, is_some,
  eq_iff, ==→eq, split_and, All, Bool-cases, inl, inr,
}
use tgc_bus_core.Effects.{Error, Result, ok, err, Session, continue, raise, commit, ◌>>=◌, ◌>>◌}
use tgc_bus_core.Auth.{AuthRecoveryCode, AuthDb}
use tgc_bus_core.AuthRoutes.{AuthAction, unused_code}

-- What ends by a raise returns nothing.
pub never_ok :
    {A B : Type 0} (m : AuthAction A) (e : Error) (s : Session AuthDb) (b : B)
    → ((m >>= λ a. commit >> raise e) s).0 ≡ ok b
    → ⊥
never_ok {A} {B} m e s b h = let (r, t) = m s in go r t h
  where
    go :
        (r : Result A) (t : Session AuthDb)
        → (continue r (λ a. commit >> raise {A = B} e) t).0 ≡ ok b
        → ⊥
    go (ok a) t h = cc
    go (err e') t h = cc

-- A code that may be used.
pub record Usable (user_id : ℕ) (hash : String) (c : AuthRecoveryCode) : Type 0 where
  pub of_user : c.user_id ≡ user_id
  pub matches : c.code_hash ≡ hash
  pub unused : c.used_at ≡ none

not_some : (o : Option ℕ) → not (is_some o) ≡ true → o ≡ none
not_some none h = refl
not_some (some n) h = cc

pub unused_code-Usable :
    (P : AuthRecoveryCode → Type 0) (user_id : ℕ) (hash : String) (codes : List AuthRecoveryCode)
    (c : AuthRecoveryCode)
    → unused_code user_id hash codes ≡ some c
    → All P codes
    → P c × Usable user_id hash c
unfolding unused_code
unused_code-Usable P user_id hash [] c h ps = cc
unused_code-Usable P user_id hash (d ∷ codes) c h (p, ps) =
    elim (Bool-cases (d.user_id == user_id && d.code_hash =ₛ hash && not (is_some d.used_at))) [
      | inr later ↦ unused_code-Usable P user_id hash codes c (rw later at h) ps
      | inl here ↦
          let e : some d ≡ some c = rw here at h in
          let same : d ≡ c = cc in
          let (both, unused) =
            split_and (d.user_id == user_id && d.code_hash =ₛ hash) (not (is_some d.used_at))
              here in
          let (id, hashed) = split_and (d.user_id == user_id) (d.code_hash =ₛ hash) both in
          subst (λ c. P c × Usable user_id hash c) same
            (
              p,
              record {
                of_user = ==→eq d.user_id user_id id;
                matches = (eq_iff d.code_hash hash).0 hashed;
                unused = not_some d.used_at unused;
              },
            )
    ]
