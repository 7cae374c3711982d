-- ===== src/AuthRoutes/Spent.antt =====
-- core/api/routes/auth.py: the codes that have a hash and are not used.
use tgc_bus_core.Base.{
  ℕ, ◌≡◌, ◌≢◌, refl, arith, String, Bool, false, not, ◌&&◌, none, some, List, [], ◌∷◌, ◌==◌, ◌=ₛ◌,
  is_some, eq_iff, All, Bool-cases, inl, inr,
}
use tgc_bus_core.Tables.{find_row, update_row}
use tgc_bus_core.Auth.{AuthRecoveryCode}
use tgc_bus_core.AuthRoutes.{unused_code, use_code}

-- The column of the hashes is unique (core/appdb/models_auth.py).
abbrev pub HasApartHashes : List AuthRecoveryCode → Type 0
HasApartHashes [] = Unit
HasApartHashes (c ∷ codes) = All (λ d. d.code_hash ≢ c.code_hash) codes × HasApartHashes codes

-- An unused code with the hash.
abbrev pub is_live : String → AuthRecoveryCode → Bool
is_live code_hash c = c.code_hash =ₛ code_hash && not (is_some c.used_at)

abbrev pub Spent : String → List AuthRecoveryCode → Type 0
Spent code_hash codes = All (λ c. is_live code_hash c ≡ false) codes

module _ (h : String) where
  pub Spent-unused_code :
      (user_id : ℕ) (codes : List AuthRecoveryCode)
      → Spent h codes
      → unused_code user_id h codes ≡ none
  unfolding unused_code
  Spent-unused_code user_id [] k = refl
  Spent-unused_code user_id (c ∷ codes) (dead, k) =
      ground (arith, Spent-unused_code user_id codes k)

  pub Spent-update :
      (id now : ℕ) (codes : List AuthRecoveryCode)
      → Spent h codes
      → Spent h (update_row (λ c. c.id) id (use_code now) codes)
  unfolding update_row
  Spent-update id now [] k = tt
  Spent-update id now (c ∷ codes) (dead, k) = elim (Bool-cases (c.id == id)) [
    | inl here ↦ rw here (ground arith, k)
    | inr later ↦ rw later (dead, Spent-update id now codes k)
  ]

  others_dead :
      (c : AuthRecoveryCode) (codes : List AuthRecoveryCode)
      → c.code_hash ≡ h
      → All (λ d. d.code_hash ≢ c.code_hash) codes
      → Spent h codes
  others_dead c [] e k = tt
  others_dead c (d ∷ codes) e (ne, k) =
      (ground (arith, ne, eq_iff d.code_hash h), others_dead c codes e k)

  find-All :
      (P : AuthRecoveryCode → Type 0) (id : ℕ) (codes : List AuthRecoveryCode)
      (c : AuthRecoveryCode)
      → find_row (λ (c : AuthRecoveryCode). c.id) id codes ≡ some c
      → All P codes
      → P c
  unfolding find_row
  find-All P id [] c e k = cc
  find-All P id (d ∷ codes) c e (p, k) = elim (Bool-cases (d.id == id)) [
    | inl here ↦
        (let found : some d ≡ some c = rw here at e in let same : d ≡ c = cc in rw (← same) p)
    | inr later ↦ find-All P id codes c (rw later at e) k
  ]

  -- Once it is used, no code with its hash is left.
  pub used-Spent :
      (id now : ℕ) (codes : List AuthRecoveryCode) (c : AuthRecoveryCode)
      → find_row (λ (c : AuthRecoveryCode). c.id) id codes ≡ some c
      → c.code_hash ≡ h
      → HasApartHashes codes
      → Spent h (update_row (λ (c : AuthRecoveryCode). c.id) id (use_code now) codes)
  unfolding find_row update_row
  used-Spent id now [] c e same k = cc
  used-Spent id now (d ∷ codes) c e same (ne, k) = elim (Bool-cases (d.id == id)) [
    | inl here ↦
        let found : some d ≡ some c = rw here at e in
        let is_c : d ≡ c = cc in rw here (ground arith, others_dead d codes (rw is_c same) ne)
    | inr later ↦
        let found = rw later at e in
        let other = find-All (λ x. x.code_hash ≢ d.code_hash) id codes c found ne in
        rw later
          (ground (arith, other, eq_iff d.code_hash h), used-Spent id now codes c found same k)
  ]
