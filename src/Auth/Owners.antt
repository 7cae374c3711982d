-- ===== src/Auth/Owners.antt =====
-- The guard on the last enabled owner leaves an owner who is enabled.
use mathlib.Core.Logic.Or
use mathlib.Core.Bool.{Bool-set}
use mathlib.Core.List.{not-mem-nil, mem-cons, mem-cons_self, mem-cons_of_mem}
use tgc_bus_core.Base.{
  refl, Mem, split_and, ==→eq, eq_iff, ◌=ₛ◌, ℕ, ◌+◌, ◌≤◌, ◌<◌, ◌≡◌, arith, Bool, true, false, not,
  ◌&&◌, List, [], ◌∷◌, map, ltb, ◌==◌, if◌then◌else◌, keep, any, length, Bool-cases, ltb→lt, inl,
  inr,
}
use tgc_bus_core.Effects.{ok, err, value_error, Session}
use tgc_bus_core.Tables.{update_row}
use tgc_bus_core.Auth.{AuthUser, AuthRole, AuthUserRole, AuthDb}
use tgc_bus_core.Auth.Management.{
  is_owner, enabled_owner_user_ids, is_last, assert_not_last_enabled_owner,
}

-- Disabling a user, as the users routes do it.
abbrev pub disable : ℕ → AuthDb → AuthDb
disable user_id db = record db {
  users = update_row (λ u. u.id) user_id (λ u. record u { is_enabled = false }) db.users;
}

module _ (owner : ℕ → Bool) (user_id : ℕ) where
  abbrev owners : List AuthUser → List ℕ
  owners users = map (λ u. u.id) (keep (λ u. u.is_enabled && owner u.id) users)

  abbrev disabled : List AuthUser → List AuthUser
  disabled = update_row (λ u. u.id) user_id (λ u. record u { is_enabled = false })

  -- Disabling one user takes at most one owner away, and only that user.
  owners-disabled :
      (users : List AuthUser)
      → length (owners users)
        ≤ length (owners (disabled users))
          + (if any (λ i. i == user_id) (owners users) then 1 else 0)
  unfolding update_row
  owners-disabled [] = omega arith
  owners-disabled (u ∷ users) = elim (Bool-cases (u.id == user_id)) [
    | inl here ↦ elim (Bool-cases (u.is_enabled && owner u.id)) [
      | inl counted ↦ rw (here, counted) (rw here (omega arith))
      | inr left_out ↦ rw (here, left_out) (omega arith)
    ]
    | inr other ↦ elim (Bool-cases (u.is_enabled && owner u.id)) [
      | inl counted ↦ rw (other, counted) (rw other (omega (arith, owners-disabled users)))
      | inr left_out ↦ rw (other, left_out) (owners-disabled users)
    ]
  ]

any-Mem {ℓ} :
    {A : Type ℓ} (p : A → Bool) (x : A) (xs : List A) → Mem x xs → p x ≡ true → any p xs ≡ true
any-Mem p x [] m h = absurd (not-mem-nil m)
any-Mem p x (y ∷ ys) m h =
    Or.elim (Bool-set _ _) (mem-cons.0 m) (λ same. rw (← same) (rw h refl))
      (λ later. rw (any-Mem p x ys later h) (ground arith))

Mem-any {ℓ} :
    {A : Type ℓ} (p : A → Bool) (xs : List A) → any p xs ≡ true → (x : A) × Mem x xs × (p x ≡ true)
Mem-any p [] h = cc
Mem-any p (y ∷ ys) h = elim (Bool-cases (p y)) [
  | inl here ↦ (y, mem-cons_self, here)
  | inr other ↦ let (x, m, holds) = Mem-any p ys (rw other at h) in (x, mem-cons_of_mem y m, holds)
]

-- The user has a role whose key is "owner".
abbrev pub IsOwner : AuthDb → ℕ → Type 0
IsOwner db id =
    (g : AuthUserRole) × Mem g db.user_roles
    × (g.user_id ≡ id)
    × ((r : AuthRole) × Mem r db.roles × (r.id ≡ g.role_id) × (r.key ≡ "owner"))

-- There is a user who is enabled and an owner.
abbrev pub HasEnabledOwner : AuthDb → Type 0
HasEnabledOwner db = (u : AuthUser) × Mem u db.users × (u.is_enabled ≡ true) × IsOwner db u.id

is_owner-IsOwner :
    (db : AuthDb) (id : ℕ) → is_owner db.user_roles db.roles id ≡ true → IsOwner db id
unfolding is_owner
is_owner-IsOwner db id h =
    let (g, granted, fits) = Mem-any _ db.user_roles h in
    let (of_user, has_role) = split_and (g.user_id == id) _ fits in
    let (r, there, matches) = Mem-any _ db.roles has_role in
    let (same, key) = split_and (r.id == g.role_id) _ matches in
    (
      g,
      granted,
      ==→eq g.user_id id of_user,
      (r, there, ==→eq r.id g.role_id same, (eq_iff r.key "owner").0 key),
    )

IsOwner-is_owner :
    (db : AuthDb) (id : ℕ) → IsOwner db id → is_owner db.user_roles db.roles id ≡ true
unfolding is_owner
IsOwner-is_owner db id (g, granted, of_user, (r, there, same, key)) =
    let has_role =
      any-Mem (λ (r : AuthRole). r.id == g.role_id && r.key =ₛ "owner") r db.roles there
        (let keyed = (eq_iff r.key "owner").1 key in rw keyed (ground arith)) in
    any-Mem _ g db.user_roles granted (rw has_role (ground arith))

abbrev counts : AuthDb → AuthUser → Bool
counts db u = u.is_enabled && is_owner db.user_roles db.roles u.id

some_counted :
    (p : AuthUser → Bool) (users : List AuthUser)
    → any p users ≡ true
    → 0 < length (map (λ (u : AuthUser). u.id) (keep p users))
some_counted p [] h = cc
some_counted p (u ∷ users) h = elim (Bool-cases (p u)) [
  | inl here ↦ rw here (omega arith)
  | inr other ↦ rw other (some_counted p users (rw other at h))
]

counted_some :
    (p : AuthUser → Bool) (users : List AuthUser)
    → 0 < length (map (λ (u : AuthUser). u.id) (keep p users))
    → any p users ≡ true
counted_some p [] h = absurd (omega arith)
counted_some p (u ∷ users) h = elim (Bool-cases (p u)) [
  | inl here ↦ rw here refl
  | inr other ↦ rw other (counted_some p users (rw other at h))
]

-- Disabling takes not the last of those the guard counts.
counted_left :
    (user_id : ℕ) (s : Session AuthDb)
    → (assert_not_last_enabled_owner user_id "disable" s).0 ≡ ok tt
    → 0 < length (enabled_owner_user_ids s.flushed)
    → 0 < length (enabled_owner_user_ids (disable user_id s.flushed))
unfolding assert_not_last_enabled_owner enabled_owner_user_ids
counted_left user_id s passed some_owner =
    let owner = is_owner s.flushed.user_roles s.flushed.roles in
    let ids = owners owner user_id s.flushed.users in
    let kept = owners-disabled owner user_id s.flushed.users in
    elim (Bool-cases (is_last user_id ids)) [
      | inl last ↦
          (let stopped : err (value_error "last_enabled_owner") ≡ ok tt = rw last at passed in cc)
      | inr more ↦ elim (Bool-cases (any (λ i. i == user_id) ids)) [
        | inl among ↦
            let several : not (ltb 1 (length ids)) ≡ false = rw among at more in
            elim (Bool-cases (ltb 1 (length ids))) [
              | inl two ↦ omega (arith, ltb→lt _ _ two, rw among at kept)
              | inr one ↦ (let odd : true ≡ false = rw one at several in cc)
            ]
        | inr others ↦ omega (arith, some_owner, rw others at kept)
      ]
    ]

-- Where the guard lets a user be disabled and some user was enabled and had a role "owner" before,
-- some user is enabled and has a role "owner" after.
pub assert_not_last_enabled_owner_leaves :
    (user_id : ℕ) (s : Session AuthDb)
    → (assert_not_last_enabled_owner user_id "disable" s).0 ≡ ok tt
    → HasEnabledOwner s.flushed
    → HasEnabledOwner (disable user_id s.flushed)
unfolding enabled_owner_user_ids
assert_not_last_enabled_owner_leaves user_id s passed (u, there, enabled, owner) =
    let db = s.flushed in
    let after = disable user_id db in
    let counted =
      any-Mem (counts db) u db.users there (rw (enabled, IsOwner-is_owner db u.id owner) refl) in
    let left = counted_left user_id s passed (some_counted (counts db) db.users counted) in
    let (v, stays, good) =
      Mem-any (counts after) after.users (counted_some (counts after) after.users left) in
    let (still, owns) = split_and v.is_enabled _ good in
    (v, stays, still, is_owner-IsOwner after v.id owns)
