-- ===== src/Tables/Sorted.antt =====
-- What is ordered from the greatest measure on stays so when its end is cut off.
use mathlib.Core.List.Perm
use tgc_bus_core.Base.{
  Perm, ℕ, ◌≤◌, ◌≡◌, Bool, true, false, List, [], ◌∷◌, arith, All, All-map, Bool-cases, inl, inr,
}
use tgc_bus_core.Tables.{order_by, place}
use tgc_bus_core.Tables.Order.{All-place}

module _ {A : Type 0} (m : A → ℕ) where
  abbrev pub Descends : List A → Type 0
  Descends [] = Unit
  Descends (x ∷ xs) = All (λ y. m y ≤ m x) xs × Descends xs

module _ {A : Type 0} (m : A → ℕ) (before : A → A → Bool)
    (first : (q r : A) → before q r ≡ true → m r ≤ m q)
    (later : (q r : A) → before q r ≡ false → m q ≤ m r) where
  Descends-place : (r : A) (rows : List A) → Descends m rows → Descends m (place before r rows)
  unfolding place
  Descends-place r [] h = (tt, tt)
  Descends-place r (q ∷ rows) (least, rest) = elim (Bool-cases (before q r)) [
    | inl newer ↦ rw newer (
      All-place before (λ y. m y ≤ m q) r rows (first q r newer) least,
      Descends-place r rows rest,
    )
    | inr older ↦
        let most = later q r older in
        rw older (
          (most, All-map (λ y. m y ≤ m q) (λ y. m y ≤ m r) rows (λ y h. omega arith) least),
          (least, rest),
        )
  ]

  pub Descends-order_by : (rows : List A) → Descends m (order_by before rows)
  unfolding order_by
  Descends-order_by [] = tt
  Descends-order_by (r ∷ rows) = Descends-place r (order_by before rows) (Descends-order_by rows)

-- What an ORDER BY returns has the same rows.
module _ {A : Type 0} (before : A → A → Bool) where
  place-Perm : (r : A) (rows : List A) → Perm (place before r rows) (r ∷ rows)
  unfolding place
  place-Perm r [] = Perm.refl (r ∷ [])
  place-Perm r (q ∷ rows) = elim (Bool-cases (before q r)) [
    | inl first ↦ rw first (Perm.trans (Perm.cons q (place-Perm r rows)) (Perm.swap r q rows))
    | inr later ↦ rw later (Perm.refl (r ∷ q ∷ rows))
  ]

  pub order_by-Perm : (rows : List A) → Perm (order_by before rows) rows
  unfolding order_by
  order_by-Perm [] = Perm.refl []
  order_by-Perm (r ∷ rows) =
      Perm.trans (place-Perm r (order_by before rows)) (Perm.cons r (order_by-Perm rows))

-- Each row is in a relation to all that follow it.
abbrev pub Ordered : {A : Type 0} → (A → A → Type 0) → List A → Type 0
Ordered R [] = Unit
Ordered R (x ∷ xs) = All (R x) xs × Ordered R xs

module _ {A : Type 0} (R : A → A → Type 0) (before : A → A → Bool)
    (compose : (p q r : A) → R p q → R q r → R p r) (first : (q r : A) → before q r ≡ true → R q r)
    (later : (q r : A) → before q r ≡ false → R r q) where
  Ordered-place : (r : A) (rows : List A) → Ordered R rows → Ordered R (place before r rows)
  unfolding place
  Ordered-place r [] h = (tt, tt)
  Ordered-place r (q ∷ rows) (least, rest) = elim (Bool-cases (before q r)) [
    | inl here ↦
        rw here (All-place before (R q) r rows (first q r here) least, Ordered-place r rows rest)
    | inr there ↦
        let next = later q r there in
        rw there
          ((next, All-map (R q) (R r) rows (λ y h. compose r q y next h) least), (least, rest))
  ]

  pub Ordered-order_by : (rows : List A) → Ordered R (order_by before rows)
  unfolding order_by
  Ordered-order_by [] = tt
  Ordered-order_by (r ∷ rows) = Ordered-place r (order_by before rows) (Ordered-order_by rows)

-- Each row is in a relation to the next.
abbrev pub Linked : {A : Type 0} → (A → A → Type 0) → List A → Type 0
Linked R [] = Unit
Linked R (x ∷ []) = Unit
Linked R (x ∷ y ∷ xs) = R x y × Linked R (y ∷ xs)

module _ {A : Type 0} (R : A → A → Type 0) (before : A → A → Bool)
    (first : (q r : A) → before q r ≡ true → R q r)
    (later : (q r : A) → before q r ≡ false → R r q) where
  Linked-place : (r : A) (rows : List A) → Linked R rows → Linked R (place before r rows)
  unfolding place
  Linked-place r [] h = tt
  Linked-place r (q ∷ []) h = elim (Bool-cases (before q r)) [
    | inl here ↦ rw here (first q r here, tt)
    | inr there ↦ rw there (later q r there, tt)
  ]
  Linked-place r (q ∷ p ∷ rows) (next, rest) = elim (Bool-cases (before q r)) [
    | inr there ↦ rw there (later q r there, (next, rest))
    | inl here ↦
        let placed = Linked-place r (p ∷ rows) rest in
        elim (Bool-cases (before p r)) [
          | inl on ↦ rw (here, on) (next, rw on at placed)
          | inr stop ↦ rw (here, stop) (first q r here, rw stop at placed)
        ]
  ]

  pub Linked-order_by : (rows : List A) → Linked R (order_by before rows)
  unfolding order_by
  Linked-order_by [] = tt
  Linked-order_by (r ∷ rows) = Linked-place r (order_by before rows) (Linked-order_by rows)
