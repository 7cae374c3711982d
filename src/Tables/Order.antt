-- ===== src/Tables/Order.antt =====
-- Ordering and filtering keep the rows, whatever holds of all of them, and that keys differ.
use tgc_bus_core.Base.{
  ℕ, ◌+◌, ◌≡◌, ◌≢◌, refl, sym, ap, ◌∙◌, Bool, true, List, [], ◌∷◌, arith, All, sum_by, keep,
  Bool-cases, inl, inr,
}
use tgc_bus_core.Base.Int.{ℤ, ◌+ℤ◌, sum_ℤ, int_laws}
use tgc_bus_core.Tables.{order_by, place, IsKeyed}

module _ {A : Type 0} (before : A → A → Bool) where
  module _ (P : A → Type 0) where
    pub All-place : (r : A) (rows : List A) → P r → All P rows → All P (place before r rows)
    unfolding place
    All-place r [] p ps = (p, tt)
    All-place r (q ∷ rows) p (pq, ps) = elim (Bool-cases (before q r)) [
      | inl first ↦ rw first (pq, All-place r rows p ps)
      | inr later ↦ rw later (p, (pq, ps))
    ]

    pub All-order_by : (rows : List A) → All P rows → All P (order_by before rows)
    unfolding order_by
    All-order_by [] ps = tt
    All-order_by (r ∷ rows) (p, ps) = All-place r (order_by before rows) p (All-order_by rows ps)

  module _ (m : A → ℕ) where
    sum-place : (r : A) (rows : List A) → sum_by m (place before r rows) ≡ m r + sum_by m rows
    unfolding place
    sum-place r [] = refl
    sum-place r (q ∷ rows) = ground (arith, sum-place r rows)

    pub sum-order_by : (rows : List A) → sum_by m (order_by before rows) ≡ sum_by m rows
    unfolding order_by
    sum-order_by [] = refl
    sum-order_by (r ∷ rows) = omega (arith, sum-place r (order_by before rows), sum-order_by rows)

module _ {A : Type 0} (before : A → A → Bool) (m : A → ℤ) where
  sum_ℤ-place : (r : A) (rows : List A) → sum_ℤ m (place before r rows) ≡ m r +ℤ sum_ℤ m rows
  unfolding place
  sum_ℤ-place r [] = refl
  sum_ℤ-place r (q ∷ rows) = elim (Bool-cases (before q r)) [
    | inl first ↦ rw (first, sum_ℤ-place r rows) (omega int_laws)
    | inr later ↦ rw later refl
  ]

  pub sum_ℤ-order_by : (rows : List A) → sum_ℤ m (order_by before rows) ≡ sum_ℤ m rows
  unfolding order_by
  sum_ℤ-order_by [] = refl
  sum_ℤ-order_by (r ∷ rows) =
      sum_ℤ-place r (order_by before rows) ∙ ap (λ n. m r +ℤ n) (sum_ℤ-order_by rows)

module _ {A : Type 0} (key : A → ℕ) where
  module _ (before : A → A → Bool) where
    IsKeyed-place :
        (r : A) (rows : List A)
        → All (λ o. key o ≢ key r) rows
        → IsKeyed key rows
        → IsKeyed key (place before r rows)
    unfolding place
    IsKeyed-place r [] fresh keyed = (tt, tt)
    IsKeyed-place r (q ∷ rows) (n, ns) (fresh, keyed) = elim (Bool-cases (before q r)) [
      | inl first ↦ rw first (
        All-place before (λ o. key o ≢ key q) r rows (λ e. n (sym e)) fresh,
        IsKeyed-place r rows ns keyed,
      )
      | inr later ↦ rw later ((n, ns), (fresh, keyed))
    ]

    pub IsKeyed-order_by : (rows : List A) → IsKeyed key rows → IsKeyed key (order_by before rows)
    unfolding order_by
    IsKeyed-order_by [] keyed = tt
    IsKeyed-order_by (r ∷ rows) (fresh, keyed) =
        IsKeyed-place r (order_by before rows) (All-order_by before (λ o. key o ≢ key r) rows fresh)
          (IsKeyed-order_by rows keyed)

module _ {A : Type 0} where
  pub All-keep : (P : A → Type 0) (p : A → Bool) (rows : List A) → All P rows → All P (keep p rows)
  All-keep P p [] ps = tt
  All-keep P p (r ∷ rows) (q, qs) = elim (Bool-cases (p r)) [
    | inl yes_kept ↦ rw yes_kept (q, All-keep P p rows qs)
    | inr left_out ↦ rw left_out (All-keep P p rows qs)
  ]

  pub All-kept : (p : A → Bool) (rows : List A) → All (λ r. p r ≡ true) (keep p rows)
  All-kept p [] = tt
  All-kept p (r ∷ rows) = elim (Bool-cases (p r)) [
    | inl kept ↦ rw kept (kept, All-kept p rows)
    | inr left_out ↦ rw left_out (All-kept p rows)
  ]

  pub IsKeyed-keep :
      (key : A → ℕ) (p : A → Bool) (rows : List A) → IsKeyed key rows → IsKeyed key (keep p rows)
  IsKeyed-keep key p [] keyed = tt
  IsKeyed-keep key p (r ∷ rows) (fresh, keyed) = elim (Bool-cases (p r)) [
    | inl kept ↦ rw kept (All-keep (λ o. key o ≢ key r) p rows fresh, IsKeyed-keep key p rows keyed)
    | inr left_out ↦ rw left_out (IsKeyed-keep key p rows keyed)
  ]
