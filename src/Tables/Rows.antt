-- ===== src/Tables/Rows.antt =====
-- Reads and writes of single rows.
use mathlib.Core.Path.{subst}
use mathlib.Core.Option
use tgc_bus_core.Base.{
  ℕ, ◌+◌, ◌≡◌, ◌≢◌, refl, sym, ap, Option, none, some, List, [], ◌∷◌, ◌++◌, map, arith, All,
  All-append, sum_by, ◌==◌, ==→eq, true, false, Bool-cases, inl, inr, if◌then◌else◌,
}
use tgc_bus_core.Tables.{find_row, update_row, IsKeyed}

map_id : {A : Type 0} (o : Option A) → Option.map (λ r. r) o ≡ o
map_id none = refl
map_id (some a) = refl

module _ {A : Type 0} (key : A → ℕ) where
  pub find_row-key : (k : ℕ) (rows : List A) {r : A} → find_row key k rows ≡ some r → key r ≡ k
  unfolding find_row
  find_row-key k [] h = cc
  find_row-key k (q ∷ rows) h = elim (Bool-cases (key q == k)) [
    | inl here ↦ ground arith
    | inr later ↦ find_row-key k rows (rw later at h)
  ]

  pub find_row-append :
      (k : ℕ) (rows more : List A) {r : A}
      → find_row key k rows ≡ some r
      → find_row key k (rows ++ more) ≡ some r
  unfolding find_row
  find_row-append k [] more h = cc
  find_row-append k (q ∷ rows) more {r} h = elim (Bool-cases (key q == k)) [
    | inl here ↦ rw here (rw here at h)
    | inr later ↦ rw later (find_row-append k rows more (rw later at h))
  ]

  -- The row that is found is one of the table's and has the key.
  pub find_row-All :
      (P : A → Type 0) (k : ℕ) (rows : List A) (r : A)
      → find_row key k rows ≡ some r
      → All P rows
      → P r × (key r ≡ k)
  unfolding find_row
  find_row-All P k [] r h ps = cc
  find_row-All P k (q ∷ rows) r h (p, ps) = elim (Bool-cases (key q == k)) [
    | inl here ↦
        let e : some q ≡ some r = rw here at h in
        let same : q ≡ r = cc in subst (λ x. P x × (key x ≡ k)) same (p, ==→eq (key q) k here)
    | inr later ↦ find_row-All P k rows r (rw later at h) ps
  ]

  -- A key that no row has.
  pub find_row-absent :
      (k : ℕ) (rows : List A) → All (λ i. i ≢ k) (map key rows) → find_row key k rows ≡ none
  unfolding find_row
  find_row-absent k [] _ = refl
  find_row-absent k (q ∷ rows) (n, ns) = ground (arith, n, find_row-absent k rows ns)

  -- A row at the end, with a key that no row has.
  pub find_row-new :
      (j : ℕ) (rows : List A) (r : A)
      → find_row key (key r) rows ≡ none
      → find_row key j (rows ++ r ∷ []) ≡ (if key r == j then some r else find_row key j rows)
  unfolding find_row
  find_row-new j [] r h = refl
  find_row-new j (q ∷ rows) r h = elim (Bool-cases (key q == key r)) [
    | inl same ↦ let e : some q ≡ none = rw same at h in cc
    | inr other ↦ ground (arith, find_row-new j rows r (rw other at h))
  ]

  pub update_row-absent :
      (k : ℕ) (f : A → A) (rows : List A)
      → find_row key k rows ≡ none
      → update_row key k f rows ≡ rows
  unfolding find_row update_row
  update_row-absent k f [] h = refl
  update_row-absent k f (q ∷ rows) h = elim (Bool-cases (key q == k)) [
    | inl here ↦ let e : some q ≡ none = rw here at h in cc
    | inr later ↦ rw later (ap (λ rs. q ∷ rs) (update_row-absent k f rows (rw later at h)))
  ]

  -- What is found after a change of the row with a key: that row changed, and the others as before.
  pub find_row-update :
      (j k : ℕ) (f : A → A) (rows : List A)
      → ((a : A) → key (f a) ≡ key a)
      → find_row key j (update_row key k f rows)
        ≡ Option.map (λ r. if j == k then f r else r) (find_row key j rows)
  unfolding find_row update_row
  find_row-update j k f [] same = refl
  find_row-update j k f (q ∷ rows) same = elim (Bool-cases (key q == k)) [
    | inl here ↦ elim (Bool-cases (key q == j)) [
      | inl found ↦
          let is_k : (j == k) ≡ true =
            ground (arith, ==→eq (key q) k here, ==→eq (key q) j found) in
          rw (here, same q, found, is_k) refl
      | inr other ↦
          let not_k : (j == k) ≡ false = ground (arith, ==→eq (key q) k here) in
          rw (here, same q, other, not_k) (sym (map_id (find_row key j rows)))
    ]
    | inr elsewhere ↦ elim (Bool-cases (key q == j)) [
      | inl found ↦
          let not_k : (j == k) ≡ false = ground (arith, ==→eq (key q) j found) in
          rw (elsewhere, found, not_k) refl
      | inr other ↦ rw (elsewhere, other) (find_row-update j k f rows same)
    ]
  ]

  pub find_row-update_ne :
      (j k : ℕ) (f : A → A) (rows : List A)
      → ((a : A) → key (f a) ≡ key a)
      → j ≢ k
      → find_row key j (update_row key k f rows) ≡ find_row key j rows
  unfolding find_row update_row
  find_row-update_ne j k f [] same h = refl
  find_row-update_ne j k f (q ∷ rows) same h =
      ground (arith, same q, find_row-update_ne j k f rows same h)

  pub find_row-update_self :
      (k : ℕ) (f : A → A) (rows : List A) {r : A}
      → ((a : A) → key (f a) ≡ key a)
      → find_row key k rows ≡ some r
      → find_row key k (update_row key k f rows) ≡ some (f r)
  unfolding find_row update_row
  find_row-update_self k f [] same h = cc
  find_row-update_self k f (q ∷ rows) {r} same h = elim (Bool-cases (key q == k)) [
    | inl here ↦ ground (arith, same q)
    | inr later ↦ rw later (
        let ih : find_row key k (update_row key k f rows) ≡ some (f r) =
          find_row-update_self k f rows same (rw later at h) in
        rw later ih)
  ]

  -- A measure of the rows that pass a test, under a write that lowers it at one row.
  pub sum-update :
      (m : A → ℕ) (k : ℕ) (f : A → A) (rows : List A) {r : A}
      → find_row key k rows ≡ some r
      → sum_by m (update_row key k f rows) + m r ≡ sum_by m rows + m (f r)
  unfolding find_row update_row
  sum-update m k f [] h = cc
  sum-update m k f (q ∷ rows) {r} h = elim (Bool-cases (key q == k)) [
    | inl here ↦ ground arith
    | inr later ↦ rw later (omega (arith, sum-update m k f rows {r = r} (rw later at h)))
  ]

  -- In a keyed table each row is found by its key.
  pub find_row-keyed :
      (rows : List A) → IsKeyed key rows → All (λ r. find_row key (key r) rows ≡ some r) rows
  unfolding find_row
  find_row-keyed [] h = tt
  find_row-keyed (q ∷ rows) (fresh, keyed) =
      (ground arith, others rows fresh (find_row-keyed rows keyed))
    where
      others :
          (rest : List A)
          → All (λ o. key o ≢ key q) rest
          → All (λ r. find_row key (key r) rows ≡ some r) rest
          → All (λ r. find_row key (key r) (q ∷ rows) ≡ some r) rest
      others [] _ _ = tt
      others (o ∷ rest) (n, ns) (e, es) = (ground (arith, n, e), others rest ns es)

  All-update :
      (P : ℕ → Type 0) (k : ℕ) (f : A → A) (rows : List A)
      → ((a : A) → key (f a) ≡ key a)
      → All (λ r. P (key r)) rows
      → All (λ r. P (key r)) (update_row key k f rows)
  unfolding update_row
  All-update P k f [] same ps = tt
  All-update P k f (q ∷ rows) same (p, ps) = elim (Bool-cases (key q == k)) [
    | inl here ↦ rw here (rw same p, ps)
    | inr later ↦ rw later (p, All-update P k f rows same ps)
  ]

  pub IsKeyed-update :
      (k : ℕ) (f : A → A) (rows : List A)
      → ((a : A) → key (f a) ≡ key a)
      → IsKeyed key rows
      → IsKeyed key (update_row key k f rows)
  unfolding update_row
  IsKeyed-update k f [] same keyed = tt
  IsKeyed-update k f (q ∷ rows) same (fresh, keyed) = elim (Bool-cases (key q == k)) [
    | inl here ↦ rw here (rw same fresh, keyed)
    | inr later ↦
        rw later
          (All-update (λ n. n ≢ key q) k f rows same fresh, IsKeyed-update k f rows same keyed)
  ]

  -- A new row, with a key that no row has.
  pub IsKeyed-append :
      (rows : List A) (r : A)
      → All (λ i. i ≢ key r) (map key rows)
      → IsKeyed key rows
      → IsKeyed key (rows ++ r ∷ [])
  IsKeyed-append [] r _ _ = (tt, tt)
  IsKeyed-append (q ∷ rows) r (n, ns) (others, keyed) = (
    All-append (λ o. key o ≢ key q) rows (r ∷ []) others ((λ e. n (sym e)), tt),
    IsKeyed-append rows r ns keyed,
  )
