-- ===== src/Decimal/Means.antt =====
-- A quotient that lies between two integers is rounded to one between them: the 28 digits of the
-- context and the rounding to an integer lose nothing of such bounds.
use tgc_bus_core.Base.{
  ℕ, zero, suc, ◌+◌, ◌-◌, ◌*◌, ◌/◌, ◌%◌, ◌^◌, ◌≤◌, ◌<◌, ◌≡◌, sym, ap, ◌∙◌, inl, inr, some, arith,
  ltb, ◌==◌, Bool-cases, ltb→lt, ltb→le, lt→ltb, false,
}
use native.Mathlib.Nat.{
  pow-zero, pow-suc, mul-one, mul_assoc, le_of_mul-le-mul_right, mul-le-mul_right, pow-le-pow_right,
  div-lt_iff_lt-mul, le-div_iff_mul-le, div-add-mod', lt_of_mul-lt-mul_right,
}
use tgc_bus_core.Decimal.{
  Decimal, of_nat, digits_from, digit_count, half_even, half_up, fix, drop_digits, add, mul,
  strip_zeros, shift_of, sticky, ratio, div, quantize,
}
use tgc_bus_core.Decimal.Rounding.{ten-pos, pow-add, fix-small, strip_zeros_value}

-- Whole numbers below 28 digits are added and multiplied exactly.
pub add-of_nat : (a b : ℕ) → a + b < 10 ^ 28 → add (of_nat a) (of_nat b) ≡ of_nat (a + b)
unfolding add
add-of_nat a b small = rw (pow-zero 10, mul-one, mul-one) (fix-small (of_nat (a + b)) small)

pub mul-of_nat : (a b : ℕ) → a * b < 10 ^ 28 → mul (of_nat a) (of_nat b) ≡ of_nat (a * b)
unfolding mul
mul-of_nat a b small = fix-small (of_nat (a * b)) small

module _ (m c d : ℕ) (some_d : 0 < d) where
  le-div : m * d ≤ c → m ≤ c / d
  le-div h = grind arith

  div-le : c ≤ m * d → c / d ≤ m
  div-le h = grind arith

  div-lt_of_rest : 0 < c % d → c ≤ m * d → c / d < m
  div-lt_of_rest rest h = lt_of_mul-lt-mul_right d (omega (arith, div-add-mod' c d))

  le-half_even : m * d ≤ c → m ≤ half_even c d
  unfolding half_even
  le-half_even h = ground (arith, le-div h)

  half_even-le : c ≤ m * d → half_even c d ≤ m
  unfolding half_even
  half_even-le h = ground (arith, div-le h, div-lt_of_rest)

  le-half_up : m * d ≤ c → m ≤ half_up c d
  unfolding half_up
  le-half_up h =
      (le-div_iff_mul-le {k = 2 * d} {x = m} {y = 2 * c + d} (omega arith)).1 (omega arith)

  half_up-le_of : c ≤ m * d → half_up c d ≤ m
  unfolding half_up
  half_up-le_of h =
      let below : (2 * c + d) / (2 * d) < suc m =
        (div-lt_iff_lt-mul {k = 2 * d} {x = 2 * c + d} {y = suc m} (omega arith)).1 (omega arith) in
      omega arith

digits_from_least : (fuel n : ℕ) → 0 < n → 10 ^ digits_from fuel n ≤ 10 * n
unfolding digits_from
digits_from_least zero n h = omega arith
digits_from_least (suc fuel) n h = elim (Bool-cases (ltb n 10)) [
  | inl small ↦ rw (small, digits_from) (omega arith)
  | inr big ↦
      rw (big, digits_from, pow-suc)
        (omega (
          arith,
          digits_from_least fuel (n / 10) (omega (arith, ltb→le n 10 big)),
          ltb→le n 10 big,
        ))
]

-- The value of the decimal lies between the integers.
abbrev pub Between : ℕ → ℕ → Decimal → Type 0
Between lo hi x = (lo * 10 ^ x.scale ≤ x.coeff) × (x.coeff ≤ hi * 10 ^ x.scale)

module _ (lo hi : ℕ) (fits : hi < 10 ^ 28) where
  module _ (c s : ℕ) (above : lo * 10 ^ s ≤ c) (below : c ≤ hi * 10 ^ s) (long : 10 ^ 28 ≤ c) where
    dropped-le : digit_count c - 28 ≤ s
    unfolding digit_count
    dropped-le = elim (Bool-cases (ltb s (digit_count c - 28))) [
      | inr few ↦ ltb→le _ _ few
      | inl many ↦
          let most : 10 ^ digits_from c c ≤ 10 * c = digits_from_least c c (omega arith) in
          let grown : 10 ^ (29 + s) ≤ 10 ^ digits_from c c =
            pow-le-pow_right {n = 10} (omega arith) {i = 29 + s} {j = digits_from c c}
              (omega (arith, ltb→lt _ _ many)) in
          let most_hi : suc hi * 10 ^ s ≤ 10 ^ 28 * 10 ^ s =
            mul-le-mul_right (10 ^ s) (omega arith) in
          absurd (omega (arith, pow-add 29 s, ten-pos s))
    ]

    regroup : (k m : ℕ) → k ≤ s → m * 10 ^ (s - k) * 10 ^ k ≡ m * 10 ^ s
    regroup k m h =
        mul_assoc m _ _
        ∙ ap (λ (t : ℕ). m * t) (sym (pow-add (s - k) k) ∙ ap (λ (t : ℕ). 10 ^ t) (omega arith))

    drop_digits-Between :
        (k : ℕ) → k ≤ s → Between lo hi (drop_digits k (record { coeff = c; scale = s }))
    unfolding drop_digits
    drop_digits-Between k h =
        let none_back : k - s ≡ 0 = omega arith in
        rw (none_back, pow-zero, mul-one)
          (
            le-half_even (lo * 10 ^ (s - k)) c (10 ^ k) (ten-pos k) (rw (regroup k lo h) above),
            half_even-le (hi * 10 ^ (s - k)) c (10 ^ k) (ten-pos k) (rw (regroup k hi h) below),
          )

  fix-Between : (x : Decimal) → Between lo hi x → Between lo hi (fix x)
  unfolding fix
  fix-Between x (above, below) = elim (Bool-cases (ltb x.coeff (10 ^ 28))) [
    | inl short ↦ rw short (above, below)
    | inr long ↦ rw long (
        drop_digits-Between x.coeff x.scale above below (ltb→le _ _ long) (digit_count x.coeff - 28)
          (dropped-le x.coeff x.scale above below (ltb→le _ _ long)))
  ]

  module _ (n d : ℕ) (some_d : 0 < d) (above : lo * d ≤ n) (below : n ≤ hi * d) where
    grown_above : (k : ℕ) → lo * 10 ^ k * d ≤ n * 10 ^ k
    grown_above k = omega (arith, mul-le-mul_right (10 ^ k) above)

    grown_below : (k : ℕ) → n * 10 ^ k ≤ hi * 10 ^ k * d
    grown_below k = omega (arith, mul-le-mul_right (10 ^ k) below)

    quotient_above : (k : ℕ) → lo * 10 ^ k ≤ n * 10 ^ k / d
    quotient_above k = le-div (lo * 10 ^ k) (n * 10 ^ k) d some_d (grown_above k)

    quotient_below : (k : ℕ) → n * 10 ^ k / d ≤ hi * 10 ^ k
    quotient_below k = div-le (hi * 10 ^ k) (n * 10 ^ k) d some_d (grown_below k)

    stripped-Between : (k : ℕ) → Between lo hi (strip_zeros k (n * 10 ^ k / d))
    stripped-Between k =
        let x = strip_zeros k (n * 10 ^ k / d) in
        let t = 10 ^ x.scale in
        let value : x.coeff * 10 ^ k ≡ n * 10 ^ k / d * t = strip_zeros_value k (n * 10 ^ k / d) in
        (
          le_of_mul-le-mul_right {k = 10 ^ k}
              (omega (arith, value, mul-le-mul_right t (quotient_above k))) (ten-pos k),
          le_of_mul-le-mul_right {k = 10 ^ k}
              (omega (arith, value, mul-le-mul_right t (quotient_below k))) (ten-pos k),
        )

    ratio-Between : Between lo hi (ratio n d)
    unfolding ratio sticky
    ratio-Between = elim (Bool-cases (n * 10 ^ shift_of d % d == 0)) [
      | inl exact ↦ rw exact (stripped-Between (shift_of d))
      | inr rest ↦ rw rest (
          let k = shift_of d in
          let less : n * 10 ^ k / d < hi * 10 ^ k =
            div-lt_of_rest (hi * 10 ^ k) (n * 10 ^ k) d some_d (ground arith) (grown_below k) in
          ground (arith, quotient_above k))
    ]

  -- Dividing and rounding half up to an integer keeps to the integers that the quotient is between.
  pub div-quantize :
      (n d : ℕ)
      → 0 < d
      → lo * d ≤ n
      → n ≤ hi * d
      → (x : Decimal) × (m : ℕ) × (div (of_nat n) (of_nat d) ≡ some x)
        × (quantize x ≡ some m)
        × (lo ≤ m)
        × (m ≤ hi)
  unfolding div quantize
  div-quantize n d some_d above below =
      let x = fix (ratio n d) in
      let between : Between lo hi x = fix-Between _ (ratio-Between n d some_d above below) in
      let m = half_up x.coeff (10 ^ x.scale) in
      let under : m ≤ hi = half_up-le_of hi x.coeff (10 ^ x.scale) (ten-pos x.scale) between.1 in
      (
        x,
        m,
        (let nonzero : (d == 0) ≡ false = ground arith in rw (nonzero, pow-zero, mul-one, mul-one)),
        rw (lt→ltb m (10 ^ 28) (omega arith)),
        le-half_up lo x.coeff (10 ^ x.scale) (ten-pos x.scale) between.0,
        under,
      )
