-- ===== src/Decimal/Rounding.antt =====
-- Division by a power of ten is exact below 28 digits, and rounding sees only the value.
use tgc_bus_core.Base.{
  ℕ, zero, suc, ◌+◌, ◌-◌, ◌*◌, ◌/◌, ◌%◌, ◌^◌, ◌≤◌, ◌<◌, ◌≡◌, ◌≢◌, refl, sym, ap, ◌∙◌, ◌⊎◌, inl, inr,
  some, arith, ltb, ◌==◌, Bool-cases, ltb→lt, ltb→le, lt→ltb, ==→eq,
}
use mathlib.Core.Path.{ap₂}
use native.Mathlib.Nat.{
  pow-zero, pow-suc, add-zero, add-suc, mul-one, pow-le-pow_right, mul-div-mul_right, mul_assoc,
  mul-mod_left, mul-div_cancel, le_of_mul-le-mul_right, le_antisymm, le_of_eq, zero-add, mul_comm,
  div-lt_iff_lt-mul, le_trans, mul-le-mul_left,
}
use tgc_bus_core.Decimal.{
  Decimal, of_nat, digits_from, digit_count, half_up, fix, mul, strip_zeros, shift_of, ratio, div,
  quantize,
}

pub ten-pos : (k : ℕ) → 0 < 10 ^ k
ten-pos zero = rw (pow-zero 10) (omega arith)
ten-pos (suc k) = rw (pow-suc 10 k) (omega (arith, ten-pos k))

pub pow-add : (a b : ℕ) → 10 ^ (a + b) ≡ 10 ^ a * 10 ^ b
pow-add a zero = simp (add-zero, pow-zero, mul-one)
pow-add a (suc b) = simp (add-suc, pow-suc, pow-add a b, mul_assoc)

digits_from_bound : (fuel n : ℕ) → n ≤ fuel → n < 10 ^ digits_from fuel n
unfolding digits_from
digits_from_bound zero n h = omega arith
digits_from_bound (suc fuel) n h = elim (Bool-cases (ltb n 10)) [
  | inl small ↦ rw (small, digits_from) (omega (arith, ltb→lt n 10 small))
  | inr big ↦
      rw (big, digits_from, pow-suc)
        (omega (arith, digits_from_bound fuel (n / 10) (omega (arith, ltb→le n 10 big))))
]

pub lt-digit_count : (n : ℕ) → n < 10 ^ digit_count n
unfolding digit_count
lt-digit_count n = digits_from_bound n n (omega arith)

-- The rounding of n / d depends on the value of the fraction only.
pub half_up-scale : (n d k : ℕ) → 0 < k → half_up (n * k) (d * k) ≡ half_up n d
unfolding half_up
half_up-scale n d k h =
    ap₂ (λ a b. a / b) (omega arith) (omega arith) ∙ mul-div-mul_right (2 * n + d) (2 * d) h

pub strip_zeros_value :
    (k q : ℕ) → (strip_zeros k q).coeff * 10 ^ k ≡ q * 10 ^ (strip_zeros k q).scale
unfolding strip_zeros
strip_zeros_value zero q = refl
strip_zeros_value (suc k) q = elim (Bool-cases (q % 10 == 0)) [
  | inl more ↦
      rw (more, pow-suc)
        (let e : q ≡ q / 10 * 10 = omega (arith, ==→eq (q % 10) 0 more) in
          omega (
            arith,
            ap (λ (t : ℕ). t * 10) (strip_zeros_value k (q / 10)),
            ap (λ (t : ℕ). t * 10 ^ (strip_zeros k (q / 10)).scale) e,
          ))
  | inr done ↦ rw done
]

strip_zeros_least : (k q : ℕ) → ((strip_zeros k q).scale ≡ 0) ⊎ ((strip_zeros k q).coeff % 10 ≢ 0)
unfolding strip_zeros
strip_zeros_least zero q = inl refl
strip_zeros_least (suc k) q = elim (Bool-cases (q % 10 == 0)) [
  | inl more ↦ rw more (strip_zeros_least k (q / 10))
  | inr done ↦ rw done (inr (ground arith))
]

cancel : {m n : ℕ} (k : ℕ) → 0 < k → m * k ≡ n * k → m ≡ n
cancel {m} {n} k h e =
    le_antisymm (le_of_mul-le-mul_right {k = k} (le_of_eq e) h)
      (le_of_mul-le-mul_right {k = k} (le_of_eq (sym e)) h)

module _ (a j : ℕ) where
  le-shift_of : j ≤ shift_of (10 ^ j)
  unfolding shift_of
  le-shift_of = elim (Bool-cases (ltb (digit_count (10 ^ j)) j)) [
    | inl few ↦ absurd (
        omega (
          arith,
          lt-digit_count (10 ^ j),
          pow-le-pow_right {n = 10} (omega arith) {i = digit_count (10 ^ j)} {j = j}
              (omega (arith, ltb→lt _ _ few)),
        ))
    | inr enough ↦ omega (arith, ltb→le _ _ enough)
  ]

  shifted : a * 10 ^ shift_of (10 ^ j) ≡ a * 10 ^ (shift_of (10 ^ j) - j) * 10 ^ j
  shifted =
      let split : shift_of (10 ^ j) ≡ shift_of (10 ^ j) - j + j = omega (arith, le-shift_of) in
      ap (λ t. a * 10 ^ t) split
      ∙ ap (λ t. a * t) (pow-add (shift_of (10 ^ j) - j) j)
      ∙ sym (mul_assoc a _ _)

  ratio-pow : ratio a (10 ^ j) ≡ strip_zeros (shift_of (10 ^ j)) (a * 10 ^ (shift_of (10 ^ j) - j))
  unfolding ratio
  ratio-pow =
      rw (shifted, mul-mod_left, mul-div_cancel (a * 10 ^ (shift_of (10 ^ j) - j)) (ten-pos j))

  -- The quotient by a power of ten has the exact value,
  pub ratio_value : (ratio a (10 ^ j)).coeff * 10 ^ j ≡ a * 10 ^ (ratio a (10 ^ j)).scale
  ratio_value =
      let k = shift_of (10 ^ j) in
      rw ratio-pow (
        cancel (10 ^ k) (ten-pos k) (
          omega (
            arith,
            ap (λ (t : ℕ). t * 10 ^ j) (strip_zeros_value k (a * 10 ^ (k - j))),
            ap (λ (t : ℕ). t * 10 ^ (strip_zeros k (a * 10 ^ (k - j))).scale) shifted,
          )))

  ratio_least : ((ratio a (10 ^ j)).scale ≡ 0) ⊎ ((ratio a (10 ^ j)).coeff % 10 ≢ 0)
  ratio_least = rw ratio-pow (strip_zeros_least _ _)

-- and a coefficient that is no longer than the number divided.
module _ (c s a j : ℕ) (value : c * 10 ^ j ≡ a * 10 ^ s) where
  le_of_short : s ≤ j → c ≤ a
  le_of_short h =
      le_of_mul-le-mul_right {k = 10 ^ s}
        (le_trans (mul-le-mul_left c (pow-le-pow_right {n = 10} (omega arith) h)) (le_of_eq value))
        (ten-pos s)

  tens_of_long : (d : ℕ) → s ≡ j + suc d → c % 10 ≡ 0
  tens_of_long d e = rw (cancel (10 ^ j) (ten-pos j) (value ∙ grown)) (mul-mod_left (a * 10 ^ d) 10)
    where
      grown : a * 10 ^ s ≡ a * 10 ^ d * 10 * 10 ^ j
      grown = rw (e, pow-add j (suc d), pow-suc 10 d) (omega arith)

  le_of_least : (s ≡ 0) ⊎ (c % 10 ≢ 0) → c ≤ a
  le_of_least (inl none_left) = le_of_short (omega arith)
  le_of_least (inr last) = elim (Bool-cases (ltb j s)) [
    | inl long ↦ absurd (last (tens_of_long (s - j - 1) (omega (arith, ltb→lt j s long))))
    | inr short ↦ le_of_short (ltb→le j s short)
  ]

-- `Decimal(a) / Decimal(10 ** j)`, for a number below 28 digits.
abbrev pub shifted_by : ℕ → ℕ → Decimal
shifted_by a j = ratio a (10 ^ j)

pub fix-small : (d : Decimal) → d.coeff < 10 ^ 28 → fix d ≡ d
unfolding fix
fix-small d h = ground arith

pub half_up-le : (n d : ℕ) → 0 < d → half_up n d ≤ n
unfolding half_up
half_up-le n d h =
    let bound : 2 * n + d < suc n * (2 * d) = omega (arith, mul-le-mul_left n h) in
    let below : (2 * n + d) / (2 * d) < suc n =
      (div-lt_iff_lt-mul {k = 2 * d} {x = 2 * n + d} {y = suc n} (omega arith)).1 bound in
    omega arith

-- Equal fractions round to the same integer.
pub half_up-cross : (n d m e : ℕ) → 0 < d → 0 < e → n * e ≡ m * d → half_up n d ≡ half_up m e
half_up-cross n d m e hd he h =
    sym (half_up-scale n d e he) ∙ ap₂ half_up h (mul_comm d e) ∙ half_up-scale m e d hd

module _ (a j : ℕ) where
  pub shifted_by-le : (shifted_by a j).coeff ≤ a
  shifted_by-le =
      le_of_least (shifted_by a j).coeff (shifted_by a j).scale a j (ratio_value a j)
        (ratio_least a j)

  pub div-ten_pow : a < 10 ^ 28 → div (of_nat a) (of_nat (10 ^ j)) ≡ some (shifted_by a j)
  unfolding div
  div-ten_pow small = elim (Bool-cases (10 ^ j == 0)) [
    | inl zero_divisor ↦ absurd (omega (arith, ==→eq _ _ zero_divisor, ten-pos j))
    | inr nonzero ↦
        rw (nonzero, mul-one, mul-one)
          (ap some (fix-small (shifted_by a j) (omega (arith, shifted_by-le))))
  ]

  -- An integer price times a quotient by a power of ten, rounded half up, is the exact product
  -- rounded half up.
  pub quantize-mul-shifted_by :
      (u : ℕ)
      → u * a < 10 ^ 28
      → quantize (mul (of_nat u) (shifted_by a j)) ≡ some (half_up (u * a) (10 ^ j))
  unfolding quantize mul
  quantize-mul-shifted_by u small =
      let c = (shifted_by a j).coeff in
      let s = (shifted_by a j).scale in
      let fits : u * c < 10 ^ 28 = omega (arith, mul-le-mul_left u shifted_by-le) in
      let same : half_up (u * c) (10 ^ s) ≡ half_up (u * a) (10 ^ j) =
        half_up-cross (u * c) (10 ^ s) (u * a) (10 ^ j) (ten-pos s) (ten-pos j)
          (omega (arith, ap (λ (t : ℕ). u * t) (ratio_value a j))) in
      let bound : half_up (u * a) (10 ^ j) < 10 ^ 28 =
        omega (arith, half_up-le (u * a) (10 ^ j) (ten-pos j)) in
      rw (
        fix-small (record { coeff = u * c; scale = 0 + s }) fits,
        zero-add s,
        same,
        lt→ltb _ _ bound,
      )
