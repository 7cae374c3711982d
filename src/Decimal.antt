-- ===== src/Decimal.antt =====
-- Python's `decimal`, as far as core/metrics/metric.py, core/money.py and the services use it.
-- Decimals that are not negative: a coefficient over a power of ten, in the default context of 28
-- digits. Two coefficients with the same value are the same number to every operation here, so a
-- positive exponent of Python's is multiplied into the coefficient.
pub mod Rounding
pub mod Means
use tgc_bus_core.Base.{
  ℕ, zero, suc, ◌+◌, ◌-◌, ◌*◌, ◌/◌, ◌%◌, ◌^◌, max, Bool, Option, none, some, ltb, ◌==◌,
  if◌then◌else◌,
}

pub record Decimal : Type 0 where
  pub coeff : ℕ
  pub scale : ℕ

-- What `Decimal(text)` makes of a text: it raises, or it is a NaN, an infinity with its sign, or
-- a number with its sign, a coefficient and the count of digits behind the point.
pub data Number : Type 0 where
  malformed : Number
  nan : Number
  infinity : Bool → Number
  finite : Bool → ℕ → ℕ → Number

-- `Decimal(n)`
abbrev pub of_nat : ℕ → Decimal
of_nat n = record { coeff = n; scale = 0 }

digits_from : ℕ → ℕ → ℕ
digits_from zero n = 1
digits_from (suc fuel) n =
    let longer = suc (digits_from fuel (n / 10)) in if ltb n 10 then 1 else longer

-- The count of decimal digits of `n`; `n` rounds are enough.
unfoldable pub digit_count : ℕ → ℕ
unfolding digits_from
digit_count n = digits_from n n

-- n / d to the nearest integer, a tie to the even one (ROUND_HALF_EVEN).
unfoldable pub half_even : ℕ → ℕ → ℕ
half_even n d =
    if ltb (2 * (n % d)) d
    then n / d
    else if ltb d (2 * (n % d))
    then n / d + 1
    else if n / d % 2 == 0
    then n / d
    else n / d + 1

-- n / d to the nearest integer, a tie upwards (ROUND_HALF_UP).
unfoldable pub half_up : ℕ → ℕ → ℕ
half_up n d = (2 * n + d) / (2 * d)

drop_digits : ℕ → Decimal → Decimal
drop_digits k d = record {
  coeff = half_even d.coeff (10 ^ k) * 10 ^ (k - d.scale);
  scale = d.scale - k;
}

-- The context's rounding to 28 significant digits.
unfoldable pub fix : Decimal → Decimal
unfolding drop_digits
fix d = if ltb d.coeff (10 ^ 28) then d else drop_digits (digit_count d.coeff - 28) d

-- `a * b`
unfoldable pub mul : Decimal → Decimal → Decimal
mul a b = fix (record { coeff = a.coeff * b.coeff; scale = a.scale + b.scale })

-- `a + b`, of the coefficients at the longer scale.
unfoldable pub add : Decimal → Decimal → Decimal
add a b = fix (record {
  coeff = a.coeff * 10 ^ (b.scale - a.scale) + b.coeff * 10 ^ (a.scale - b.scale);
  scale = max a.scale b.scale;
})

-- Zeros at the end of the coefficient of an exact quotient are taken off.
pub strip_zeros : ℕ → ℕ → Decimal
strip_zeros zero q = of_nat q
strip_zeros (suc k) q =
    let rest = strip_zeros k (q / 10) in
    if q % 10 == 0 then rest else record { coeff = q; scale = suc k }

-- Enough digits that the quotient has more than 28 of them.
unfoldable pub shift_of : ℕ → ℕ
shift_of d = 29 + digit_count d

-- A quotient that is not exact keeps a last digit that `fix` cannot take for a tie.
sticky : ℕ → ℕ
sticky q = if q % 5 == 0 then q + 1 else q

pub ratio : ℕ → ℕ → Decimal
unfolding strip_zeros sticky
ratio n d =
    let k = shift_of d in
    if n * 10 ^ k % d == 0
    then strip_zeros k (n * 10 ^ k / d)
    else record { coeff = sticky (n * 10 ^ k / d); scale = k }

-- `a / b`, the quotient rounded once to 28 digits; `none` is the DivisionByZero or
-- InvalidOperation that a zero divisor raises.
unfoldable pub div : Decimal → Decimal → Option Decimal
unfolding ratio
div a b =
    if b.coeff == 0
    then none
    else some (fix (ratio (a.coeff * 10 ^ b.scale) (b.coeff * 10 ^ a.scale)))

-- `value.quantize(Decimal("1"), rounding=ROUND_HALF_UP)`; `none` is the InvalidOperation that a
-- result of more than 28 digits raises.
unfoldable pub quantize : Decimal → Option ℕ
quantize d = let n = half_up d.coeff (10 ^ d.scale) in if ltb n (10 ^ 28) then some n else none

-- `value.quantize(Decimal("0.01"))`, in hundredths, with the context's ROUND_HALF_EVEN.
unfoldable pub quantize_cents : Decimal → Option ℕ
quantize_cents d =
    let n = half_even (d.coeff * 100) (10 ^ d.scale) in if ltb n (10 ^ 28) then some n else none
