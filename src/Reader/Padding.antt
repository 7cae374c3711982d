-- ===== src/Reader/Padding.antt =====
-- The padding loop of `_sha1_legacy_hex` in core/reader/ids.py.
use tgc_bus_core.Base.{
  ℕ, zero, suc, ◌+◌, ◌-◌, ◌*◌, ◌%◌, ◌≤◌, ◌<◌, ◌≡◌, true, false, refl, sym, ap, ◌∙◌, arith, List, [],
  ◌∷◌, ◌++◌, length, length-append, ◌==◌, ==→eq, Bool-cases, inl, inr,
}
use mathlib.Core.List.{append_assoc, append-nil}
use tgc_bus_core.Reader.Sha1.{append_zeros, to_bytes, padded}

abbrev pub zeros : ℕ → List ℕ
zeros zero = []
zeros (suc k) = 0 ∷ zeros k

not_yet : (n k : ℕ) → suc k < 64 → (n + suc k) % 64 ≡ 56 → (n % 64 == 56) ≡ false
not_yet n k lt e = elim (Bool-cases (n % 64 == 56)) [
  | inl here ↦ let h : n % 64 ≡ 56 = ==→eq _ _ here in absurd (omega arith)
  | inr later ↦ later
]

append_zeros-lem :
    (fuel k : ℕ) (m : List ℕ)
    → k ≤ fuel
    → k < 64
    → (length m + k) % 64 ≡ 56
    → append_zeros fuel m ≡ m ++ zeros k
unfolding append_zeros
append_zeros-lem zero zero m h lt e = sym (append-nil m)
append_zeros-lem zero (suc k) m h lt e = absurd (omega arith)
append_zeros-lem (suc fuel) zero m h lt e =
    let here : (length m % 64 == 56) ≡ true = ground arith in rw here (sym (append-nil m))
append_zeros-lem (suc fuel) (suc k) m h lt e =
    let later : (length m % 64 == 56) ≡ false = not_yet (length m) k lt e in
    let next : (length (m ++ 0 ∷ []) + k) % 64 ≡ 56 = omega (arith, length-append m (0 ∷ [])) in
    rw later (
      append_zeros-lem fuel k (m ++ 0 ∷ []) (omega arith) (omega arith) next
      ∙ append_assoc m (0 ∷ []) (zeros k))

length-zeros : (k : ℕ) → length (zeros k) ≡ k
length-zeros zero = refl
length-zeros (suc k) = omega (arith, length-zeros k)

length-to_bytes : (n x : ℕ) → length (to_bytes n x) ≡ n
unfolding to_bytes
length-to_bytes zero x = refl
length-to_bytes (suc n) x = omega (arith, length-to_bytes n x)

-- How many zeros are missing.
abbrev pub missing : ℕ → ℕ
missing n = (120 - n % 64) % 64

missing_fits : (n : ℕ) → (n + missing n) % 64 ≡ 56
missing_fits n = omega arith

missing_small : (n : ℕ) → missing n < 64
missing_small n = omega arith

-- The loop ends within its 64 rounds: the message gets the byte 0x80, fewer than 64 zeros and its
-- length in 8 bytes, and is then a whole number of chunks of 64 bytes.
pub padded_lem :
    (bytes : List ℕ)
    → (k : ℕ) × (k < 64)
      × (padded bytes ≡ (bytes ++ 0x80 ∷ []) ++ zeros k ++ to_bytes 8 (length bytes * 8))
      × (length (padded bytes) % 64 ≡ 0)
unfolding padded
padded_lem bytes =
    let m = bytes ++ 0x80 ∷ [] in
    let k = missing (length m) in
    let e =
      append_zeros-lem 64 k m (omega arith) (missing_small (length m)) (missing_fits (length m)) in
    let tail = to_bytes 8 (length bytes * 8) in
    let whole : length (append_zeros 64 m ++ tail) % 64 ≡ 0 = rw e (
      omega (
        arith,
        length-append (m ++ zeros k) tail,
        length-append m (zeros k),
        length-zeros k,
        length-to_bytes 8 (length bytes * 8),
        missing_fits (length m),
      )) in
    (k, missing_small (length m), ap (λ zs. zs ++ to_bytes 8 (length bytes * 8)) e, whole)
