-- ===== src/Reader/Sha1.antt =====
-- `_sha1_legacy_hex` of core/reader/ids.py, on a list of bytes. A word is a number below 2 ^ 32:
-- `& 0xFFFFFFFF` is `% 2 ^ 32`, a shift is a product or a quotient. The data has fewer than 2 ^ 61
-- bytes, so that its length in bits fits into 8 bytes.
use tgc_bus_core.Base.{
  ℕ, zero, suc, ◌+◌, ◌-◌, ◌*◌, ◌/◌, ◌%◌, ◌^◌, String, List, [], ◌∷◌, ◌++◌, ltb, ◌==◌, if◌then◌else◌,
  length, get_or,
}
use Prim.Native.Nat.{bit_and, bit_or, bit_xor}
use Prim.Native.Char.{Char}
use text.Mathlib.Text.{char_at?}

abbrev pub word : ℕ → ℕ
word n = n % 2 ^ 32

-- while (len(message) % 64) != 56: message.append(0)
unfoldable pub append_zeros : ℕ → List ℕ → List ℕ
append_zeros zero message = message
append_zeros (suc fuel) message =
    let rest = append_zeros fuel (message ++ 0 ∷ []) in
    if length message % 64 == 56 then message else rest

-- n.to_bytes(count, byteorder="big")
unfoldable pub to_bytes : ℕ → ℕ → List ℕ
to_bytes zero n = []
to_bytes (suc count) n = n / 256 ^ count % 256 ∷ to_bytes count n

-- The message with its padding and its length.
unfoldable pub padded : List ℕ → List ℕ
padded bytes = append_zeros 64 (bytes ++ 0x80 ∷ []) ++ to_bytes 8 (length bytes * 8)

-- The words of a chunk: int.from_bytes(…, byteorder="big")
unfoldable pub words_of : List ℕ → List ℕ
words_of (a ∷ b ∷ c ∷ d ∷ rest) = (((a * 256 + b) * 256 + c) * 256 + d) ∷ words_of rest
words_of _ = []

-- An entry of a list, and 0 behind its end.
unfoldable pub entry : ℕ → List ℕ → ℕ
entry n [] = 0
entry zero (x ∷ xs) = x
entry (suc n) (x ∷ xs) = entry n xs

-- (x << k) | (x >> (32 - k)), as a word.
unfoldable pub rotate : ℕ → ℕ → ℕ
rotate k x = word (bit_or (x * 2 ^ k) (x / 2 ^ (32 - k)))

-- for i in range(16, 80): …, with the words from the last one on.
unfoldable pub extend : ℕ → List ℕ → List ℕ
extend zero w = w
extend (suc n) w =
    extend n
      (rotate 1 (bit_xor (bit_xor (bit_xor (entry 2 w) (entry 7 w)) (entry 13 w)) (entry 15 w)) ∷ w)

unfoldable pub reversed : List ℕ → List ℕ → List ℕ
reversed [] done = done
reversed (x ∷ xs) done = reversed xs (x ∷ done)

-- The variables a to e, and also h0 to h4.
pub record Registers : Type 0 where
  pub a : ℕ
  pub b : ℕ
  pub c : ℕ
  pub d : ℕ
  pub e : ℕ

-- ~b of a word.
abbrev flip : ℕ → ℕ
flip b = bit_xor b 0xFFFFFFFF

unfoldable pub mix : ℕ → Registers → ℕ
mix i r =
    if ltb i 20
    then bit_or (bit_and r.b r.c) (bit_and (flip r.b) r.d) + 0x5A827999
    else if ltb i 40
    then bit_xor (bit_xor r.b r.c) r.d + 0x6ED9EBA1
    else if ltb i 60
    then bit_or (bit_or (bit_and r.b r.c) (bit_and r.b r.d)) (bit_and r.c r.d) + 0x8F1BBCDC
    else bit_xor (bit_xor r.b r.c) r.d + 0xCA62C1D6

-- One round: `i` is the round's number, `x` its word. The rotation of `a` is not cut to a word
-- before the sum is.
unfoldable pub round : ℕ → ℕ → Registers → Registers
round i x r = record {
  a = word (bit_or (r.a * 2 ^ 5) (r.a / 2 ^ 27) + mix i r + r.e + x);
  b = r.a;
  c = rotate 30 r.b;
  d = r.c;
  e = r.d;
}

unfoldable pub rounds : ℕ → List ℕ → Registers → Registers
rounds i [] r = r
rounds i (x ∷ w) r = rounds (suc i) w (round i x r)

unfoldable pub add_registers : Registers → Registers → Registers
add_registers h r = record {
  a = word (h.a + r.a);
  b = word (h.b + r.b);
  c = word (h.c + r.c);
  d = word (h.d + r.d);
  e = word (h.e + r.e);
}

-- What a chunk's words do to h0 to h4.
unfoldable pub chunk : List ℕ → Registers → Registers
chunk words h = add_registers h (rounds 0 (reversed (extend 64 (reversed words [])) []) h)

-- The chunks are sixteen words each.
unfoldable pub chunks : List ℕ → Registers → Registers
chunks (w0 ∷ w1 ∷ w2 ∷ w3 ∷ w4 ∷ w5 ∷ w6 ∷ w7 ∷ w8 ∷ w9 ∷ w10 ∷ w11 ∷ w12 ∷ w13 ∷ w14 ∷ w15 ∷ rest)
      h =
    chunks rest (
      chunk
        (w0 ∷ w1 ∷ w2 ∷ w3 ∷ w4 ∷ w5 ∷ w6 ∷ w7 ∷ w8 ∷ w9 ∷ w10 ∷ w11 ∷ w12 ∷ w13 ∷ w14 ∷ w15 ∷ [])
        h)
chunks _ h = h

abbrev pub start : Registers
start = record { a = 0x67452301; b = 0xEFCDAB89; c = 0x98BADCFE; d = 0x10325476; e = 0xC3D2E1F0 }

unfoldable pub hex_digit : ℕ → Char
hex_digit n = get_or (char_at? "0123456789abcdef" (n % 16)) "0"

-- The last `count` hexadecimal digits of a number, before a text: f"{part:08x}" for a word.
unfoldable pub hex : ℕ → ℕ → String → String
unfolding hex_digit
hex zero n rest = rest
hex (suc count) n rest = hex count (n / 16) (String.◌∷◌ (hex_digit n) rest)

-- "".join(…) of the five words.
unfoldable pub digits_of : Registers → String
digits_of h = hex 8 h.a (hex 8 h.b (hex 8 h.c (hex 8 h.d (hex 8 h.e ""))))

unfoldable pub sha1_legacy_hex : List ℕ → String
sha1_legacy_hex bytes = digits_of (chunks (words_of (padded bytes)) start)
