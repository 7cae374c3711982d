-- ===== src/Reader/Digest.antt =====
-- core/reader/ids.py: the form of the digests.
use tgc_bus_core.Base.{
  text_length, all_chars, ℕ, zero, suc, ◌+◌, ◌%◌, ◌/◌, ◌<◌, ◌≡◌, refl, arith, String, Bool, true,
  ◌&&◌, get_or, split_and, split_on, split_on-join, split_on-whole, all_chars-weaken, join, not,
  Bool-cases, inl, inr, ◌==◌, ==→eq,
}
use text.Mathlib.Text.{char_at?}
use tgc_bus_core.Effects.{ok}
use tgc_bus_core.Reader.Sha1.{Registers, digits_of, hex_digit, hex, sha1_legacy_hex}
use tgc_bus_core.Reader.{
  Paths, Codecs, check_signature, parse_parts, parse_rid, RidKind, legacy_root_signature,
}
use tgc_bus_core.Reader.Texts.{is_colon, is_hex, full_match}
use tgc_bus_core.Reader.RoundTrip.{
  text_length-first_chars, all_chars-first_chars, full_match-of_all, full_match-all, hex_no_colon,
}

holds_below : ℕ → (ℕ → Bool) → Bool
holds_below zero p = true
holds_below (suc n) p = p n && holds_below n p

below : (n : ℕ) (p : ℕ → Bool) (x : ℕ) → holds_below n p ≡ true → x < n → p x ≡ true
unfolding holds_below
below zero p x h lt = absurd (omega arith)
below (suc n) p x h lt = elim (Bool-cases (x == n)) [
  | inl same ↦ let e : x ≡ n = ==→eq x n same in rw e (split_and (p n) (holds_below n p) h).0
  | inr other ↦ below n p x (split_and (p n) (holds_below n p) h).1 (ground arith)
]

abbrev digit : ℕ → Bool
digit m = is_hex (get_or (char_at? "0123456789abcdef" m) "0")

digits : holds_below 16 digit ≡ true
unfolding holds_below is_hex
digits = refl

hex_digit-hex : (n : ℕ) → is_hex (hex_digit n) ≡ true
unfolding hex_digit
hex_digit-hex n = below 16 digit (n % 16) digits (omega arith)

text_length-hex :
    (count n : ℕ) (rest : String) → text_length (hex count n rest) ≡ count + text_length rest
unfolding text_length hex
text_length-hex zero n rest = omega arith
text_length-hex (suc count) n rest = omega (arith, text_length-hex count (n / 16) _)

all_chars-hex :
    (count n : ℕ) (rest : String)
    → all_chars is_hex rest ≡ true
    → all_chars is_hex (hex count n rest) ≡ true
unfolding all_chars hex
all_chars-hex zero n rest h = h
all_chars-hex (suc count) n rest h = all_chars-hex count (n / 16) _ (rw (hex_digit-hex n) h)

no_length : text_length "" ≡ 0
unfolding text_length
no_length = refl

text_length-digits_of : (h : Registers) → text_length (digits_of h) ≡ 40
unfolding digits_of
text_length-digits_of h = omega (
  arith,
  text_length-hex 8 h.a _,
  text_length-hex 8 h.b _,
  text_length-hex 8 h.c _,
  text_length-hex 8 h.d _,
  text_length-hex 8 h.e "",
  no_length,
)

all_chars-digits_of : (h : Registers) → all_chars is_hex (digits_of h) ≡ true
unfolding digits_of
all_chars-digits_of h = all_chars-hex 8 h.a _ (
    all_chars-hex 8 h.b _ (
      all_chars-hex 8 h.c _
        (all_chars-hex 8 h.d _ (all_chars-hex 8 h.e "" (unfold all_chars in refl)))))

signature-length :
    (os : Paths) (lib : Codecs) (root : String)
    → text_length (legacy_root_signature os lib root) ≡ 10
unfolding legacy_root_signature sha1_legacy_hex
signature-length os lib root = text_length-first_chars 10 _ (omega (arith, text_length-digits_of _))

signature-hex :
    (os : Paths) (lib : Codecs) (root : String)
    → full_match is_hex (legacy_root_signature os lib root) ≡ true
unfolding legacy_root_signature sha1_legacy_hex
signature-hex os lib root =
    full_match-of_all is_hex 9 _ (signature-length os lib root)
      (all_chars-first_chars is_hex 10 _ (all_chars-digits_of _))

-- An id of the old form, with the first ten digits of the SHA-1 of a root as its signature, is taken
-- by `_parse_rid` with any payload that has no colon, and gives back both.
pub parse_rid-legacy :
    (os : Paths) (lib : Codecs) (root payload : String)
    → all_chars (λ c. not (is_colon c)) payload ≡ true
    → parse_rid (join "local:" (join (legacy_root_signature os lib root) (String.◌∷◌ ":" payload)))
      ≡ ok (record {
        kind = RidKind.legacy;
        signature = legacy_root_signature os lib root;
        payload = payload;
      })
unfolding parse_rid split_on join parse_parts check_signature
parse_rid-legacy os lib root payload plain =
    let signature = legacy_root_signature os lib root in
    let hex = signature-hex os lib root in
    let no_colons =
      all_chars-weaken is_hex (λ c. not (is_colon c)) signature hex_no_colon
        (full_match-all is_hex signature hex) in
    rw
      (
        split_on-join is_colon signature ":" payload no_colons refl,
        split_on-whole is_colon payload plain,
        signature-length os lib root,
        hex,
      )
      refl
