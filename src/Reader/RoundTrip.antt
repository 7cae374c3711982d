-- ===== src/Reader/RoundTrip.antt =====
-- core/reader/ids.py: an id that is printed is read back.
use tgc_bus_core.Base.{
  ℕ, zero, suc, ◌+◌, ◌-◌, ◌%◌, ◌≤◌, ◌≡◌, refl, sym, ap, arith, String, Bool, true, false, not, some,
  List, ◌==◌, ==→eq, Bool-cases, inl, inr, join, text_length, all_chars, split_on, split_and,
  split_on-join, split_on-whole, all_chars-weaken,
}
use Prim.Native.Char.{Char}
use tgc_bus_core.Effects.{ok}
use tgc_bus_core.Reader.{
  Paths, Codecs, RidKind, check_signature, parse_parts, parse_rid, print_rid, b64e, b64d,
  root_signature, to_rid, match_allowed_root, norm,
}
use tgc_bus_core.Reader.Texts.{
  first_chars, is_empty, strip_end, is_colon, is_hex, is_b64, full_match, is_padding, padding_of,
}

pub hex_no_colon : (c : Char) → is_hex c ≡ true → not (is_colon c) ≡ true
unfolding is_hex
hex_no_colon c h = ground arith

b64_no_colon : (c : Char) → is_b64 c ≡ true → not (is_colon c) ≡ true
unfolding is_b64
b64_no_colon c h = ground arith

-- A character of the alphabet is no padding.
b64_no_padding : (c : Char) → is_b64 c ≡ true → is_padding c ≡ false
unfolding is_b64
b64_no_padding c h = ground arith

strip-padding : (k : ℕ) → strip_end is_padding (padding_of k) ≡ ""
unfolding strip_end padding_of
strip-padding zero = refl
strip-padding (suc k) = rw (strip-padding k) refl

strip-encoded :
    (body : String) (k : ℕ)
    → all_chars is_b64 body ≡ true
    → strip_end is_padding (join body (padding_of k)) ≡ body
unfolding strip_end all_chars join
strip-encoded String.[] k h = strip-padding k
strip-encoded (String.◌∷◌ c s) k h =
    let (here, rest) = split_and (is_b64 c) (all_chars is_b64 s) h in
    rw (b64_no_padding c here, strip-encoded s k rest) refl

pub text_length-first_chars :
    (n : ℕ) (s : String) → n ≤ text_length s → text_length (first_chars n s) ≡ n
unfolding text_length first_chars
text_length-first_chars n String.[] h = omega arith
text_length-first_chars zero (String.◌∷◌ c s) h = refl
text_length-first_chars (suc n) (String.◌∷◌ c s) h =
    ap suc (text_length-first_chars n s (omega arith))

pub all_chars-first_chars :
    (p : Char → Bool) (n : ℕ) (s : String)
    → all_chars p s ≡ true
    → all_chars p (first_chars n s) ≡ true
unfolding all_chars first_chars
all_chars-first_chars p n String.[] h = refl
all_chars-first_chars p zero (String.◌∷◌ c s) h = refl
all_chars-first_chars p (suc n) (String.◌∷◌ c s) h =
    let (here, rest) = split_and (p c) (all_chars p s) h in
    rw (here, all_chars-first_chars p n s rest) refl

pub full_match-all : (p : Char → Bool) (s : String) → full_match p s ≡ true → all_chars p s ≡ true
unfolding full_match
full_match-all p s h = (split_and (not (is_empty s)) (all_chars p s) h).1

pub full_match-of_all :
    (p : Char → Bool) (n : ℕ) (s : String)
    → text_length s ≡ suc n
    → all_chars p s ≡ true
    → full_match p s ≡ true
unfolding full_match text_length
full_match-of_all p n String.[] len h = absurd (omega arith)
full_match-of_all p n (String.◌∷◌ c s) len h = h

not_one : (n k : ℕ) → (n + k) % 4 ≡ 0 → k ≤ 2 → (n % 4 == 1) ≡ false
not_one n k fours short = elim (Bool-cases (n % 4 == 1)) [
  | inl one ↦ let e : n % 4 ≡ 1 = ==→eq _ _ one in absurd (omega arith)
  | inr other ↦ other
]

gap : (n k : ℕ) → (n + k) % 4 ≡ 0 → k ≤ 2 → (4 - n % 4) % 4 ≡ k
gap n k fours short = omega arith

-- What base64 promises of a text: its alphabet, and at most two signs of padding up to a multiple
-- of four.
pub record IsEncoded (lib : Codecs) (value : String) : Type 0 where
  pub body : String
  pub padding : ℕ
  pub shape : lib.urlsafe_b64encode value ≡ join body (padding_of padding)
  pub alphabet : full_match is_b64 body ≡ true
  pub fours : (text_length body + padding) % 4 ≡ 0
  pub short : padding ≤ 2
  pub decodes : lib.decode (lib.urlsafe_b64encode value) ≡ some value

-- What SHA-256 promises: 64 hexadecimal digits.
pub record IsDigest (lib : Codecs) : Type 0 where
  pub digits : (s : String) → text_length (lib.sha256_hex s) ≡ 64
  pub hex : (s : String) → all_chars is_hex (lib.sha256_hex s) ≡ true

b64e-body :
    (os : Paths) (lib : Codecs) (value : String) (h : IsEncoded lib value)
    → b64e os lib value ≡ h.body
unfolding b64e
b64e-body os lib value h =
    rw h.shape (strip-encoded h.body h.padding (full_match-all is_b64 h.body h.alphabet))

b64e-no_colon :
    (os : Paths) (lib : Codecs) (value : String)
    → IsEncoded lib value
    → all_chars (λ c. not (is_colon c)) (b64e os lib value) ≡ true
b64e-no_colon os lib value h = rw (b64e-body os lib value h) (
    all_chars-weaken is_b64 (λ c. not (is_colon c)) h.body b64_no_colon
      (full_match-all is_b64 h.body h.alphabet))

-- A text that base64 encodes as it promises comes back from `_b64d` after `_b64e`.
pub b64d-b64e :
    (os : Paths) (lib : Codecs) (value : String)
    → IsEncoded lib value
    → b64d os lib (b64e os lib value) ≡ ok value
unfolding b64d
b64d-b64e os lib value h =
    let stripped = b64e-body os lib value h in
    let len = text_length h.body in
    let some_over : (len % 4 == 1) ≡ false = not_one len h.padding h.fours h.short in
    let same : (4 - len % 4) % 4 ≡ h.padding = gap len h.padding h.fours h.short in
    rw (stripped, h.alphabet, some_over, same, sym h.shape, h.decodes) refl

-- A printed id is read back, where its signature is one and its payload has no colon.
parse_rid-print_rid :
    (signature payload : String)
    → text_length signature ≡ 32
    → full_match is_hex signature ≡ true
    → all_chars (λ c. not (is_colon c)) payload ≡ true
    → parse_rid (print_rid signature payload)
      ≡ ok (record { kind = RidKind.v2; signature = signature; payload = payload })
unfolding parse_rid print_rid split_on join parse_parts check_signature
parse_rid-print_rid signature payload len hex plain =
    let no_colons =
      all_chars-weaken is_hex (λ c. not (is_colon c)) signature hex_no_colon
        (full_match-all is_hex signature hex) in
    rw
      (
        split_on-join is_colon signature ":" payload no_colons refl,
        split_on-whole is_colon payload plain,
        len,
        hex,
      )
      refl

module _ (os : Paths) (lib : Codecs) (digest : IsDigest lib) where
  root_signature-length : (root : String) → text_length (root_signature os lib root) ≡ 32
  unfolding root_signature
  root_signature-length root = text_length-first_chars 32 _ (omega (arith, digest.digits _))

  root_signature-hex : (root : String) → full_match is_hex (root_signature os lib root) ≡ true
  unfolding root_signature
  root_signature-hex root =
      full_match-of_all is_hex 31 _ (root_signature-length root)
        (all_chars-first_chars is_hex 32 _ (digest.hex _))

  -- What base64 and SHA-256 promise being so, the id that `to_rid` gives a path is parsed into the
  -- signature of the root that was matched and a payload that `_b64d` reads back as the path's
  -- place under that root.
  pub to_rid-parse_rid :
      (path root norm_root : String) (roots : List String)
      → match_allowed_root os lib path roots ≡ some (root, norm_root)
      → IsEncoded lib (os.relpath (norm os lib path) norm_root)
      → (rid payload : String) × (to_rid os lib path roots ≡ ok rid)
        × (parse_rid rid
            ≡ ok (record {
              kind = RidKind.v2;
              signature = root_signature os lib root;
              payload = payload;
            }))
        × (b64d os lib payload ≡ ok (os.relpath (norm os lib path) norm_root))
  unfolding to_rid
  to_rid-parse_rid path root norm_root roots matched encoded =
      let rel = os.relpath (norm os lib path) norm_root in
      let signature = root_signature os lib root in
      let payload = b64e os lib rel in
      (
        print_rid signature payload,
        payload,
        rw matched refl,
        parse_rid-print_rid signature payload (root_signature-length root) (root_signature-hex root)
            (b64e-no_colon os lib rel encoded),
        b64d-b64e os lib rel encoded,
      )
