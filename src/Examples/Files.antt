-- ===== src/Examples/Files.antt =====
-- The ids of files in the shop's folder. The codecs here know the one text that they are asked for.
use tgc_bus_core.Base.{
  ℕ, ◌%◌, ◌<◌, ◌≡◌, refl, arith, String, false, none, some, [], ◌∷◌, ◌++◌, length, if◌then◌else◌,
  ◌=ₛ◌, join, text_length, all_chars, split_on,
}
use tgc_bus_core.Effects.{ok}
use tgc_bus_core.Reader.Sha1.{
  sha1_legacy_hex, digits_of, hex, hex_digit, padded, append_zeros, to_bytes, words_of, chunks,
  chunk, add_registers, rounds, round, mix, reversed, extend, rotate, entry,
}
use tgc_bus_core.Reader.Padding.{zeros, padded_lem}
use tgc_bus_core.Reader.{
  Paths, Codecs, Rid, RidKind, norm, is_within, resolve_under_root, relative_part, under_root,
  resolve_matches, resolve_all, only_path, matching_roots, set_resolved, parse_parts,
  check_signature, legacy_root_signature, match_allowed_root, match_root, better, to_rid, parse_rid,
  b64d, root_signature, rid_to_path, expected_signature,
}
use tgc_bus_core.Reader.Texts.{
  padding_of, first_chars, starts_with, strip_end, full_match, is_b64, is_hex,
}
use tgc_bus_core.Reader.RoundTrip.{IsEncoded, IsDigest, to_rid-parse_rid}
use tgc_bus_core.Reader.Digest.{parse_rid-legacy}
use tgc_bus_core.Reader.Roots.{IsUnder, IsNamed, rid_to_path-IsUnder}

sha1_of_abc : sha1_legacy_hex (97 ∷ 98 ∷ 99 ∷ []) ≡ "a9993e364706816aba3e25717850c26c9cd0d89d"
unfolding sha1_legacy_hex digits_of hex hex_digit padded append_zeros to_bytes words_of chunks chunk
    add_registers rounds round mix reversed extend rotate entry
sha1_of_abc = refl

padded_example :
    (k : ℕ) × (k < 64)
    × (padded (1 ∷ 2 ∷ []) ≡ (1 ∷ 2 ∷ 0x80 ∷ []) ++ zeros k ++ to_bytes 8 16)
    × (length (padded (1 ∷ 2 ∷ [])) % 64 ≡ 0)
padded_example = padded_lem (1 ∷ 2 ∷ [])

-- Paths that are absolute and normal, with the last part of one as its place.
abbrev os : Paths
os = record {
  sep = "/";
  normcase = λ p. p;
  normpath = λ p. p;
  abspath = λ p. p;
  isabs = λ p. false;
  drive = λ p. "";
  path_join = λ a b. join a (join "/" b);
  relpath = λ p root. "a";
}

abbrev lib : Codecs
lib = record {
  utf8 = λ s. 97 ∷ [];
  sha256_hex = λ s. "0123456789abcdef0123456789abcdef0123456789abcdef0123456789abcdef";
  urlsafe_b64encode = λ s. "YQ==";
  decode = λ s. if s =ₛ "YQ==" then some "a" else none;
}

lib-IsDigest : IsDigest lib
unfolding text_length all_chars is_hex
lib-IsDigest = record { digits = λ s. refl; hex = λ s. refl }

a-IsEncoded : IsEncoded lib "a"
unfolding text_length full_match all_chars is_b64 padding_of join
a-IsEncoded = record {
  body = "YQ";
  padding = 2;
  shape = refl;
  alphabet = refl;
  fours = refl;
  short = omega arith;
  decodes = refl;
}

abbrev rid : String
rid = "local:v2:0123456789abcdef0123456789abcdef:YQ"

matched : match_allowed_root os lib "/shop/a" ("/shop" ∷ []) ≡ some ("/shop", "/shop")
unfolding match_allowed_root match_root better is_within norm starts_with strip_end join
matched = refl

to_rid-parse_rid_example :
    (id payload : String) × (to_rid os lib "/shop/a" ("/shop" ∷ []) ≡ ok id)
    × (parse_rid id
        ≡ ok (record {
          kind = RidKind.v2;
          signature = root_signature os lib "/shop";
          payload = payload;
        }))
    × (b64d os lib payload ≡ ok "a")
to_rid-parse_rid_example =
    to_rid-parse_rid os lib lib-IsDigest "/shop/a" "/shop" "/shop" ("/shop" ∷ []) matched
      a-IsEncoded

resolved : rid_to_path os lib rid ("/shop" ∷ []) ≡ ok "/shop/a"
unfolding rid_to_path parse_rid parse_parts split_on check_signature text_length full_match
    all_chars is_hex b64d is_b64 padding_of join matching_roots expected_signature root_signature
    first_chars resolve_matches resolve_all resolve_under_root relative_part under_root set_resolved
    only_path starts_with is_within norm strip_end
resolved = refl

rid_to_path-IsUnder_example :
    (parsed : Rid) × (root : String) × (parse_rid rid ≡ ok parsed)
    × IsNamed os lib parsed.kind parsed.signature ("/shop" ∷ []) root
    × IsUnder os lib root "/shop/a"
rid_to_path-IsUnder_example = rid_to_path-IsUnder os lib rid "/shop/a" ("/shop" ∷ []) resolved

parse_rid-legacy_example :
    parse_rid (join "local:" (join (legacy_root_signature os lib "/shop") ":YQ"))
    ≡ ok (record {
      kind = RidKind.legacy;
      signature = legacy_root_signature os lib "/shop";
      payload = "YQ";
    })
parse_rid-legacy_example = parse_rid-legacy os lib "/shop" "YQ" (unfold all_chars in refl)
