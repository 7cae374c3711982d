-- ===== src/Reader.antt =====
-- core/reader/ids.py: the ids that name files under the allowed roots. A text is a list of
-- characters; what `os.path`, `base64` and `hashlib` do is a parameter.
pub mod Texts
pub mod Sha1
pub mod Padding
pub mod RoundTrip
pub mod Roots
pub mod Digest
use tgc_bus_core.Base.{
  ℕ, zero, suc, ◌+◌, ◌-◌, ◌%◌, ◌^◌, String, Bool, true, false, not, ◌&&◌, ◌||◌, Option, none, some,
  List, [], ◌∷◌, ltb, leb, ◌==◌, ◌=ₛ◌, if◌then◌else◌, join, map, text_length, all_chars, split_on,
}
use Prim.Native.Char.{Char, code}
use tgc_bus_core.Effects.{value_error, Result, ok, err, of_option, ◌then_do◌}
use tgc_bus_core.Reader.Sha1.{sha1_legacy_hex}
use tgc_bus_core.Reader.Texts.{
  is_empty, first_chars, starts_with, strip_end, is_colon, is_hex, is_b64, full_match, is_padding,
  padding_of,
}

-- Of `os.path`.
pub record Paths : Type 0 where
  pub sep : String
  pub normcase : String → String
  pub normpath : String → String
  pub abspath : String → String
  pub isabs : String → Bool
  -- the first of `splitdrive`
  pub drive : String → String
  pub path_join : String → String → String
  pub relpath : String → String → String

-- Of `str.encode`, `hashlib` and `base64`: `decode` is `b64decode` and then UTF-8's, `none` where
-- one of them raises.
pub record Codecs : Type 0 where
  pub utf8 : String → List ℕ
  pub sha256_hex : String → String
  pub urlsafe_b64encode : String → String
  pub decode : String → Option String

-- What `_parse_rid` returns.
pub data RidKind : Type 0 where
  legacy : RidKind
  v2 : RidKind

pub record Rid : Type 0 where
  pub kind : RidKind
  pub signature : String
  pub payload : String

-- A signature of the length that its kind has.
unfoldable pub check_signature : RidKind → ℕ → String → String → Result Rid
check_signature kind len signature payload =
    if not (text_length signature == len) || not (full_match is_hex signature)
    then err (value_error "bad_rid")
    else ok (record { kind = kind; signature = signature; payload = payload })

unfoldable pub parse_parts : List String → Result Rid
parse_parts (prefix ∷ signature ∷ payload ∷ []) =
    if prefix =ₛ "local"
    then check_signature RidKind.legacy 10 signature payload
    else err (value_error "bad_rid")
parse_parts (prefix ∷ version ∷ signature ∷ payload ∷ []) =
    if prefix =ₛ "local" && version =ₛ "v2"
    then check_signature RidKind.v2 32 signature payload
    else err (value_error "bad_rid")
parse_parts _ = err (value_error "bad_rid")

-- `_parse_rid`
unfoldable pub parse_rid : String → Result Rid
parse_rid rid = parse_parts (split_on is_colon rid)

-- f"{RID_PREFIX}:{RID_VERSION_V2}:{…}:{…}"
unfoldable pub print_rid : String → String → String
print_rid signature payload = join "local:v2:" (join signature (String.◌∷◌ ":" payload))

module _ (os : Paths) (lib : Codecs) where
  -- `_norm`
  unfoldable pub norm : String → String
  norm path = os.normcase (os.normpath path)

  -- `_legacy_root_signature`
  unfoldable pub legacy_root_signature : String → String
  legacy_root_signature root = first_chars 10 (sha1_legacy_hex (lib.utf8 (norm (os.abspath root))))

  unfoldable pub root_signature : String → String
  root_signature root =
      first_chars 32 (lib.sha256_hex (join "buscore:rid:v2:" (norm (os.abspath root))))

  -- `_b64e`
  unfoldable pub b64e : String → String
  b64e value = strip_end is_padding (lib.urlsafe_b64encode value)

  -- `_b64d`
  unfoldable pub b64d : String → Result String
  b64d value =
      if not (full_match is_b64 value)
      then err (value_error "bad_rid")
      else (let over = text_length value % 4 in
          if over == 1
          then err (value_error "bad_rid")
          else of_option (lib.decode (join value (padding_of ((4 - over) % 4))))
              (value_error "bad_rid"))

  -- The path is the root, or starts with the root and a separator.
  unfoldable pub is_within : String → String → Bool
  is_within path root =
      path =ₛ root
      || starts_with (join (strip_end (λ c. code c == 92 || code c == 47) root) os.sep) path

  -- The checks of `_resolve_under_root` on the relative path alone.
  unfoldable pub relative_part : String → Result String
  relative_part rel =
      if is_empty rel || not (all_chars (λ c. not (code c == 0)) rel)
      then err (value_error "bad_rid")
      else if os.isabs rel
      then err (value_error "rid_path_escape")
      else if not (is_empty (os.drive rel))
      then err (value_error "rid_path_escape")
      else (let rel_norm = os.normpath rel in
          if rel_norm =ₛ ".." || starts_with (join ".." os.sep) rel_norm
          then err (value_error "rid_path_escape")
          else ok rel_norm)

  -- And the check of where it leads.
  unfoldable pub under_root : String → String → Result String
  under_root root rel_norm =
      let candidate = os.normpath (os.path_join (os.abspath root) rel_norm) in
      if is_within (norm (os.abspath candidate)) (norm (os.abspath root))
      then ok candidate
      else err (value_error "rid_path_escape")

  -- `_resolve_under_root`
  unfoldable pub resolve_under_root : String → String → Result String
  resolve_under_root root rel = relative_part rel then_do under_root root

  -- The better of a match and a root: the first of the longest.
  unfoldable pub better : String → Option (String × String) → String → Option (String × String)
  better norm_path best root =
      let norm_root = norm (os.abspath root) in
      if is_within norm_path norm_root
      then elim best [
        | none ↦ some (root, norm_root)
        | some found ↦
            if ltb (text_length (found.1)) (text_length norm_root)
            then some (root, norm_root)
            else some found
      ]
      else best

  unfoldable pub match_root :
      String → Option (String × String) → List String → Option (String × String)
  match_root norm_path best [] = best
  match_root norm_path best (root ∷ roots) = match_root norm_path (better norm_path best root) roots

  unfoldable pub match_allowed_root : String → List String → Option (String × String)
  match_allowed_root abs_path roots = match_root (norm (os.abspath abs_path)) none roots

  unfoldable pub to_rid : String → List String → Result String
  to_rid abs_path roots =
      of_option (match_allowed_root abs_path roots) (value_error "path_not_in_allowed_roots")
      then_do λ found.
          ok (print_rid (root_signature found.0) (b64e (os.relpath (norm abs_path) found.1)))

  unfoldable pub expected_signature : RidKind → String → String
  expected_signature RidKind.legacy root = legacy_root_signature root
  expected_signature RidKind.v2 root = root_signature root

  -- The roots with the signature.
  unfoldable pub matching_roots : RidKind → String → List String → List String
  matching_roots kind signature [] = []
  matching_roots kind signature (root ∷ roots) =
      let rest = matching_roots kind signature roots in
      if expected_signature kind root =ₛ signature then root ∷ rest else rest

  -- resolved[key] = path
  unfoldable pub set_resolved : String → String → List (String × String) → List (String × String)
  set_resolved key path [] = (key, path) ∷ []
  set_resolved key path ((k, p) ∷ entries) =
      if k =ₛ key then (k, path) ∷ entries else (k, p) ∷ set_resolved key path entries

  unfoldable pub resolve_all :
      String → List (String × String) → List String → Result (List (String × String))
  resolve_all rel resolved [] = ok resolved
  resolve_all rel resolved (root ∷ roots) = resolve_under_root root rel then_do λ path.
      resolve_all rel (set_resolved (norm (os.abspath path)) path resolved) roots

  unfoldable pub only_path : List (String × String) → Result String
  only_path ((key, path) ∷ []) = ok path
  only_path _ = err (value_error "rid_ambiguous_root")

  unfoldable pub resolve_matches : String → List String → Result String
  resolve_matches rel [] = err (value_error "rid_root_not_found")
  resolve_matches rel (root ∷ roots) = resolve_all rel [] (root ∷ roots) then_do only_path

  unfoldable pub rid_to_path : String → List String → Result String
  rid_to_path rid roots = parse_rid rid then_do λ parsed. b64d parsed.payload then_do λ rel.
      resolve_matches rel (matching_roots parsed.kind parsed.signature roots)
