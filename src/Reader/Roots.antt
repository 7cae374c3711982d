-- ===== src/Reader/Roots.antt =====
-- core/reader/ids.py: a path that an id is resolved to lies under an allowed root that the id's
-- signature names.
use tgc_bus_core.Base.{
  ◌≡◌, sym, arith, String, Bool, true, ◌||◌, List, [], ◌∷◌, ◌=ₛ◌, eq_iff, mem_text, Bool-cases, inl,
  inr, All, All-map, ◌⊎◌, ◌==◌, ==→eq, ap, refl, ◌∙◌, join, split_and,
}
use Prim.Native.Char.{code}
use text.Mathlib.TextEquality.{Char-path}
use tgc_bus_core.Reader.Texts.{starts_with, strip_end}
use tgc_bus_core.Effects.{Result-cases, ok, err, value_error}
use tgc_bus_core.Reader.{
  Paths, Codecs, RidKind, Rid, norm, is_within, relative_part, under_root, resolve_under_root,
  expected_signature, matching_roots, set_resolved, resolve_all, only_path, resolve_matches,
  rid_to_path, parse_rid, b64d,
}

or_true : (b : Bool) → (b || true) ≡ true
or_true b = ground arith

first : (s : String) (ts : List String) → mem_text s (s ∷ ts) ≡ true
first s ts = ground (arith, eq_iff s s)

-- A text that starts with another is that one and a rest.
starts_with-rest :
    (prefix s : String) → starts_with prefix s ≡ true → (rest : String) × (s ≡ join prefix rest)
unfolding starts_with join
starts_with-rest String.[] s h = (s, refl)
starts_with-rest (String.◌∷◌ c prefix) String.[] h = cc
starts_with-rest (String.◌∷◌ c prefix) (String.◌∷◌ d s) h =
    let (here, later) = split_and (code c == code d) (starts_with prefix s) h in
    let (rest, split) = starts_with-rest prefix s later in
    let same : c ≡ d = Char-path c d (==→eq (code c) (code d) here) in (rest, rw (same, split) refl)

join_assoc : (s t u : String) → join (join s t) u ≡ join s (join t u)
unfolding join
join_assoc String.[] t u = refl
join_assoc (String.◌∷◌ c s) t u = ap (λ r. String.◌∷◌ c r) (join_assoc s t u)

module _ (os : Paths) (lib : Codecs) where
  -- The path is the root itself, or the root without its final separators, then a separator and more,
  -- once both are made absolute and normal.
  abbrev pub IsUnder : String → String → Type 0
  IsUnder root path =
      let place = norm os lib (os.abspath path) in
      let top = norm os lib (os.abspath root) in
      (place ≡ top)
      ⊎ ((rest : String) × (place
            ≡ join (strip_end (λ c. code c == 92 || code c == 47) top) (join os.sep rest)))

  is_within-cases :
      (path root : String)
      → is_within os lib path root ≡ true
      → (path ≡ root)
        ⊎ ((rest : String) × (path
              ≡ join (strip_end (λ c. code c == 92 || code c == 47) root) (join os.sep rest)))
  unfolding is_within
  is_within-cases path root h = elim (Bool-cases (path =ₛ root)) [
    | inl same ↦ inl ((eq_iff path root).0 same)
    | inr other ↦
        let top = strip_end (λ c. code c == 92 || code c == 47) root in
        let (rest, split) = starts_with-rest (join top os.sep) path (rw other at h) in
        inr (rest, split ∙ join_assoc top os.sep rest)
  ]

  under_root-IsUnder :
      (root rel path : String) → under_root os lib root rel ≡ ok path → IsUnder root path
  unfolding under_root
  under_root-IsUnder root rel path h =
      let candidate = os.normpath (os.path_join (os.abspath root) rel) in
      let inside =
        is_within os lib (norm os lib (os.abspath candidate)) (norm os lib (os.abspath root)) in
      elim (Bool-cases inside) [
        | inl within ↦
            let e : ok candidate ≡ ok path = rw within at h in
            let same : candidate ≡ path = cc in rw (sym same) (is_within-cases _ _ within)
        | inr outside ↦
            let e : err (value_error "rid_path_escape") ≡ ok path = rw outside at h in cc
      ]

  resolve_under_root-IsUnder :
      (root rel path : String) → resolve_under_root os lib root rel ≡ ok path → IsUnder root path
  unfolding resolve_under_root
  resolve_under_root-IsUnder root rel path h = elim (Result-cases (relative_part os lib rel)) [
    | inl (part, passed) ↦ under_root-IsUnder root part path (rw passed at h)
    | inr (e, refused) ↦ let no = rw refused at h in cc
  ]

  module _ (P : String → Type 0) where
    abbrev Holds : List (String × String) → Type 0
    Holds = All (λ e. P e.1)

    set_resolved-Holds :
        (key path : String) (entries : List (String × String))
        → P path
        → Holds entries
        → Holds (set_resolved os lib key path entries)
    unfolding set_resolved
    set_resolved-Holds key path [] p _ = (p, tt)
    set_resolved-Holds key path ((k, q) ∷ entries) p (h, hs) = elim (Bool-cases (k =ₛ key)) [
      | inl same ↦ rw same (p, hs)
      | inr other ↦ rw other (h, set_resolved-Holds key path entries p hs)
    ]

    resolve_all-Holds :
        (rel : String) (entries : List (String × String)) (roots : List String)
        {out : List (String × String)}
        → Holds entries
        → All
            (λ root. (path : String) → resolve_under_root os lib root rel ≡ ok path → P path)
            roots
        → resolve_all os lib rel entries roots ≡ ok out
        → Holds out
    unfolding resolve_all
    resolve_all-Holds rel entries [] {out = out} hs _ e =
        let same : entries ≡ out = cc in rw (sym same) hs
    resolve_all-Holds rel entries (root ∷ roots) hs (k, ks) e =
        elim (Result-cases (resolve_under_root os lib root rel)) [
          | inl (path, found) ↦
              resolve_all-Holds rel
                (set_resolved os lib (norm os lib (os.abspath path)) path entries) roots
                (set_resolved-Holds _ path entries (k path found) hs) ks (rw found at e)
          | inr (_, failed) ↦ let no = rw failed at e in cc
        ]

    only_path-Holds :
        (entries : List (String × String)) (path : String)
        → Holds entries
        → only_path os lib entries ≡ ok path
        → P path
    unfolding only_path
    only_path-Holds [] path hs e = cc
    only_path-Holds ((k, q) ∷ []) path (h, _) e = let same : q ≡ path = cc in rw (sym same) h
    only_path-Holds (x ∷ y ∷ entries) path hs e = cc

  -- The roots that an id names, by their signatures.
  abbrev pub IsNamed : RidKind → String → List String → String → Type 0
  IsNamed kind signature roots root =
      (mem_text root roots ≡ true) × ((expected_signature os lib kind root =ₛ signature) ≡ true)

  matching_roots-IsNamed :
      (kind : RidKind) (signature : String) (roots : List String)
      → All (IsNamed kind signature roots) (matching_roots os lib kind signature roots)
  unfolding matching_roots
  matching_roots-IsNamed kind signature [] = tt
  matching_roots-IsNamed kind signature (root ∷ roots) =
      let later =
        All-map (IsNamed kind signature roots) (IsNamed kind signature (root ∷ roots)) _
          (λ r (there, named). (rw there (or_true (r =ₛ root)), named))
          (matching_roots-IsNamed kind signature roots) in
      elim (Bool-cases (expected_signature os lib kind root =ₛ signature)) [
        | inl named ↦ rw named ((first root roots, named), later)
        | inr other ↦ rw other later
      ]

  -- Where each of the roots is named, so is the root of the path.
  matches-IsUnder :
      (kind : RidKind) (signature rel path : String) (roots matches : List String)
      → All (IsNamed kind signature roots) matches
      → resolve_matches os lib rel matches ≡ ok path
      → (root : String) × IsNamed kind signature roots root × IsUnder root path
  unfolding resolve_matches
  matches-IsUnder kind signature rel path roots [] named h = cc
  matches-IsUnder kind signature rel path roots (m ∷ ms) named h =
      let From : String → Type 0 =
        λ p. (root : String) × IsNamed kind signature roots root × IsUnder root p in
      let each =
        All-map (IsNamed kind signature roots)
          (λ r. (p : String) → resolve_under_root os lib r rel ≡ ok p → From p) (m ∷ ms)
          (λ r n p e. (r, n, resolve_under_root-IsUnder r rel p e)) named in
      elim (Result-cases (resolve_all os lib rel [] (m ∷ ms))) [
        | inr (e, failed) ↦ let no = rw failed at h in cc
        | inl (entries, found) ↦
            only_path-Holds From entries path (resolve_all-Holds From rel [] (m ∷ ms) tt each found)
              (rw found at h)
      ]

  resolve_matches-IsUnder :
      (kind : RidKind) (signature rel path : String) (roots : List String)
      → resolve_matches os lib rel (matching_roots os lib kind signature roots) ≡ ok path
      → (root : String) × IsNamed kind signature roots root × IsUnder root path
  resolve_matches-IsUnder kind signature rel path roots h =
      matches-IsUnder kind signature rel path roots _ (matching_roots-IsNamed kind signature roots)
        h

  -- A path that `rid_to_path` returns is, both made absolute and normal, one of the allowed roots,
  -- or that root without its final separators, then a separator and more; and the root has the
  -- signature that the id carries.
  pub rid_to_path-IsUnder :
      (rid path : String) (roots : List String)
      → rid_to_path os lib rid roots ≡ ok path
      → (parsed : Rid) × (root : String) × (parse_rid rid ≡ ok parsed)
        × IsNamed parsed.kind parsed.signature roots root
        × IsUnder root path
  unfolding rid_to_path
  rid_to_path-IsUnder rid path roots h = elim (Result-cases (parse_rid rid)) [
    | inr (e, refused) ↦ let no = rw refused at h in cc
    | inl (parsed, p) ↦ elim (Result-cases (b64d os lib parsed.payload)) [
      | inr (e, refused) ↦ let no = rw (p, refused) at h in cc
      | inl (rel, d) ↦
          let (root, named, under) =
            resolve_matches-IsUnder parsed.kind parsed.signature rel path roots (rw (p, d) at h) in
          (parsed, root, p, named, under)
    ]
  ]
