-- ===== src/Reader/Texts.antt =====
-- Texts as lists of characters, for core/reader/ids.py: the methods of Python that it calls, and
-- its two classes of characters.
use tgc_bus_core.Base.{
  all_chars, ℕ, zero, suc, String, Bool, true, false, not, ◌&&◌, ◌||◌, leb, ◌==◌, if◌then◌else◌,
}
use Prim.Native.Char.{Char, code}

-- Python's `not s`
abbrev pub is_empty : String → Bool
is_empty String.[] = true
is_empty (String.◌∷◌ c s) = false

-- s[:n]
unfoldable pub first_chars : ℕ → String → String
first_chars n String.[] = ""
first_chars n (String.◌∷◌ c s) = elim n [ zero ↦ "" | suc m ↦ String.◌∷◌ c (first_chars m s) ]

-- s.startswith(prefix)
unfoldable pub starts_with : String → String → Bool
starts_with String.[] s = true
starts_with (String.◌∷◌ c prefix) String.[] = false
starts_with (String.◌∷◌ c prefix) (String.◌∷◌ d s) = code c == code d && starts_with prefix s

-- s.rstrip(…), for the characters that pass the test.
unfoldable pub strip_end : (Char → Bool) → String → String
strip_end p String.[] = ""
strip_end p (String.◌∷◌ c s) =
    let rest = strip_end p s in if p c && is_empty rest then "" else String.◌∷◌ c rest

abbrev pub is_colon : Char → Bool
is_colon c = code c == 58

-- [0-9a-f]
unfoldable pub is_hex : Char → Bool
is_hex c = (leb 48 (code c) && leb (code c) 57) || (leb 97 (code c) && leb (code c) 102)

-- [A-Za-z0-9_-]
unfoldable pub is_b64 : Char → Bool
is_b64 c =
    (leb 65 (code c) && leb (code c) 90)
    || (leb 97 (code c) && leb (code c) 122)
    || (leb 48 (code c) && leb (code c) 57)
    || code c == 95
    || code c == 45

-- `fullmatch` of a class with `+`
unfoldable pub full_match : (Char → Bool) → String → Bool
full_match p s = not (is_empty s) && all_chars p s

abbrev pub is_padding : Char → Bool
is_padding c = code c == 61

-- "=" * n
unfoldable pub padding_of : ℕ → String
padding_of zero = ""
padding_of (suc n) = String.◌∷◌ "=" (padding_of n)
