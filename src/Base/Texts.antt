-- ===== src/Base/Texts.antt =====
-- The text methods of Python that the program calls: `strip`, `split`, `lower` and `replace` of one
-- character. `strip` takes the ASCII blanks off, `split` cuts at them, and `lower` changes the ASCII capitals.
use Prim.Native.Nat.{ℕ, zero, suc, ◌-◌, ◌/◌, ◌%◌, Ordering}
use Prim.Native.Char.{Char, code}
use Prim.Native.String.{String, compare}
use mathlib.Core.Bool.{Bool, true, false, not, ◌&&◌, ◌||◌}
use mathlib.Core.List.{List, [], ◌∷◌}
use text.Mathlib.Text.{◌==◌ as str_eq, char_at?}
use native.Mathlib.Omega.{arith}
use mathlib.Core.Path.{◌≡◌, refl, subst}
use mathlib.Core.Logic.{inl, inr}
use mathlib.Core.Option.{Option, none, some}
use tgc_bus_core.Base.Lists.{All}
use tgc_bus_core.Base.Tests.{leb, ◌==◌, if◌then◌else◌, get_or, Bool-cases, split_and}
pub use text.Mathlib.TextEquality.{eq_iff}

-- `s == t` on texts.
infix 50 ◌=ₛ◌
abbrev pub ◌=ₛ◌ : String → String → Bool
s =ₛ t = str_eq s t

-- `s in {a, b, …}`
abbrev pub mem_text : String → List String → Bool
mem_text s [] = false
mem_text s (t ∷ ts) = str_eq s t || mem_text s ts

is_blank : Char → Bool
is_blank c = (leb 9 (code c) && leb (code c) 13) || code c == 32

lower_char : Char → Char
lower_char c =
    if leb 65 (code c) && leb (code c) 90
    then get_or (char_at? "abcdefghijklmnopqrstuvwxyz" (code c - 65)) c
    else c

unfoldable pub lower : String → String
unfolding lower_char
lower String.[] = ""
lower (String.◌∷◌ c s) = String.◌∷◌ (lower_char c) (lower s)

strip_left : String → String
unfolding is_blank
strip_left String.[] = ""
strip_left (String.◌∷◌ c s) = if is_blank c then strip_left s else String.◌∷◌ c s

strip_right : String → String
unfolding is_blank
strip_right String.[] = ""
strip_right (String.◌∷◌ c s) =
    let rest = strip_right s in if is_blank c && str_eq rest "" then "" else String.◌∷◌ c rest

unfoldable pub strip : String → String
unfolding strip_left strip_right
strip s = strip_right (strip_left s)

-- `len(s)`
unfoldable pub text_length : String → ℕ
text_length String.[] = 0
text_length (String.◌∷◌ c s) = suc (text_length s)

unfoldable pub all_chars : (Char → Bool) → String → Bool
all_chars p String.[] = true
all_chars p (String.◌∷◌ c s) = p c && all_chars p s

-- The part of a split that a character is in.
abbrev pub onto : Char → List String → List String
onto c [] = String.◌∷◌ c "" ∷ []
onto c (part ∷ parts) = String.◌∷◌ c part ∷ parts

-- s.split(…), for the characters that pass the test.
unfoldable pub split_on : (Char → Bool) → String → List String
split_on p String.[] = "" ∷ []
split_on p (String.◌∷◌ c s) = let rest = split_on p s in if p c then "" ∷ rest else onto c rest

drop_empty : List String → List String
drop_empty [] = []
drop_empty (part ∷ parts) =
    let rest = drop_empty parts in if str_eq part "" then rest else part ∷ rest

-- s.split()
unfoldable pub words : String → List String
unfolding is_blank drop_empty
words s = drop_empty (split_on is_blank s)

-- `s.replace(from, to)` for one character each.
unfoldable pub replace_char : Char → Char → String → String
replace_char from to String.[] = ""
replace_char from to (String.◌∷◌ c s) =
    String.◌∷◌ (if code c == code from then to else c) (replace_char from to s)

-- A dict with text keys: `d.get(k)`.
unfoldable pub lookup {ℓ} : {V : Type ℓ} → String → List (String × V) → Option V
lookup k [] = none
lookup k ((j, v) ∷ d) = if str_eq j k then some v else lookup k d

-- What holds of every value of a dict holds of what is looked up.
pub lookup-All {ℓ κ} :
    {V : Type ℓ} (P : V → Type κ) (k : String) (d : List (String × V)) (v : V)
    → All (λ e. P e.1) d
    → lookup k d ≡ some v
    → P v
unfolding lookup
lookup-All P k [] v h e = cc
lookup-All P k ((j, w) ∷ d) v (p, ps) e = elim (Bool-cases (str_eq j k)) [
  | inl here ↦ (let e' : some w ≡ some v = rw here at e in let same : w ≡ v = cc in subst P same p)
  | inr later ↦ lookup-All P k d v ps (rw later at e)
]

digits_text : ℕ → ℕ → String → String
digits_text zero n acc = acc
digits_text (suc fuel) n acc =
    let longer = get_or (char_at? "0123456789" (n % 10)) "0" in
    if leb n 9 then String.◌∷◌ longer acc else digits_text fuel (n / 10) (String.◌∷◌ longer acc)

-- `str(n)`; n + 1 rounds are enough for its digits.
unfoldable pub str : ℕ → String
unfolding digits_text
str n = digits_text (suc n) n ""

-- The concatenation of texts.
unfoldable pub join : String → String → String
join String.[] t = t
join (String.◌∷◌ c s) t = String.◌∷◌ c (join s t)

-- " ".join(parts)
unfoldable pub join_words : List String → String
join_words [] = ""
join_words (part ∷ []) = part
join_words (part ∷ next ∷ parts) = join part (String.◌∷◌ " " (join_words (next ∷ parts)))

-- `s < t`
unfoldable pub text_before : String → String → Bool
text_before s t = elim (compare s t) [ Ordering.lt ↦ true | _ ↦ false ]

pub cons_not_empty : (c : Char) (s : String) → str_eq (String.◌∷◌ c s) "" ≡ false
cons_not_empty c s = elim (Bool-cases (str_eq (String.◌∷◌ c s) "")) [
  | inl same ↦ let e : String.◌∷◌ c s ≡ "" = (eq_iff (String.◌∷◌ c s) "").0 same in cc
  | inr other ↦ other
]

-- Splitting at the first character that passes the test.
pub split_on-join :
    (p : Char → Bool) (s : String) (c : Char) (t : String)
    → all_chars (λ c. not (p c)) s ≡ true
    → p c ≡ true
    → split_on p (join s (String.◌∷◌ c t)) ≡ s ∷ split_on p t
unfolding split_on all_chars join
split_on-join p String.[] c t h e = rw e refl
split_on-join p (String.◌∷◌ d s) c t h e =
    let (here, rest) = split_and (not (p d)) (all_chars (λ c. not (p c)) s) h in
    let no : p d ≡ false = ground arith in rw (no, split_on-join p s c t rest e) refl

pub split_on-whole :
    (p : Char → Bool) (s : String) → all_chars (λ c. not (p c)) s ≡ true → split_on p s ≡ s ∷ []
unfolding split_on all_chars
split_on-whole p String.[] h = refl
split_on-whole p (String.◌∷◌ c s) h =
    let (here, rest) = split_and (not (p c)) (all_chars (λ c. not (p c)) s) h in
    let no : p c ≡ false = ground arith in rw (no, split_on-whole p s rest) refl

pub all_chars-weaken :
    (p q : Char → Bool) (s : String)
    → ((c : Char) → p c ≡ true → q c ≡ true)
    → all_chars p s ≡ true
    → all_chars q s ≡ true
unfolding all_chars
all_chars-weaken p q String.[] f h = refl
all_chars-weaken p q (String.◌∷◌ c s) f h =
    let (here, rest) = split_and (p c) (all_chars p s) h in
    rw (f c here, all_chars-weaken p q s f rest) refl
