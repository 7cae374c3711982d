-- ===== src/Passwords.antt =====
-- core/auth/passwords.py: passwords are kept as texts with the parameters, the salt and the digest
-- of scrypt. A sequence of bytes is a list of numbers.
pub mod Verifies
use tgc_bus_core.Base.{
  ℕ, String, Bool, true, false, not, ◌&&◌, ◌||◌, Option, none, some, List, [], ◌∷◌, ltb, ◌==◌, ◌=ₛ◌,
  if◌then◌else◌, strip, text_length, split_on, lookup, str, join, length,
}
use tgc_bus_core.Base.Int.{ℤ, pos, ltb_ℤ}
use Prim.Native.Char.{Char, code}
use tgc_bus_core.Effects.{value_error, Result, ok, err, of_option, ◌then_do◌}

-- Of `hashlib.scrypt`, after the encoding of the password, whose error is a ValueError; of `base64`
-- and `int`, which are none where they raise.
pub record Scrypt : Type 0 where
  -- the password, salt, n, r, p and dklen
  pub scrypt : String → List ℕ → ℤ → ℤ → ℤ → ℕ → Result (List ℕ)
  pub b64encode : List ℕ → String
  pub b64decode : String → Option (List ℕ)
  pub int : String → Option ℤ

-- SCRYPT_N, SCRYPT_R, SCRYPT_P and SCRYPT_DKLEN
abbrev pub scrypt_n : ℕ
scrypt_n = 16384

abbrev pub scrypt_r : ℕ
scrypt_r = 8

abbrev pub scrypt_p : ℕ
scrypt_p = 1

abbrev pub scrypt_dklen : ℕ
scrypt_dklen = 32

-- What `_parse_scrypt_hash` returns.
pub record ScryptHash : Type 0 where
  pub n : ℤ
  pub r : ℤ
  pub p : ℤ
  pub salt : List ℕ
  pub expected : List ℕ

unfoldable pub validate_password_policy : String → Result (Unit {0})
validate_password_policy password =
    if strip password =ₛ ""
    then err (value_error "password_required")
    else if ltb (text_length (strip password)) 8
    then err (value_error "password_too_short")
    else ok tt

abbrev pub is_dollar : Char → Bool
is_dollar c = code c == 36

abbrev pub onto_key : Char → Option (String × String) → Option (String × String)
onto_key c none = none
onto_key c (some (key, value)) = some (String.◌∷◌ c key, value)

-- part.split("=", 1), none where there is no "=".
unfoldable pub key_value : String → Option (String × String)
key_value String.[] = none
key_value (String.◌∷◌ c s) =
    let rest = key_value s in if code c == 61 then some ("", s) else onto_key c rest

-- The dict of the parts: a later entry stands before those that it replaces.
unfoldable pub read_values : List String → List (String × String) → Option (List (String × String))
read_values [] values = some values
read_values (part ∷ parts) values = elim (key_value part) [
  | none ↦ none
  | some entry ↦ read_values parts (entry ∷ values)
]

-- `not data`
abbrev pub no_bytes : List ℕ → Bool
no_bytes [] = true
no_bytes (b ∷ rest) = false

-- `hmac.compare_digest`
unfoldable pub compare_digest : List ℕ → List ℕ → Bool
compare_digest [] [] = true
compare_digest [] (b ∷ ys) = false
compare_digest (a ∷ xs) [] = false
compare_digest (a ∷ xs) (b ∷ ys) = a == b && compare_digest xs ys

abbrev pub missing : {A : Type 0} → Option A → Result A
missing o = of_option o (value_error "")

-- The range of what was read.
abbrev pub in_range : ScryptHash → Result ScryptHash
in_range h =
    if ltb_ℤ (pos 1) h.n
      && ltb_ℤ (pos 0) h.r
      && ltb_ℤ (pos 0) h.p
      && not (no_bytes h.salt)
      && not (no_bytes h.expected)
    then ok h
    else err (value_error "")

module _ (lib : Scrypt) where
  -- int(values[key])
  abbrev pub int_of : List (String × String) → String → Result ℤ
  int_of values key = missing (lookup key values) then_do λ text. missing (lib.int text)

  -- _b64decode(values[key])
  abbrev pub bytes_of : List (String × String) → String → Result (List ℕ)
  bytes_of values key = missing (lookup key values) then_do λ text. missing (lib.b64decode text)

  unfoldable pub hash_of_values : List (String × String) → Result ScryptHash
  hash_of_values values = int_of values "n" then_do λ n. int_of values "r" then_do λ r.
      int_of values "p" then_do λ p. bytes_of values "salt" then_do λ salt.
      bytes_of values "hash" then_do λ expected.
      in_range (record { n = n; r = r; p = p; salt = salt; expected = expected })

  unfoldable pub parse_parts : List String → Result ScryptHash
  parse_parts [] = err (value_error "")
  parse_parts (scheme ∷ parts) =
      if length parts == 5 && scheme =ₛ "scrypt-v1"
      then missing (read_values parts []) then_do hash_of_values
      else err (value_error "")

  -- `_parse_scrypt_hash`: an error is its None.
  unfoldable pub parse_scrypt_hash : String → Result ScryptHash
  parse_scrypt_hash encoded_hash = parse_parts (split_on is_dollar encoded_hash)

  abbrev pub is_digest : List ℕ → Result (List ℕ) → Bool
  is_digest expected (ok actual) = compare_digest actual expected
  is_digest expected (err e) = false

  abbrev pub passes : String → Result ScryptHash → Bool
  passes password (ok h) =
      is_digest h.expected (lib.scrypt password h.salt h.n h.r h.p (length h.expected))
  passes password (err e) = false

  unfoldable pub verify_password : String → String → Bool
  verify_password password encoded_hash = passes password (parse_scrypt_hash encoded_hash)

  unfoldable pub print_hash : List ℕ → List ℕ → String
  print_hash salt digest = join "scrypt-v1$n=" (
      join (str scrypt_n) (
        join "$r=" (
          join (str scrypt_r) (
            join "$p=" (
              join (str scrypt_p) (
                join "$salt="
                  (join (lib.b64encode salt) (join "$hash=" (lib.b64encode digest)))))))))

  -- `hash_password`, with the salt that `secrets.token_bytes` draws.
  unfoldable pub hash_password : List ℕ → String → Result String
  hash_password salt password = validate_password_policy password then_do λ _.
      lib.scrypt password salt (pos scrypt_n) (pos scrypt_r) (pos scrypt_p) scrypt_dklen
      then_do λ digest. ok (print_hash salt digest)
