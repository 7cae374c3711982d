-- ===== src/Passwords/Verifies.antt =====
-- core/auth/passwords.py: a password passes for the hash that is kept of it.
use tgc_bus_core.Base.{
  ℕ, ◌≡◌, ◌≢◌, ◌⊎◌, inl, inr, Bool-cases, refl, ap, arith, String, true, false, not, some, List, [],
  ◌∷◌, ◌==◌, all_chars, split_on, split_on-join, split_on-whole, split_and, ==→eq, join, str,
  lookup, length,
}
use tgc_bus_core.Base.Int.{pos}
use tgc_bus_core.Effects.{Result, ok, err, then_do-ok}
use tgc_bus_core.Passwords.{
  Scrypt, ScryptHash, scrypt_n, scrypt_r, scrypt_p, scrypt_dklen, validate_password_policy,
  is_dollar, is_digest, key_value, read_values, no_bytes, compare_digest, hash_of_values,
  parse_parts, parse_scrypt_hash, verify_password, print_hash, hash_password,
}

compare_digest-≡ : (xs ys : List ℕ) → compare_digest xs ys ≡ true → xs ≡ ys
unfolding compare_digest
compare_digest-≡ [] [] h = refl
compare_digest-≡ [] (y ∷ ys) h = cc
compare_digest-≡ (x ∷ xs) [] h = cc
compare_digest-≡ (x ∷ xs) (y ∷ ys) h =
    let (here, rest) = split_and (x == y) (compare_digest xs ys) h in
    let e : x ≡ y = ==→eq x y here in let es : xs ≡ ys = compare_digest-≡ xs ys rest in cc

compare_digest_self : (xs : List ℕ) → compare_digest xs xs ≡ true
unfolding compare_digest
compare_digest_self [] = refl
compare_digest_self (x ∷ xs) =
    let e : (x == x) ≡ true = ground arith in rw (e, compare_digest_self xs) refl

-- What the libraries promise: the numbers in a hash and bytes are read back, base64 has no "$", and a digest has
-- the length that was asked for.
pub record IsFaithful (lib : Scrypt) : Type 0 where
  pub int_n : lib.int (str scrypt_n) ≡ some (pos scrypt_n)
  pub int_r : lib.int (str scrypt_r) ≡ some (pos scrypt_r)
  pub int_p : lib.int (str scrypt_p) ≡ some (pos scrypt_p)
  pub b64_back : (bytes : List ℕ) → lib.b64decode (lib.b64encode bytes) ≡ some bytes
  pub b64_plain : (bytes : List ℕ) → all_chars (λ c. not (is_dollar c)) (lib.b64encode bytes) ≡ true
  pub scrypt_length :
      (password : String) (salt : List ℕ) (dklen : ℕ) (digest : List ℕ)
      → lib.scrypt password salt (pos scrypt_n) (pos scrypt_r) (pos scrypt_p) dklen ≡ ok digest
      → length digest ≡ dklen

-- The digest of a password with the salt.
abbrev pub digest_of : Scrypt → List ℕ → String → Result (List ℕ)
digest_of lib salt password =
    lib.scrypt password salt (pos scrypt_n) (pos scrypt_r) (pos scrypt_p) scrypt_dklen

module _ (lib : Scrypt) (faithful : IsFaithful lib) (salt : List ℕ) where
  abbrev kept : List ℕ → ScryptHash
  kept digest = record {
    n = pos scrypt_n;
    r = pos scrypt_r;
    p = pos scrypt_p;
    salt = salt;
    expected = digest;
  }

  split-print_hash :
      (digest : List ℕ)
      → split_on is_dollar (print_hash lib salt digest)
        ≡ "scrypt-v1"
          ∷ "n=16384"
          ∷ "r=8"
          ∷ "p=1"
          ∷ join "salt=" (lib.b64encode salt)
          ∷ join "hash=" (lib.b64encode digest)
          ∷ []
  unfolding split_on print_hash join str
  split-print_hash digest =
      rw
        (
          split_on-join is_dollar (lib.b64encode salt) "$" (join "hash=" (lib.b64encode digest))
              (faithful.b64_plain salt) refl,
          split_on-whole is_dollar (lib.b64encode digest) (faithful.b64_plain digest),
        )
        refl

  parse-print_hash :
      (digest : List ℕ)
      → no_bytes salt ≡ false
      → no_bytes digest ≡ false
      → parse_scrypt_hash lib (print_hash lib salt digest) ≡ ok (kept digest)
  unfolding parse_scrypt_hash parse_parts read_values key_value hash_of_values join str lookup
  parse-print_hash digest salted long =
      rw
        (
          split-print_hash digest,
          faithful.int_n,
          faithful.int_r,
          faithful.int_p,
          faithful.b64_back salt,
          faithful.b64_back digest,
          salted,
          long,
        )
        refl

  is_digest-≡ :
      (r : Result (List ℕ)) (digest : List ℕ) → is_digest lib digest r ≡ true → r ≡ ok digest
  is_digest-≡ (ok actual) digest h = ap ok (compare_digest-≡ actual digest h)
  is_digest-≡ (err e) digest h = cc

  is_digest-≢ :
      (r : Result (List ℕ)) (digest : List ℕ) → is_digest lib digest r ≡ false → r ≢ ok digest
  is_digest-≢ r digest h e =
      let self = compare_digest_self digest in
      let other : compare_digest digest digest ≡ false = rw e at h in cc

  long_digest : (digest : List ℕ) → length digest ≡ scrypt_dklen → no_bytes digest ≡ false
  long_digest [] h = ground arith
  long_digest (b ∷ bs) h = refl

-- Where the hash of a password is kept, with a salt that is not empty, the password passes for it;
-- any other text passes where scrypt gives it the same digest with that salt, and is refused where
-- it does not.
pub verify_password-hash :
    (lib : Scrypt) (salt : List ℕ) (password other encoded_hash : String)
    → IsFaithful lib
    → no_bytes salt ≡ false
    → hash_password lib salt password ≡ ok encoded_hash
    → (verify_password lib password encoded_hash ≡ true)
      × (((digest_of lib salt other ≡ digest_of lib salt password)
            × (verify_password lib other encoded_hash ≡ true))
          ⊎ ((digest_of lib salt other ≢ digest_of lib salt password)
              × (verify_password lib other encoded_hash ≡ false)))
unfolding hash_password verify_password
verify_password-hash lib salt password other encoded_hash faithful salted h =
    let (_, valid, h2) = then_do-ok (validate_password_policy password) _ h in
    let (digest, drawn, h3) = then_do-ok (digest_of lib salt password) _ h2 in
    let same : print_hash lib salt digest ≡ encoded_hash = cc in
    let len = faithful.scrypt_length password salt scrypt_dklen digest drawn in
    let parsed =
      parse-print_hash lib faithful salt digest salted (long_digest lib faithful salt digest len) in
    rw (← same, parsed, len, drawn)
      (
        compare_digest_self digest,
        elim (Bool-cases (is_digest lib digest (digest_of lib salt other))) [
          | inl passed ↦ inl (is_digest-≡ lib faithful salt _ digest passed, passed)
          | inr refused ↦ inr (is_digest-≢ lib faithful salt _ digest refused, refused)
        ],
      )
