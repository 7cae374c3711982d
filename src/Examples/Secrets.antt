-- ===== src/Examples/Secrets.antt =====
-- Passwords under simple stand-ins: base64 writes a byte as a run of "a" that "b" ends, and scrypt
-- repeats the length of the password.
use tgc_bus_core.Base.{
  ℕ, zero, suc, ◌≡◌, ◌≢◌, ◌⊎◌, refl, ap, String, true, false, not, none, some, List, [], ◌∷◌, ◌==◌,
  ◌=ₛ◌, if◌then◌else◌, strip, str, text_length, all_chars, length,
}
use tgc_bus_core.Base.Int.{pos}
use Prim.Native.Char.{code}
use tgc_bus_core.Effects.{ok}
use tgc_bus_core.Passwords.{
  Scrypt, is_dollar, hash_password, verify_password, print_hash, validate_password_policy,
}
use tgc_bus_core.Passwords.Verifies.{IsFaithful, digest_of, verify_password-hash}

run_of : ℕ → String → String
run_of zero s = String.◌∷◌ "b" s
run_of (suc n) s = String.◌∷◌ "a" (run_of n s)

encode : List ℕ → String
unfolding run_of
encode [] = ""
encode (n ∷ bytes) = run_of n (encode bytes)

abbrev longer : List ℕ → List ℕ
longer [] = []
longer (n ∷ bytes) = suc n ∷ bytes

decode : String → List ℕ
decode String.[] = []
decode (String.◌∷◌ c s) = let rest = decode s in if code c == 97 then longer rest else 0 ∷ rest

decode-run_of : (n : ℕ) (s : String) → decode (run_of n s) ≡ n ∷ decode s
unfolding decode run_of
decode-run_of zero s = refl
decode-run_of (suc n) s = rw (decode-run_of n s) refl

decode-encode : (bytes : List ℕ) → decode (encode bytes) ≡ bytes
unfolding decode encode
decode-encode [] = refl
decode-encode (n ∷ bytes) = rw (decode-run_of n (encode bytes), decode-encode bytes) refl

run_of-plain :
    (n : ℕ) (s : String)
    → all_chars (λ c. not (is_dollar c)) s ≡ true
    → all_chars (λ c. not (is_dollar c)) (run_of n s) ≡ true
unfolding all_chars run_of
run_of-plain zero s h = h
run_of-plain (suc n) s h = run_of-plain n s h

encode-plain : (bytes : List ℕ) → all_chars (λ c. not (is_dollar c)) (encode bytes) ≡ true
unfolding all_chars encode
encode-plain [] = refl
encode-plain (n ∷ bytes) = run_of-plain n (encode bytes) (encode-plain bytes)

copies : ℕ → ℕ → List ℕ
copies zero n = []
copies (suc k) n = n ∷ copies k n

length-copies : (k n : ℕ) → length (copies k n) ≡ k
unfolding copies
length-copies zero n = refl
length-copies (suc k) n = ap suc (length-copies k n)

abbrev lib : Scrypt
lib = record {
  scrypt = λ password salt n r p dklen. ok (copies dklen (text_length password));
  b64encode = encode;
  b64decode = λ s. some (decode s);
  int = λ s.
      if s =ₛ "16384"
      then some (pos 16384)
      else if s =ₛ "8"
      then some (pos 8)
      else if s =ₛ "1"
      then some (pos 1)
      else none;
}

lib-IsFaithful : IsFaithful lib
unfolding str
lib-IsFaithful = record {
  int_n = refl;
  int_r = refl;
  int_p = refl;
  b64_back = λ bytes. ap some (decode-encode bytes);
  b64_plain = encode-plain;
  scrypt_length = λ password salt dklen digest h.
      let same : copies dklen (text_length password) ≡ digest = cc in
      rw (← same) (length-copies dklen (text_length password));
}

accepted : hash_password lib (7 ∷ []) "password" ≡ ok (print_hash lib (7 ∷ []) (copies 32 8))
unfolding hash_password validate_password_policy strip text_length
accepted = refl

verify_password-hash_example :
    (verify_password lib "password" (print_hash lib (7 ∷ []) (copies 32 8)) ≡ true)
    × (((digest_of lib (7 ∷ []) "secret" ≡ digest_of lib (7 ∷ []) "password")
          × (verify_password lib "secret" (print_hash lib (7 ∷ []) (copies 32 8)) ≡ true))
        ⊎ ((digest_of lib (7 ∷ []) "secret" ≢ digest_of lib (7 ∷ []) "password")
            × (verify_password lib "secret" (print_hash lib (7 ∷ []) (copies 32 8)) ≡ false)))
verify_password-hash_example =
    verify_password-hash lib (7 ∷ []) "password" "secret" _ lib-IsFaithful refl accepted
