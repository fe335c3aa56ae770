-- ===== src/Tests/Toy.antt =====
-- Concrete functions in place of the crates: three UUIDs, the base64 codec of `Base64`, a digest
-- that is a sum, and signatures that are a sum with the first byte of the key.
use infernal_client_rs.Common.{
  ℕ, ◌+◌, ◌%◌, ◌<◌, ◌≡◌, ◌↔◌, inl, inr, refl, sym, ap, ◌∙◌, Bool, true, false, [], ◌∷◌, Option,
  none, some, All, All-mono, length, replicate, list_eq, list_eq_iff, if◌then◌else◌, ◌==◌, arith,
}
use infernal_client_rs.Common.Text.{Bytes, Str, codes}
use infernal_client_rs.Deps.{
  Deps, UuidLaws, Base64Laws, Sha256Laws, Ed25519Laws, IsBytes, IsUuidChar, IsUuidInputChar,
  IsBase64Char, IsUrlSafeChar,
}
use infernal_client_rs.Tests.Base64

pub data ToyId : Type 0 where
  one two three : ToyId

unfoldable pub toy_eq : ToyId → ToyId → Bool
toy_eq one one = true
toy_eq two two = true
toy_eq three three = true
toy_eq _ _ = false

unfoldable pub toy_string : ToyId → Str
toy_string one = codes "11111111-1111-4111-8111-111111111111"
toy_string two = codes "22222222-2222-4222-8222-222222222222"
toy_string three = codes "33333333-3333-4333-8333-333333333333"

unfoldable pub toy_parse : Str → Option ToyId
toy_parse s =
    if list_eq s (toy_string one)
    then some one
    else if list_eq s (toy_string two)
    then some two
    else if list_eq s (toy_string three)
    then some three
    else none

unfoldable pub toy_bytes : ToyId → Bytes
toy_bytes one = replicate 16 0x11
toy_bytes two = replicate 16 0x22
toy_bytes three = replicate 16 0x33

unfoldable pub toy_sum : Bytes → ℕ
toy_sum [] = 0
toy_sum (b ∷ r) = (b + toy_sum r) % 256

unfoldable pub first : Bytes → ℕ
first [] = 0
first (b ∷ r) = b

unfoldable pub toy_sign : ℕ → Bytes → Bytes
unfolding toy_sum
toy_sign k m = ((k + toy_sum m) % 256) ∷ replicate 63 9

instance abbrev pub toy : Deps
toy = record {
  Uuid = ToyId;
  uuid_eq = toy_eq;
  uuid_to_string = toy_string;
  uuid_parse = toy_parse;
  uuid_as_bytes = toy_bytes;
  standard_encode = Base64.encode b'+' b'/';
  standard_decode = Base64.decode b'+' b'/';
  url_safe_encode = Base64.encode b'-' b'_';
  url_safe_decode = Base64.decode b'-' b'_';
  sha256 = λ b. toy_sum b ∷ replicate 31 0;
  SigningKey = ℕ;
  verifying_key = λ k. (k % 256) ∷ replicate 31 7;
  sign_bytes = λ k m. toy_sign (k % 256) m;
  key_from_bytes = λ b. length b == 32;
  verify_strict = λ key m s. list_eq s (toy_sign (first key) m);
}

toy_eq_iff : (u v : ToyId) → (toy_eq u v ≡ true) ↔ (u ≡ v)
unfolding toy_eq
toy_eq_iff one one = ground arith
toy_eq_iff one two = ground arith
toy_eq_iff one three = ground arith
toy_eq_iff two one = ground arith
toy_eq_iff two two = ground arith
toy_eq_iff two three = ground arith
toy_eq_iff three one = ground arith
toy_eq_iff three two = ground arith
toy_eq_iff three three = ground arith

toy_parse-string : (u : ToyId) → toy_parse (toy_string u) ≡ some u
unfolding toy_parse toy_string list_eq
toy_parse-string one = refl
toy_parse-string two = refl
toy_parse-string three = refl

toy_string_chars : (u : ToyId) → All IsUuidChar (toy_string u)
unfolding toy_string
toy_string_chars one = omega arith
toy_string_chars two = omega arith
toy_string_chars three = omega arith

-- Only printed ids parse.
toy_parse_sound : (s : Str) (u : ToyId) → toy_parse s ≡ some u → s ≡ toy_string u
unfolding toy_parse
toy_parse_sound s u h = ground (
  arith,
  list_eq_iff s (toy_string one),
  list_eq_iff s (toy_string two),
  list_eq_iff s (toy_string three),
)

toy_parse_chars : (s : Str) (u : ToyId) → toy_parse s ≡ some u → All IsUuidInputChar s
toy_parse_chars s u h =
    rw (toy_parse_sound s u h)
      (All-mono IsUuidChar IsUuidInputChar (λ c k. ground arith) _ (toy_string_chars u))

length-toy_bytes : (u : ToyId) → length (toy_bytes u) ≡ 16
unfolding toy_bytes
length-toy_bytes one = refl
length-toy_bytes two = refl
length-toy_bytes three = refl

-- The first byte tells the ids apart.
abbrev of_first : Bytes → ToyId
of_first b = if first b == 0x11 then one else if first b == 0x22 then two else three

of_first-toy_bytes : (u : ToyId) → of_first (toy_bytes u) ≡ u
unfolding toy_bytes first
of_first-toy_bytes one = refl
of_first-toy_bytes two = refl
of_first-toy_bytes three = refl

pub toy_uuid : UuidLaws
toy_uuid = record {
  uuid_eq_iff = toy_eq_iff;
  parse-to_string = toy_parse-string;
  to_string_chars = toy_string_chars;
  parse_chars = toy_parse_chars;
  length-as_bytes = length-toy_bytes;
  as_bytes_injective = λ u v e. sym (of_first-toy_bytes u) ∙ ap of_first e ∙ of_first-toy_bytes v;
}

pub toy_base64 : Base64Laws
toy_base64 = record {
  standard_round_trip =
      Base64.decode-encode b'+' b'/' (omega arith) (inl (omega arith)) (omega arith);
  standard_chars =
      λ b h. All-mono _ IsBase64Char (λ c k. ground arith) _ (Base64.encode-IsChar b'+' b'/' b h);
  url_safe_round_trip = Base64.decode-encode b'-' b'_' (omega arith) (inr refl) (omega arith);
  url_safe_chars =
      λ b h. All-mono _ IsUrlSafeChar (λ c k. ground arith) _ (Base64.encode-IsChar b'-' b'_' b h);
  length-url_safe = Base64.length-encode b'-' b'_';
}

toy_sum_byte : (b : Bytes) → toy_sum b < 256
unfolding toy_sum
toy_sum_byte [] = omega arith
toy_sum_byte (x ∷ b) = omega arith

pub toy_sha256 : Sha256Laws
toy_sha256 = record {
  length-sha256 = λ b. refl;
  sha256-IsBytes = λ b. (toy_sum_byte b, omega arith);
}

sign-IsBytes : (k : ℕ) (m : Bytes) → IsBytes (toy_sign k m)
unfolding toy_sign
sign-IsBytes k m = omega arith

length-toy_sign : (k : ℕ) (m : Bytes) → length (toy_sign k m) ≡ 64
unfolding toy_sign
length-toy_sign k m = refl

pub toy_ed25519 : Ed25519Laws
unfolding first
toy_ed25519 = record {
  length-verifying_key = λ k. refl;
  verifying_key-IsBytes = λ k. omega arith;
  from_bytes-verifying_key = λ k. refl;
  length-sign = λ k m. length-toy_sign (k % 256) m;
  sign-IsBytes = λ k m. sign-IsBytes (k % 256) m;
  verify-sign = λ k m. (list_eq_iff (toy_sign (k % 256) m) (toy_sign (k % 256) m)).1 refl;
}
