-- ===== src/Deps.antt =====
-- The crates that this one calls, as an interface: uuid, base64, sha2, ed25519-dalek. Their code is
-- not in the repository, so the operations are parameters of every definition that calls them
-- (`Deps`), and what is documented of them are separate records of laws that a theorem asks for.
use infernal_client_rs.Common.{
  ℕ, ◌+◌, ◌*◌, ◌/◌, ◌<◌, ◌≤◌, ◌≡◌, ◌≢◌, ◌↔◌, ◌⊎◌, Bool, true, Option, some, length, All,
}
use infernal_client_rs.Common.Text.{Bytes, Str}

pub record Deps : Type 1 where
  -- uuid: `Uuid`, `==`, `to_string`, `parse`, `as_bytes`
  pub Uuid : Type 0
  pub uuid_eq : Uuid → Uuid → Bool
  pub uuid_to_string : Uuid → Str
  pub uuid_parse : Str → Option Uuid
  pub uuid_as_bytes : Uuid → Bytes
  -- base64: the engines `STANDARD` and `URL_SAFE_NO_PAD`
  pub standard_encode : Bytes → Str
  pub standard_decode : Str → Option Bytes
  pub url_safe_encode : Bytes → Str
  pub url_safe_decode : Str → Option Bytes
  -- sha2: `Sha256::digest`
  pub sha256 : Bytes → Bytes
  -- ed25519-dalek: `SigningKey`, `verifying_key().to_bytes()`, `sign(..).to_bytes()`,
  -- whether `VerifyingKey::from_bytes` accepts a key, and whether `verify_strict` accepts
  pub SigningKey : Type 0
  pub verifying_key : SigningKey → Bytes
  pub sign_bytes : SigningKey → Bytes → Bytes
  pub key_from_bytes : Bytes → Bool
  pub verify_strict : Bytes → Bytes → Bytes → Bool

abbrev pub IsByte : ℕ → Type 0
IsByte b = b < 256

abbrev pub IsBytes : Bytes → Type 0
IsBytes = All IsByte

-- The characters of a hyphenated UUID: lower-case hexadecimal digits and `-`.
abbrev pub IsUuidChar : ℕ → Type 0
IsUuidChar c = (c ≡ b'-') ⊎ (b'0' ≤ c) × (c ≤ b'9') ⊎ (b'a' ≤ c) × (c ≤ b'f')

-- `parse` also reads upper-case digits, braces and the prefix `urn:uuid:`: all of it printable, and
-- no quotation mark.
abbrev pub IsUuidInputChar : ℕ → Type 0
IsUuidInputChar c = ((0x20 ≤ c) × (c ≤ 0x7e)) × (c ≢ b'"')

-- The standard base64 alphabet and its padding.
abbrev pub IsBase64Char : ℕ → Type 0
IsBase64Char c =
    (c ≡ b'+')
    ⊎ (c ≡ b'/')
    ⊎ (c ≡ b'=')
    ⊎ (b'0' ≤ c) × (c ≤ b'9')
    ⊎ (b'A' ≤ c) × (c ≤ b'Z')
    ⊎ (b'a' ≤ c) × (c ≤ b'z')

-- The URL-safe base64 alphabet.
abbrev pub IsUrlSafeChar : ℕ → Type 0
IsUrlSafeChar c =
    (c ≡ b'-')
    ⊎ (c ≡ b'_')
    ⊎ (b'0' ≤ c) × (c ≤ b'9')
    ⊎ (b'A' ≤ c) × (c ≤ b'Z')
    ⊎ (b'a' ≤ c) × (c ≤ b'z')

module _ ⦃d : Deps⦄ where
  open d use {
    Uuid, uuid_eq, uuid_to_string, uuid_parse, uuid_as_bytes, standard_encode, standard_decode,
    url_safe_encode, url_safe_decode, sha256, SigningKey, verifying_key, sign_bytes, key_from_bytes,
    verify_strict,
  }

  -- `==` is equality; a printed UUID is hyphenated and parses to itself; every form that
  -- `parse` accepts is printable ASCII with no quotation mark; the bytes are 16 and tell UUIDs apart.
  pub record UuidLaws : Type 0 where
    pub uuid_eq_iff : (u v : Uuid) → (uuid_eq u v ≡ true) ↔ (u ≡ v)
    pub parse-to_string : (u : Uuid) → uuid_parse (uuid_to_string u) ≡ some u
    pub to_string_chars : (u : Uuid) → All IsUuidChar (uuid_to_string u)
    pub parse_chars : (s : Str) (u : Uuid) → uuid_parse s ≡ some u → All IsUuidInputChar s
    pub length-as_bytes : (u : Uuid) → length (uuid_as_bytes u) ≡ 16
    pub as_bytes_injective : (u v : Uuid) → uuid_as_bytes u ≡ uuid_as_bytes v → u ≡ v

  -- Decoding undoes encoding, and an encoding is over the engine's alphabet. Without padding, `n`
  -- bytes take 4n/3 characters, rounded up.
  pub record Base64Laws : Type 0 where
    pub standard_round_trip : (b : Bytes) → IsBytes b → standard_decode (standard_encode b) ≡ some b
    pub standard_chars : (b : Bytes) → IsBytes b → All IsBase64Char (standard_encode b)
    pub url_safe_round_trip : (b : Bytes) → IsBytes b → url_safe_decode (url_safe_encode b) ≡ some b
    pub url_safe_chars : (b : Bytes) → IsBytes b → All IsUrlSafeChar (url_safe_encode b)
    pub length-url_safe : (b : Bytes) → length (url_safe_encode b) ≡ (length b * 4 + 2) / 3

  -- A digest is 32 bytes.
  pub record Sha256Laws : Type 0 where
    pub length-sha256 : (b : Bytes) → length (sha256 b) ≡ 32
    pub sha256-IsBytes : (b : Bytes) → IsBytes (sha256 b)

  -- A public key is 32 bytes that `from_bytes` accepts, a signature is 64 bytes, and a key's own
  -- signature over a message passes `verify_strict` under its public key.
  pub record Ed25519Laws : Type 0 where
    pub length-verifying_key : (k : SigningKey) → length (verifying_key k) ≡ 32
    pub verifying_key-IsBytes : (k : SigningKey) → IsBytes (verifying_key k)
    pub from_bytes-verifying_key : (k : SigningKey) → key_from_bytes (verifying_key k) ≡ true
    pub length-sign : (k : SigningKey) (m : Bytes) → length (sign_bytes k m) ≡ 64
    pub sign-IsBytes : (k : SigningKey) (m : Bytes) → IsBytes (sign_bytes k m)
    pub verify-sign :
        (k : SigningKey) (m : Bytes) → verify_strict (verifying_key k) m (sign_bytes k m) ≡ true
