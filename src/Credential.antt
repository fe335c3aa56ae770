-- ===== src/Credential.antt =====
-- src/credential.rs: a process's public identity and its signing key. The accessors of
-- `ClientPublicKey` and `ClientCredential` are the fields.
use infernal_client_rs.Common.{ℕ, ◌≡◌, not, Option, none, some, length, ◌==◌, if◌then◌else◌, arith}
use infernal_client_rs.Common.Text.{Bytes, Str, codes}
use infernal_client_rs.Error.{Result, ok, ◌>>◌, refuse_if, invalid_public_key, invalid_signature}
use infernal_client_rs.Deps.{Deps}

unfoldable pub algorithm_name : Str
algorithm_name = codes "ed25519"

abbrev pub public_key_length : ℕ
public_key_length = 32

abbrev pub signature_length : ℕ
signature_length = 64

-- `try_into::<[u8; N]>()`: a byte array is a list of bytes, and its length is checked here.
unfoldable pub to_array : ℕ → Bytes → Option Bytes
to_array n b = if length b == n then some b else none

pub to_array_exact : (n : ℕ) (b : Bytes) → length b ≡ n → to_array n b ≡ some b
unfolding to_array
to_array_exact n b h = ground arith

pub to_array_sound :
    (n : ℕ) (b : Bytes) {a : Bytes} → to_array n b ≡ some a → (a ≡ b) × (length a ≡ n)
unfolding to_array
to_array_sound n b h = ground arith

module _ ⦃d : Deps⦄ where
  open d use {Uuid, sha256, SigningKey, verifying_key, sign_bytes, key_from_bytes, verify_strict}

  pub record ClientPublicKey : Type 0 where
    pub service_id : Uuid
    pub instance_id : Uuid
    pub key_id : Uuid
    pub public_key : Bytes

  unfoldable pub restore : Uuid → Uuid → Uuid → Bytes → Result ClientPublicKey
  restore service_id instance_id key_id public_key = do
    refuse_if (not (key_from_bytes public_key)) invalid_public_key
    ok (record {
      service_id = service_id;
      instance_id = instance_id;
      key_id = key_id;
      public_key = public_key;
    })

  unfoldable pub fingerprint : ClientPublicKey → Bytes
  fingerprint key = sha256 key.public_key

  pub record ClientCredential : Type 0 where
    pub public_key : ClientPublicKey
    pub signing_key : SigningKey

  -- The random values that `generate` draws (a key and two UUIDs) are its arguments.
  unfoldable pub generate : SigningKey → Uuid → Uuid → Uuid → ClientCredential
  generate signing_key instance_id key_id service_id = record {
    public_key = record {
      service_id = service_id;
      instance_id = instance_id;
      key_id = key_id;
      public_key = verifying_key signing_key;
    };
    signing_key = signing_key;
  }

  unfoldable pub sign : ClientCredential → Bytes → Bytes
  sign credential message = sign_bytes credential.signing_key message

  unfoldable pub verify : Bytes → Bytes → Bytes → Result (Unit {0})
  verify public_key message signature = do
    refuse_if (not (key_from_bytes public_key)) invalid_public_key
    refuse_if (not (verify_strict public_key message signature)) invalid_signature
    ok tt
