-- ===== src/KernelIdentity.antt =====
-- src/kernel_identity.rs: the identity that a kernel process publishes. The JSON parser is an
-- argument; the accessors of `KernelIdentity` are the fields.
pub mod Published
use infernal_client_rs.Common.{ℕ, ◌≡◌, ◌↔◌, not, Option, list_eq, length}
use infernal_client_rs.Common.Text.{Bytes, Str, codes}
use infernal_client_rs.Error.{
  Result, ok, ◌>>=◌, ◌>>◌, refuse_if, ok_or, ok_or-eq-ok, ok_or->>=-eq-ok,
  malformed_kernel_identity,
}
use infernal_client_rs.Deps.{Deps}
use infernal_client_rs.Credential
use infernal_client_rs.Credential.{to_array, to_array_exact, to_array_sound, public_key_length}

pub record KernelIdentityResponse : Type 0 where
  pub algorithm : Str
  pub instance_id : Str
  pub key_id : Str
  pub public_key : Str
  pub fingerprint : Str

module _ ⦃d : Deps⦄ where
  open d use {Uuid, uuid_parse, url_safe_decode}

  pub record KernelIdentity : Type 0 where
    pub instance_id : Uuid
    pub key_id : Uuid
    pub public_key : Bytes
    pub fingerprint : Bytes

  unfoldable pub decode_fixed : ℕ → Str → Result Bytes
  decode_fixed n value = do
    decoded ← ok_or (url_safe_decode value) malformed_kernel_identity
    ok_or (to_array n decoded) malformed_kernel_identity

  -- `parse_json` is `serde_json::from_str` at the type of the response.
  unfoldable pub from_json : (Str → Option KernelIdentityResponse) → Str → Result KernelIdentity
  from_json parse_json body = do
    response ← ok_or (parse_json body) malformed_kernel_identity
    refuse_if (not (list_eq response.algorithm (codes "ed25519"))) malformed_kernel_identity
    instance_id ← ok_or (uuid_parse response.instance_id) malformed_kernel_identity
    key_id ← ok_or (uuid_parse response.key_id) malformed_kernel_identity
    public_key ← decode_fixed public_key_length response.public_key
    fingerprint ← decode_fixed 32 response.fingerprint
    ok (record {
      instance_id = instance_id;
      key_id = key_id;
      public_key = public_key;
      fingerprint = fingerprint;
    })

  unfoldable pub verify : KernelIdentity → Bytes → Bytes → Result (Unit {0})
  verify identity message signature = Credential.verify identity.public_key message signature

  -- The texts that decode to a given array
  pub decode_fixed-ok_iff :
      (n : ℕ) (value : Str) (b : Bytes)
      → (decode_fixed n value ≡ ok b) ↔ ((url_safe_decode value ≡ Option.some b) × (length b ≡ n))
  unfolding decode_fixed
  decode_fixed-ok_iff n value b = (
    λ h.
        let (decoded, hd, rest) = ok_or->>=-eq-ok _ _ _ h in
        let (same, len) = to_array_sound n decoded (ok_or-eq-ok _ _ rest) in (rw same hd, len),
    λ (hd, len). rw (hd, to_array_exact n b len),
  )
