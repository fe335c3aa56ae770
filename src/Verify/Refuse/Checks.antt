-- ===== src/Verify/Refuse/Checks.antt =====
-- src/verify.rs: what each check of `verify_incoming` alone decides.
use infernal_client_rs.Common.{
  ◌≡◌, ◌↔◌, ◌⊎◌, sym, Bool, true, false, not, ◌||◌, list_eq, list_eq_iff, arith, true_of_not,
}
use infernal_client_rs.Common.Int.{ℤ, IsI64}
use infernal_client_rs.Common.Text.{Bytes, Str, codes}
use infernal_client_rs.Error.{
  fails_rules, ok, err, ClientError, FailsWith, invalid_request_part, invalid_public_key,
  invalid_signature,
}
use infernal_client_rs.Deps.{Deps, UuidLaws}
use infernal_client_rs.Credential
use infernal_client_rs.Credential.{ClientPublicKey}
use infernal_client_rs.Wire.{content_digest}
use infernal_client_rs.Verify.{IncomingRequest, SignatureMetadata, validate_signature_time}
use infernal_client_rs.Verify.Input.{IsSignatureInput, input_times}
use infernal_client_rs.Verify.Timestamp.{validate_signature_time-ok_iff}
use infernal_client_rs.Verify.Refuse.{IsFresh, IsSigner, HasDigest}

-- The one error of the check of times
pub validate_signature_time-FailsWith :
    (created expires now : ℤ)
    → FailsWith
        (invalid_request_part (codes "freshness"))
        (validate_signature_time created expires now)
unfolding validate_signature_time
validate_signature_time-FailsWith created expires now = search fails_rules

-- A test that refuses where a predicate fails
pub true→not : (b : Bool) {P : Type 0} → ((b ≡ false) ↔ P) → b ≡ true → ¬ P
true→not b iff h p = cc (iff.1 p)

pub not→true : (b : Bool) {P : Type 0} → ((b ≡ false) ↔ P) → ¬ P → b ≡ true
not→true b iff n = true_of_not b iff.0 n

module _ ⦃d : Deps⦄ where
  open d use {uuid_eq, key_from_bytes, verify_strict}

  pub IsSigner-iff :
      UuidLaws
      → (request : IncomingRequest) (key : ClientPublicKey)
      → ((not (uuid_eq request.service_id key.service_id)
            || not (uuid_eq request.instance_id key.instance_id))
          ≡ false)
        ↔ IsSigner request key
  IsSigner-iff laws request key =
      let (s0, s1) = laws.uuid_eq_iff request.service_id key.service_id in
      let (i0, i1) = laws.uuid_eq_iff request.instance_id key.instance_id in
      (λ h. (s0 (ground arith), i0 (ground arith)), λ (hs, hi). rw (s1 hs, i1 hi))

  pub key_iff :
      UuidLaws
      → (request : IncomingRequest) (key : ClientPublicKey) (m : SignatureMetadata)
      → (not (uuid_eq m.key_id key.key_id) ≡ false) ↔ (m.key_id ≡ key.key_id)
  key_iff laws request key m =
      let (k0, k1) = laws.uuid_eq_iff m.key_id key.key_id in
      (λ h. k0 (ground arith), λ h. rw (k1 h))

  pub digest_iff :
      (request : IncomingRequest)
      → (not (list_eq (content_digest request.parts.body) request.content_digest) ≡ false)
        ↔ HasDigest request
  digest_iff request =
      let (d0, d1) = list_eq_iff (content_digest request.parts.body) request.content_digest in
      (λ h. sym (d0 (ground arith)), λ h. rw (d1 (sym h)))

  pub IsFresh-iff :
      (value : Str) (m : SignatureMetadata) (now : ℤ)
      → IsSignatureInput value m
      → IsI64 now
      → (validate_signature_time m.created m.expires now ≡ ok tt) ↔ IsFresh m.created m.expires now
  IsFresh-iff value m now w hn =
      let (hc, he) = input_times value m w in
      validate_signature_time-ok_iff m.created m.expires now hc he hn

  -- The error of a signature that does not verify
  pub verify-eq-err :
      (key message signature : Bytes) {e : ClientError}
      → Credential.verify key message signature ≡ err e
      → ((key_from_bytes key ≡ false) × (e ≡ invalid_public_key))
        ⊎ ((key_from_bytes key ≡ true)
            × (verify_strict key message signature ≡ false)
            × (e ≡ invalid_signature))
  unfolding Credential.verify
  verify-eq-err key message signature h = ground arith
