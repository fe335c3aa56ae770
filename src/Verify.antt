-- ===== src/Verify.antt =====
-- src/verify.rs: an inbound request, and its verification against a public key. The accessors of
-- `IncomingRequest` and `VerifiedRequest` are the fields.
pub mod Timestamp
pub mod Input
pub mod PanicFree
pub mod Signature
pub mod Accept
pub mod Received
pub mod RoundTrip
pub mod Binding
pub mod Authentic
pub mod Refuse
pub mod Window
pub mod Texts
pub mod Search
pub mod Malformed
pub mod Tampered
pub mod Exchange
use infernal_client_rs.Common.{
  ℕ, ◌≡◌, ◌∷◌, [], ◌++◌, Bool, true, false, not, ◌||◌, Option, none, some, is_empty, all, list_eq,
  and_then,
}
use infernal_client_rs.Common.Int.{ℤ, pos, ltb_ℤ, saturating_add}
use infernal_client_rs.Common.Text.{
  Bytes, Str, codes, format, utf8, strip_prefix, strip_suffix, split_once, is_ascii_digit,
}
use infernal_client_rs.Common.Decimal.{parse_i64}
use infernal_client_rs.Error.{
  Result, ok, err, ◌>>=◌, ◌>>◌, refuse_if, ok_or, ClientError, invalid_request_part,
  invalid_signature,
}
use infernal_client_rs.Deps.{Deps}
use infernal_client_rs.Credential
use infernal_client_rs.Credential.{ClientPublicKey, signature_length, to_array}
use infernal_client_rs.Wire.{
  signature_label, covered_components, validate_signature_metadata, signature_base, content_digest,
}
use infernal_client_rs.Request.{RequestParts, target_uri}

-- `ClientError::InvalidRequestPart("signature_input")`
abbrev pub bad_signature_input : ClientError
bad_signature_input = invalid_request_part (codes "signature_input")

unfoldable pub parse_timestamp : Str → Result ℤ
parse_timestamp value = do
  refuse_if (is_empty value || not (all is_ascii_digit (utf8 value)))
      (invalid_request_part (codes "timestamp"))
  ok_or (parse_i64 value) (invalid_request_part (codes "timestamp"))

abbrev pub clock_skew_seconds : ℤ
clock_skew_seconds = pos 5

unfoldable pub validate_signature_time : ℤ → ℤ → ℤ → Result (Unit {0})
validate_signature_time created expires now =
    refuse_if
      (ltb_ℤ now (pos 0)
        || ltb_ℤ (saturating_add now clock_skew_seconds) created
        || ltb_ℤ (saturating_add expires clock_skew_seconds) now)
      (invalid_request_part (codes "freshness"))

module _ ⦃d : Deps⦄ where
  open d use {Uuid, uuid_eq, uuid_parse, standard_decode}

  pub record IncomingRequest : Type 0 where
    pub parts : RequestParts
    pub service_id : Uuid
    pub instance_id : Uuid
    pub content_digest : Str
    pub signature_input : Str
    pub signature : Str

  unfoldable pub from_wire : RequestParts → Str → Str → Str → Str → Str → Result IncomingRequest
  from_wire parts service_id instance_id content_digest signature_input signature = do
    service_id' ← ok_or (uuid_parse service_id) (invalid_request_part (codes "service_id"))
    instance_id' ← ok_or (uuid_parse instance_id) (invalid_request_part (codes "instance_id"))
    ok (record {
      parts = parts;
      service_id = service_id';
      instance_id = instance_id';
      content_digest = content_digest;
      signature_input = signature_input;
      signature = signature;
    })

  pub record VerifiedRequest : Type 0 where
    pub service_id : Uuid
    pub instance_id : Uuid
    pub key_id : Uuid
    pub request_id : Uuid
    pub created : ℤ
    pub expires : ℤ

  pub record SignatureMetadata : Type 0 where
    pub parameters : Str
    pub created : ℤ
    pub expires : ℤ
    pub key_id : Uuid

  unfoldable pub parse_signature_input : Str → Result SignatureMetadata
  parse_signature_input value = do
    parameters ← ok_or (strip_prefix value (signature_label ++ codes "=")) bad_signature_input
    remainder ←
        ok_or
          (and_then (strip_prefix parameters covered_components)
            λ v. strip_prefix v (codes ";created="))
          bad_signature_input
    (created, remainder) ← ok_or (split_once remainder (codes ";expires=")) bad_signature_input
    (expires, remainder) ← ok_or (split_once remainder (codes ";nonce=\"")) bad_signature_input
    (nonce, remainder) ← ok_or (split_once remainder (codes "\";keyid=\"")) bad_signature_input
    (key_id, algorithm) ← ok_or (split_once remainder (codes "\";alg=\"")) bad_signature_input
    refuse_if (not (list_eq algorithm (codes "ed25519\""))) bad_signature_input
    created ← parse_timestamp created
    expires ← parse_timestamp expires
    validate_signature_metadata created expires nonce
    key_id ← ok_or (uuid_parse key_id) bad_signature_input
    ok (record { parameters = parameters; created = created; expires = expires; key_id = key_id })

  unfoldable pub parse_signature : Str → Result Bytes
  parse_signature value = do
    encoded ←
        ok_or
          (and_then (strip_prefix value (signature_label ++ codes "=:")) λ v. strip_suffix v b':')
          (invalid_request_part (codes "signature"))
    bytes ← ok_or (standard_decode encoded) (invalid_request_part (codes "signature"))
    ok_or (to_array signature_length bytes) (invalid_request_part (codes "signature"))

  unfoldable pub verify_incoming : IncomingRequest → ClientPublicKey → ℤ → Result VerifiedRequest
  verify_incoming request public_key now = do
    refuse_if
        (not (uuid_eq request.service_id public_key.service_id)
          || not (uuid_eq request.instance_id public_key.instance_id))
        (invalid_request_part (codes "service_id"))
    metadata ← parse_signature_input request.signature_input
    refuse_if (not (uuid_eq metadata.key_id public_key.key_id))
        (invalid_request_part (codes "key_id"))
    validate_signature_time metadata.created metadata.expires now
    let expected_digest = content_digest request.parts.body
    refuse_if (not (list_eq expected_digest request.content_digest)) invalid_signature
    signature ← parse_signature request.signature
    let base =
        signature_base request.parts.method (target_uri request.parts) request.content_digest
          request.parts.content_type request.service_id request.instance_id request.parts.request_id
          metadata.parameters
    Credential.verify public_key.public_key (utf8 base) signature
    ok (record {
      service_id = request.service_id;
      instance_id = request.instance_id;
      key_id = metadata.key_id;
      request_id = request.parts.request_id;
      created = metadata.created;
      expires = metadata.expires;
    })
