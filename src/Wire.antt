-- ===== src/Wire.antt =====
-- src/wire.rs: the wire format that signing and verification share.
pub mod Metadata
pub mod PanicFree
pub mod Layout
pub mod Values
use infernal_client_rs.Common.{
  ℕ, ◌≡◌, ◌++◌, ◌∷◌, [], Bool, true, false, not, ◌&&◌, ◌||◌, length, is_empty, all, list_eq, leb,
  ◌==◌,
}
use infernal_client_rs.Common.Int.{ℤ, pos, ltb_ℤ, leb_ℤ, sub_i64}
use infernal_client_rs.Common.Text.{Bytes, Str, codes, format, utf8, trim, is_ascii_alphanumeric}
use infernal_client_rs.Common.Decimal.{display_i64}
use infernal_client_rs.Error.{Result, ok, err, ◌>>=◌, ◌>>◌, refuse_if, invalid_request_part}
use infernal_client_rs.Deps.{Deps}

unfoldable pub signature_label : Str
signature_label = codes "sig1"

abbrev pub signature_validity_seconds : ℕ
signature_validity_seconds = 30

abbrev pub min_nonce_length : ℕ
min_nonce_length = 16

abbrev pub max_nonce_length : ℕ
max_nonce_length = 128

unfoldable pub covered_components : Str
covered_components =
    codes
      "(\"@method\" \"@target-uri\" \"content-digest\" \"content-type\" \"infernal-service-id\" \"infernal-instance-id\" \"infernal-request-id\")"

-- The test on each byte of a nonce
abbrev pub is_nonce_byte : ℕ → Bool
is_nonce_byte b = is_ascii_alphanumeric b || b == b'-' || b == b'_'

unfoldable pub validate_signature_metadata : ℤ → ℤ → Str → Result (Unit {0})
validate_signature_metadata created expires nonce = do
  refuse_if (ltb_ℤ created (pos 0)) (invalid_request_part (codes "created"))
  refuse_if
      (leb_ℤ expires created || ltb_ℤ (pos signature_validity_seconds) (sub_i64 expires created))
      (invalid_request_part (codes "expires"))
  refuse_if
      (not
          (leb min_nonce_length (length (utf8 nonce)) && leb (length (utf8 nonce)) max_nonce_length)
        || not (all is_nonce_byte (utf8 nonce)))
      (invalid_request_part (codes "nonce"))
  ok tt

unfoldable pub valid_header_value : Str → Bool
valid_header_value value =
    not (is_empty value)
    && list_eq (trim value) value
    && all (λ byte. leb 0x20 byte && leb byte 0x7e) (utf8 value)

unfoldable pub valid_uri_value : Str → Bool
valid_uri_value value =
    not (is_empty value) && all (λ byte. leb 0x21 byte && leb byte 0x7e) (utf8 value)

module _ ⦃d : Deps⦄ where
  open d use {Uuid, uuid_to_string, standard_encode, sha256}

  unfoldable pub signature_parameters : ℤ → ℤ → Str → Uuid → Str
  signature_parameters created expires nonce key_id = format (
      covered_components
      ∷ codes ";created="
      ∷ display_i64 created
      ∷ codes ";expires="
      ∷ display_i64 expires
      ∷ codes ";nonce=\""
      ∷ nonce
      ∷ codes "\";keyid=\""
      ∷ uuid_to_string key_id
      ∷ codes "\";alg=\"ed25519\""
      ∷ [])

  unfoldable pub signature_base : Str → Str → Str → Str → Uuid → Uuid → Uuid → Str → Str
  signature_base method target_uri digest content_type service_id instance_id request_id
        parameters =
      format (
        codes "\"@method\": "
        ∷ method
        ∷ codes "\n\"@target-uri\": "
        ∷ target_uri
        ∷ codes "\n\"content-digest\": "
        ∷ digest
        ∷ codes "\n\"content-type\": "
        ∷ content_type
        ∷ codes "\n\"infernal-service-id\": "
        ∷ uuid_to_string service_id
        ∷ codes "\n\"infernal-instance-id\": "
        ∷ uuid_to_string instance_id
        ∷ codes "\n\"infernal-request-id\": "
        ∷ uuid_to_string request_id
        ∷ codes "\n\"@signature-params\": "
        ∷ parameters
        ∷ [])

  unfoldable pub content_digest : Bytes → Str
  content_digest body = format (codes "sha-256=:" ∷ standard_encode (sha256 body) ∷ codes ":" ∷ [])

  unfoldable pub encode_signature : Bytes → Str
  encode_signature signature =
      format (signature_label ∷ codes "=:" ∷ standard_encode signature ∷ codes ":" ∷ [])
