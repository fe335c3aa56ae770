-- ===== src/Suite/Request.antt =====
-- src/request.rs: its tests. `fill` is what the random source answers.
mod Draws
use infernal_client_rs.Common.{
  ℕ, ◌≡◌, ◌≢◌, ◌∙◌, refl, sym, ap, Bool, true, false, not, ◌&&◌, leb, Option, some, [], ◌∷◌, ◌++◌,
  map, length, list_eq, list_eq_iff, all, any, false_of_not, arith,
}
use infernal_client_rs.Common.Int.{sub_i64, pos, ◌+ℤ◌}
use infernal_client_rs.Common.Text.{
  Bytes, codes, utf8, strip_prefix, utf8_char, starts_with, trim, is_whitespace,
}
use infernal_client_rs.Common.Decimal.{display_i64}
use infernal_client_rs.Error.{Result, ok, ◌>>=◌, invalid_request_part}
use infernal_client_rs.Deps.{Deps, UuidLaws, Base64Laws, Ed25519Laws, IsBytes}
use infernal_client_rs.Credential
use infernal_client_rs.Credential.{ClientCredential, generate, restore}
use infernal_client_rs.Wire.{
  min_nonce_length, max_nonce_length, validate_signature_metadata, signature_parameters,
  covered_components, valid_uri_value, valid_header_value, signature_label,
}
use infernal_client_rs.Wire.Metadata.{nonce_ascii}
use infernal_client_rs.Request.{
  RequestParts, SignedRequest, new, sign, sign_with, headers, generate_nonce,
}
use infernal_client_rs.Request.Nonce.{generate_nonce-ok}
use infernal_client_rs.Request.Signing.{signed_as, sign_with-ok_iff}
use infernal_client_rs.Suite.Texts.{
  contains_text, contains_text-append, contains_text-skip, texts_eq,
}
use infernal_client_rs.Suite.{fails_with, error_eq}

module _ ⦃d : Deps⦄ where
  open d use {Uuid}

  -- What the tests sign, with the id that is drawn
  parts : Uuid → Result RequestParts
  parts request_id =
      new (codes "POST") (codes "kernel.example.test") (codes "/v1/subscriptions")
        (codes "application/json") (codes "{}") request_id

  abbrev made : Uuid → RequestParts
  made request_id = record {
    method = codes "POST";
    authority = codes "kernel.example.test";
    path_and_query = codes "/v1/subscriptions";
    content_type = codes "application/json";
    body = codes "{}";
    request_id = request_id;
  }

  parts_lem : (request_id : Uuid) → parts request_id ≡ ok (made request_id)
  unfolding parts new trim is_whitespace all utf8 utf8_char valid_uri_value any starts_with
      valid_header_value list_eq
  parts_lem request_id = refl

  signing_produces_the_exact_header_set_the_kernel_parser_requires :
      ClientCredential → Uuid → (ℕ → Option Bytes) → Result Bool
  signing_produces_the_exact_header_set_the_kernel_parser_requires credential request_id fill = do
    unsigned ← parts request_id
    nonce ← generate_nonce fill
    signed ← sign unsigned credential (pos 1000) (pos 1020) nonce
    ok (
        texts_eq (map (λ header. header.0) (headers signed)) (
          codes "Content-Type"
          ∷ codes "Content-Digest"
          ∷ codes "Infernal-Service-Id"
          ∷ codes "Infernal-Instance-Id"
          ∷ codes "Infernal-Request-Id"
          ∷ codes "Signature-Input"
          ∷ codes "Signature"
          ∷ []))

  signature_input_carries_the_fixed_covered_components_and_algorithm :
      ClientCredential → Uuid → (ℕ → Option Bytes) → Result Bool
  signature_input_carries_the_fixed_covered_components_and_algorithm credential request_id fill = do
    unsigned ← parts request_id
    nonce ← generate_nonce fill
    signed ← sign unsigned credential (pos 1000) (pos 1020) nonce
    ok (
        starts_with signed.signature_input (codes "sig1=(\"@method\"")
        && contains_text signed.signature_input (codes "alg=\"ed25519\""))

  generated_nonces_are_unique_and_within_the_accepted_length :
      (ℕ → Option Bytes) → (ℕ → Option Bytes) → Result Bool
  generated_nonces_are_unique_and_within_the_accepted_length fill fill' = do
    first ← generate_nonce fill
    second ← generate_nonce fill'
    ok (
        not (list_eq first second)
        && (leb min_nonce_length (length (utf8 first))
            && leb (length (utf8 first)) max_nonce_length))

  rejects_a_validity_window_longer_than_the_kernels_limit :
      ClientCredential → Uuid → (ℕ → Option Bytes) → Result Bool
  rejects_a_validity_window_longer_than_the_kernels_limit credential request_id fill = do
    unsigned ← parts request_id
    nonce ← generate_nonce fill
    let result = sign unsigned credential (pos 1000) (pos 1040) nonce
    ok (fails_with result (invalid_request_part (codes "expires")))

  rejects_a_malformed_authority : Uuid → Bool
  rejects_a_malformed_authority request_id =
      let result =
        new (codes "GET") (codes "kernel.example.test/") (codes "/v1/subscriptions")
          (codes "application/json") [] request_id in
      fails_with result (invalid_request_part (codes "authority"))

  sign_with_an_externally_held_key_matches_sign_for_the_same_keypair :
      ClientCredential → Uuid → (ℕ → Option Bytes) → Result Bool
  sign_with_an_externally_held_key_matches_sign_for_the_same_keypair credential request_id fill = do
    nonce ← generate_nonce fill
    shared_parts ← parts request_id
    via_sign ← sign shared_parts credential (pos 1000) (pos 1020) nonce
    restored ←
        restore credential.public_key.service_id credential.public_key.instance_id
          credential.public_key.key_id credential.public_key.public_key
    via_sign_with ←
        sign_with shared_parts restored (pos 1000) (pos 1020) nonce
          (λ message. Credential.sign credential message)
    ok (
        list_eq via_sign.signature_input via_sign_with.signature_input
        && list_eq via_sign.signature via_sign_with.signature
        && list_eq via_sign.content_digest via_sign_with.content_digest)
