-- ===== src/Suite/Request/Draws.antt =====
-- src/request.rs: for which draws its tests pass.
use infernal_client_rs.Common.{
  ℕ, ◌≡◌, ◌≢◌, ◌∙◌, refl, sym, ap, true, false, Option, some, [], length, list_eq, list_eq_iff, all,
  any, false_of_not, arith,
}
use infernal_client_rs.Common.Int.{sub_i64, pos, ◌+ℤ◌}
use infernal_client_rs.Common.Text.{Bytes, codes, utf8, strip_prefix, utf8_char, starts_with}
use infernal_client_rs.Error.{ok}
use infernal_client_rs.Deps.{Deps, UuidLaws, Base64Laws, Ed25519Laws, IsBytes}
use infernal_client_rs.Credential
use infernal_client_rs.Credential.{ClientCredential, generate, restore}
use infernal_client_rs.Wire.{
  validate_signature_metadata, signature_parameters, covered_components, valid_uri_value,
  signature_label,
}
use infernal_client_rs.Wire.Metadata.{nonce_ascii}
use infernal_client_rs.Request.{SignedRequest, new, sign, sign_with, headers}
use infernal_client_rs.Request.Nonce.{generate_nonce-ok}
use infernal_client_rs.Request.Signing.{signed_as, sign_with-ok_iff}
use infernal_client_rs.Suite.Texts.{
  contains_text, contains_text-append, contains_text-skip, texts_eq,
}
use infernal_client_rs.Suite.{fails_with, error_eq}
use infernal_client_rs.Suite.Request.{
  made, parts_lem, signing_produces_the_exact_header_set_the_kernel_parser_requires,
  signature_input_carries_the_fixed_covered_components_and_algorithm,
  generated_nonces_are_unique_and_within_the_accepted_length,
  rejects_a_validity_window_longer_than_the_kernels_limit, rejects_a_malformed_authority,
  sign_with_an_externally_held_key_matches_sign_for_the_same_keypair,
}

module _ ⦃d : Deps⦄ where
  open d use {Uuid, uuid_to_string, SigningKey, url_safe_encode, url_safe_decode}

  -- What the tests draw: a credential, the id of a request, and the bytes of a nonce
  module _ (uuid : UuidLaws) (base64 : Base64Laws) (ed : Ed25519Laws) (k : SigningKey)
      (i kid s request_id : Uuid) (fill : ℕ → Option Bytes) (b : Bytes) (filled : fill 24 ≡ some b)
      (long : length b ≡ 24) (bytes : IsBytes b) where
    abbrev drawn : ClientCredential
    drawn = generate k i kid s

    abbrev signed : SignedRequest
    signed =
        signed_as (made request_id) (generate k i kid s).public_key (pos 1000) (pos 1020)
          (url_safe_encode b) (λ m. Credential.sign drawn m)

    sign-signed : sign (made request_id) drawn (pos 1000) (pos 1020) (url_safe_encode b) ≡ ok signed
    unfolding sign ◌+ℤ◌
    sign-signed =
        let (_, _, n) = generate_nonce-ok base64 fill b filled long bytes in
        (sign_with-ok_iff (made request_id) drawn.public_key (pos 1000) (pos 1020)
            (url_safe_encode b) (λ m. Credential.sign drawn m) signed (omega arith) (omega arith)).1
          (omega arith, omega arith, n, refl)

    signed_components : starts_with signed.signature_input (codes "sig1=(\"@method\"") ≡ true
    unfolding signature_parameters signature_label covered_components starts_with strip_prefix
    signed_components = refl

    signed_algorithm : contains_text signed.signature_input (codes "alg=\"ed25519\"") ≡ true
    unfolding signature_parameters signature_label covered_components generate
    signed_algorithm =
        let last = contains_text-append (codes "\";") (codes "alg=\"ed25519\"") [] in
        search (contains_text-skip, last) depth 16

    -- Each test passes.
    signing_produces_the_exact_header_set_the_kernel_parser_requires_lem :
        signing_produces_the_exact_header_set_the_kernel_parser_requires drawn request_id fill
        ≡ ok true
    unfolding signing_produces_the_exact_header_set_the_kernel_parser_requires headers texts_eq
        list_eq
    signing_produces_the_exact_header_set_the_kernel_parser_requires_lem =
        let (h, _, _) = generate_nonce-ok base64 fill b filled long bytes in
        rw (parts_lem request_id, h, sign-signed) refl

    signature_input_carries_the_fixed_covered_components_and_algorithm_lem :
        signature_input_carries_the_fixed_covered_components_and_algorithm drawn request_id fill
        ≡ ok true
    unfolding signature_input_carries_the_fixed_covered_components_and_algorithm
    signature_input_carries_the_fixed_covered_components_and_algorithm_lem =
        let (h, _, _) = generate_nonce-ok base64 fill b filled long bytes in
        rw (parts_lem request_id, h, sign-signed, signed_components, signed_algorithm) refl

    rejects_a_validity_window_longer_than_the_kernels_limit_lem :
        rejects_a_validity_window_longer_than_the_kernels_limit drawn request_id fill ≡ ok true
    unfolding rejects_a_validity_window_longer_than_the_kernels_limit sign sign_with
        validate_signature_metadata sub_i64 fails_with error_eq list_eq
    rejects_a_validity_window_longer_than_the_kernels_limit_lem =
        let (h, _, _) = generate_nonce-ok base64 fill b filled long bytes in
        rw (parts_lem request_id, h) refl

    sign_with_an_externally_held_key_matches_sign_for_the_same_keypair_lem :
        sign_with_an_externally_held_key_matches_sign_for_the_same_keypair drawn request_id fill
        ≡ ok true
    unfolding sign_with_an_externally_held_key_matches_sign_for_the_same_keypair restore generate
        sign
    sign_with_an_externally_held_key_matches_sign_for_the_same_keypair_lem =
        let (h, _, _) = generate_nonce-ok base64 fill b filled long bytes in
        rw
          (
            h,
            parts_lem request_id,
            ed.from_bytes-verifying_key k,
            sign-signed,
            (list_eq_iff signed.signature_input signed.signature_input).1 refl,
            (list_eq_iff signed.signature signed.signature).1 refl,
            (list_eq_iff signed.content_digest signed.content_digest).1 refl,
          )
          refl

    -- Two nonces differ if the bytes drawn do.
    generated_nonces_are_unique_and_within_the_accepted_length_lem :
        (fill' : ℕ → Option Bytes) (b' : Bytes)
        → fill' 24 ≡ some b'
        → length b' ≡ 24
        → IsBytes b'
        → b ≢ b'
        → generated_nonces_are_unique_and_within_the_accepted_length fill fill' ≡ ok true
    unfolding generated_nonces_are_unique_and_within_the_accepted_length
    generated_nonces_are_unique_and_within_the_accepted_length_lem fill' b' filled' long' bytes'
          ne =
        let (h, size, n) = generate_nonce-ok base64 fill b filled long bytes in
        let (h', _, _) = generate_nonce-ok base64 fill' b' filled' long' bytes' in
        let other : list_eq (url_safe_encode b) (url_safe_encode b') ≡ false =
          false_of_not _ (list_eq_iff _ _).0 (λ same.
            let both : some b ≡ some b' =
              sym (base64.url_safe_round_trip b bytes)
              ∙ ap url_safe_decode same
              ∙ base64.url_safe_round_trip b' bytes' in
            ne cc) in
        rw (h, h', other, nonce_ascii (url_safe_encode b) n.2, size) refl

  rejects_a_malformed_authority_lem :
      (request_id : Uuid) → rejects_a_malformed_authority request_id ≡ true
  unfolding rejects_a_malformed_authority new all utf8 utf8_char valid_uri_value any fails_with
      error_eq list_eq
  rejects_a_malformed_authority_lem request_id = refl
