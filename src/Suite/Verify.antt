-- ===== src/Suite/Verify.antt =====
-- src/verify.rs: its tests.
use infernal_client_rs.Common.{◌≡◌, ◌≢◌, refl, Bool, true, ◌&&◌, all, any, list_eq, arith}
use infernal_client_rs.Common.Int.{ℤ, pos, ◌+ℤ◌, leb_ℤ}
use infernal_client_rs.Common.Text.{Str, codes, utf8, utf8_char, trim, is_whitespace, starts_with}
use infernal_client_rs.Error.{Result, ok, ◌>>=◌, invalid_request_part, invalid_signature}
use infernal_client_rs.Deps.{Deps, UuidLaws, Base64Laws, Sha256Laws, Ed25519Laws}
use infernal_client_rs.Credential
use infernal_client_rs.Credential.{ClientCredential, generate}
use infernal_client_rs.Wire.{valid_uri_value, valid_header_value}
use infernal_client_rs.Request.{RequestParts, SignedRequest, new, sign}
use infernal_client_rs.Request.Parts.{IsValid, new-ok_iff}
use infernal_client_rs.Request.Signing.{signed_as, sign_with-ok_iff}
use infernal_client_rs.Verify.{verify_incoming}
use infernal_client_rs.Verify.Received.{
  incoming_from, incoming_from_lem, received_as, received_as-ok,
}
use infernal_client_rs.Wire.Metadata.{IsNonce}
use infernal_client_rs.Verify.Refuse.{other_signer}
use infernal_client_rs.Verify.Refuse.Order.{verify_incoming-err_iff}
use infernal_client_rs.Verify.Tampered.{
  tampered_from, tampered_from-ok, tampered_as-refused, received_as-stale,
}
use infernal_client_rs.Suite.{fails_with, error_eq}
use infernal_client_rs.Suite.Credential.{uuid_eq_refl}

-- `==` on i64
abbrev i64_eq : ℤ → ℤ → Bool
i64_eq a b = leb_ℤ a b && leb_ℤ b a

module _ ⦃d : Deps⦄ where
  open d use {Uuid, uuid_eq, SigningKey, sha256}

  -- What the tests sign, with the id that is drawn
  parts : Uuid → Result RequestParts
  parts request_id =
      new (codes "POST") (codes "policy-evaluator.example.test") (codes "/v1/authority/evaluate")
        (codes "application/json") (codes "{\"action\":\"billing.invoice.submit\"}") request_id

  a_freshly_signed_request_verifies_against_the_signers_own_public_key :
      ClientCredential → Uuid → Result Bool
  a_freshly_signed_request_verifies_against_the_signers_own_public_key credential request_id = do
    unsigned ← parts request_id
    signed ← sign unsigned credential (pos 1000) (pos 1020) (codes "verify_test_nonce_01")
    incoming ← incoming_from signed
    verified ← verify_incoming incoming credential.public_key (pos 1005)
    ok (
        uuid_eq verified.service_id credential.public_key.service_id
        && uuid_eq verified.instance_id credential.public_key.instance_id
        && uuid_eq verified.key_id credential.public_key.key_id
        && uuid_eq verified.request_id incoming.parts.request_id
        && i64_eq verified.created (pos 1000)
        && i64_eq verified.expires (pos 1020))

  a_request_signed_by_a_different_key_is_rejected :
      ClientCredential → Uuid → ClientCredential → Result Bool
  a_request_signed_by_a_different_key_is_rejected credential request_id impostor = do
    unsigned ← parts request_id
    signed ← sign unsigned credential (pos 1000) (pos 1020) (codes "verify_test_nonce_02")
    incoming ← incoming_from signed
    let result = verify_incoming incoming impostor.public_key (pos 1005)
    ok (fails_with result (invalid_request_part (codes "service_id")))

  a_body_altered_after_signing_fails_the_content_digest_check :
      ClientCredential → Uuid → Result Bool
  a_body_altered_after_signing_fails_the_content_digest_check credential request_id = do
    unsigned ← parts request_id
    signed ← sign unsigned credential (pos 1000) (pos 1020) (codes "verify_test_nonce_03")
    incoming ← tampered_from signed (codes "tampered body")
    ok (fails_with (verify_incoming incoming credential.public_key (pos 1005)) invalid_signature)

  an_expired_signature_is_rejected : ClientCredential → Uuid → Result Bool
  an_expired_signature_is_rejected credential request_id = do
    unsigned ← parts request_id
    signed ← sign unsigned credential (pos 1000) (pos 1020) (codes "verify_test_nonce_04")
    incoming ← incoming_from signed
    let result = verify_incoming incoming credential.public_key (pos 2000)
    ok (fails_with result (invalid_request_part (codes "freshness")))

  abbrev made : Uuid → RequestParts
  made request_id = record {
    method = codes "POST";
    authority = codes "policy-evaluator.example.test";
    path_and_query = codes "/v1/authority/evaluate";
    content_type = codes "application/json";
    body = codes "{\"action\":\"billing.invoice.submit\"}";
    request_id = request_id;
  }

  parts_lem : (request_id : Uuid) → parts request_id ≡ ok (made request_id)
  unfolding parts new trim is_whitespace all utf8 utf8_char valid_uri_value any starts_with
      valid_header_value list_eq
  parts_lem request_id = refl

  -- What the tests draw
  module _ (uuid : UuidLaws) (base64 : Base64Laws) (sha : Sha256Laws) (ed : Ed25519Laws)
      (k : SigningKey) (i kid s request_id : Uuid) where
    abbrev drawn : ClientCredential
    drawn = generate k i kid s

    abbrev signed_as_drawn : Str → SignedRequest
    signed_as_drawn nonce =
        signed_as (made request_id) (generate k i kid s).public_key (pos 1000) (pos 1020) nonce
          (λ m. Credential.sign (generate k i kid s) m)

    sign-drawn :
        (nonce : Str)
        → IsNonce nonce
        → sign (made request_id) drawn (pos 1000) (pos 1020) nonce ≡ ok (signed_as_drawn nonce)
    unfolding sign ◌+ℤ◌
    sign-drawn nonce n =
        (sign_with-ok_iff (made request_id) drawn.public_key (pos 1000) (pos 1020) nonce
            (λ m. Credential.sign drawn m) (signed_as_drawn nonce) (omega arith) (omega arith)).1
          (omega arith, omega arith, n, refl)

    made-IsValid : IsValid (made request_id)
    unfolding parts
    made-IsValid =
        let p = made request_id in
        ((new-ok_iff p.method p.authority p.path_and_query p.content_type p.body request_id p).0
          (parts_lem request_id)).0

    -- Each test passes.
    a_freshly_signed_request_verifies_against_the_signers_own_public_key_lem :
        a_freshly_signed_request_verifies_against_the_signers_own_public_key drawn request_id
        ≡ ok true
    unfolding a_freshly_signed_request_verifies_against_the_signers_own_public_key ◌+ℤ◌ generate
        Credential.sign
    a_freshly_signed_request_verifies_against_the_signers_own_public_key_lem =
        let nonce = codes "verify_test_nonce_01" in
        rw
          (
            parts_lem request_id,
            sign-drawn nonce (omega arith),
            incoming_from_lem uuid (signed_as_drawn nonce),
            received_as-ok uuid base64 (made request_id) drawn.public_key (pos 1000) (pos 1020)
                nonce (λ m. Credential.sign drawn m) (pos 1005) (ed.from_bytes-verifying_key k)
                (λ m. (ed.sign-IsBytes k m, ed.length-sign k m, ed.verify-sign k m)) (omega arith)
                (omega arith) (omega arith) (omega arith) (omega arith) (omega arith) (omega arith),
            uuid_eq_refl uuid s,
            uuid_eq_refl uuid i,
            uuid_eq_refl uuid kid,
            uuid_eq_refl uuid request_id,
          )
          refl

    -- It passes if the two service ids drawn differ.
    a_request_signed_by_a_different_key_is_rejected_lem :
        (k' : SigningKey) (i' kid' s' : Uuid)
        → s ≢ s'
        → a_request_signed_by_a_different_key_is_rejected drawn request_id (generate k' i' kid' s')
          ≡ ok true
    unfolding a_request_signed_by_a_different_key_is_rejected generate fails_with error_eq list_eq
    a_request_signed_by_a_different_key_is_rejected_lem k' i' kid' s' other =
        let nonce = codes "verify_test_nonce_02" in
        rw
          (
            parts_lem request_id,
            sign-drawn nonce (omega arith),
            incoming_from_lem uuid (signed_as_drawn nonce),
            (verify_incoming-err_iff uuid (received_as (signed_as_drawn nonce))
                  (generate k' i' kid' s').public_key (pos 1005)
                  (invalid_request_part (codes "service_id")) (omega arith)).1
                (other_signer (λ same. other same.0) refl),
          )
          refl

    -- It passes if the two bodies have different digests.
    a_body_altered_after_signing_fails_the_content_digest_check_lem :
        sha256 (codes "tampered body") ≢ sha256 (made request_id).body
        → a_body_altered_after_signing_fails_the_content_digest_check drawn request_id ≡ ok true
    unfolding a_body_altered_after_signing_fails_the_content_digest_check ◌+ℤ◌ sign fails_with
        error_eq
    a_body_altered_after_signing_fails_the_content_digest_check_lem other =
        let nonce = codes "verify_test_nonce_03" in
        let made_signed = sign-drawn nonce (omega arith) in
        rw
          (
            parts_lem request_id,
            made_signed,
            tampered_from-ok uuid (signed_as_drawn nonce) (codes "tampered body") made-IsValid,
            tampered_as-refused uuid (made request_id) drawn.public_key (pos 1000) (pos 1020) nonce
                (λ m. Credential.sign drawn m) (pos 1005) (signed_as_drawn nonce) (omega arith)
                (omega arith) (omega arith) made_signed base64 sha (codes "tampered body")
                (omega arith) other,
          )
          refl

    an_expired_signature_is_rejected_lem :
        an_expired_signature_is_rejected drawn request_id ≡ ok true
    unfolding an_expired_signature_is_rejected ◌+ℤ◌ sign fails_with error_eq list_eq
    an_expired_signature_is_rejected_lem =
        let nonce = codes "verify_test_nonce_04" in
        let made_signed = sign-drawn nonce (omega arith) in
        rw
          (
            parts_lem request_id,
            made_signed,
            incoming_from_lem uuid (signed_as_drawn nonce),
            received_as-stale uuid (made request_id) drawn.public_key (pos 1000) (pos 1020) nonce
                (λ m. Credential.sign drawn m) (pos 2000) (signed_as_drawn nonce) (omega arith)
                (omega arith) (omega arith) made_signed (λ fresh. omega arith),
          )
          refl
