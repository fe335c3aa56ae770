-- ===== src/Verify/Tampered.antt =====
-- src/verify.rs: a signed request that is delivered too late, too early, or with another body.
use infernal_client_rs.Common.{◌≡◌, ◌≢◌, refl, sym}
use mathlib.Core.Path.{subst}
use infernal_client_rs.Common.Int.{ℤ, IsI64}
use infernal_client_rs.Common.Text.{Bytes, Str, codes}
use infernal_client_rs.Error.{Result, ok, err, ◌>>=◌, invalid_request_part, invalid_signature}
use infernal_client_rs.Deps.{Deps, UuidLaws, Base64Laws, Sha256Laws}
use infernal_client_rs.Credential.{ClientPublicKey}
use infernal_client_rs.Request.{RequestParts, SignedRequest, new, sign_with}
use infernal_client_rs.Request.Parts.{IsValid, new-ok_iff}
use infernal_client_rs.Request.Signing.{signed_as, sign_with-ok_iff}
use infernal_client_rs.Verify.{IncomingRequest, from_wire, verify_incoming}
use infernal_client_rs.Verify.Binding.{content_digest_injective}
use infernal_client_rs.Verify.RoundTrip.{exchange}
use infernal_client_rs.Verify.Received.{
  incoming_from_lem, received_as, signed_metadata, signed_input_i64,
}
use infernal_client_rs.Verify.Refuse.{IsFresh, stale, other_body}
use infernal_client_rs.Verify.Refuse.Order.{verify_incoming-err_iff}

module _ ⦃d : Deps⦄ where
  open d use {Uuid, uuid_to_string, sha256}

  -- The signed request with another body, as a server reads it
  unfoldable pub tampered_from : SignedRequest → Bytes → Result IncomingRequest
  tampered_from signed body = do
    parts ←
        new signed.parts.method signed.parts.authority signed.parts.path_and_query
          signed.parts.content_type body signed.parts.request_id
    from_wire parts (uuid_to_string signed.service_id) (uuid_to_string signed.instance_id)
        signed.content_digest signed.signature_input signed.signature

  -- What the server reads then
  abbrev pub tampered_as : SignedRequest → Bytes → IncomingRequest
  tampered_as signed body = record (received_as signed) {
    parts = record signed.parts { body = body };
  }

  pub tampered_from-ok :
      UuidLaws
      → (signed : SignedRequest) (body : Bytes) → IsValid signed.parts
      → tampered_from signed body ≡ ok (tampered_as signed body)
  unfolding tampered_from from_wire
  tampered_from-ok uuid signed body valid =
      let p = signed.parts in
      let other : RequestParts = record p { body = body } in
      rw
        (
          (new-ok_iff p.method p.authority p.path_and_query p.content_type body p.request_id
                other).1
              (
                record {
                  method = valid.method;
                  authority = valid.authority;
                  path_and_query = valid.path_and_query;
                  content_type = valid.content_type;
                },
                refl,
              ),
          uuid.parse-to_string signed.service_id,
          uuid.parse-to_string signed.instance_id,
        )
        refl

  module _ (uuid : UuidLaws) (parts : RequestParts) (key : ClientPublicKey) (created expires : ℤ)
      (nonce : Str) (signer : Bytes → Bytes) (now : ℤ) (signed : SignedRequest) (hc : IsI64 created)
      (he : IsI64 expires) (hn : IsI64 now)
      (made : sign_with parts key created expires nonce signer ≡ ok signed) where
    pub received_as-stale :
        ¬ IsFresh created expires now
        → verify_incoming (received_as signed) key now
          ≡ err (invalid_request_part (codes "freshness"))
    received_as-stale late =
        let (h0, w, n, same) =
          (sign_with-ok_iff parts key created expires nonce signer signed hc he).0 made in
        let input = signed_input_i64 uuid created expires nonce key.key_id hc he h0 w n in
        rw same (
          (verify_incoming-err_iff uuid
              (received_as (signed_as parts key created expires nonce signer)) key now _ hn).1
            (stale (signed_metadata created expires nonce key.key_id) (refl, refl) (input, refl)
              late refl))

    -- A signed request that reaches the verifier outside its time, by more than 5 seconds, is
    -- refused for its freshness.
    pub exchange-stale :
        ¬ IsFresh created expires now
        → exchange parts key created expires nonce signer now
          ≡ err (invalid_request_part (codes "freshness"))
    unfolding exchange
    exchange-stale late = rw (made, incoming_from_lem uuid signed) (received_as-stale late)

    pub tampered_as-refused :
        Base64Laws
        → Sha256Laws
        → (body : Bytes) → IsFresh created expires now
        → sha256 body ≢ sha256 parts.body
        → verify_incoming (tampered_as signed body) key now ≡ err invalid_signature
    tampered_as-refused base64 sha body fresh other =
        let (h0, w, n, same) =
          (sign_with-ok_iff parts key created expires nonce signer signed hc he).0 made in
        let input = signed_input_i64 uuid created expires nonce key.key_id hc he h0 w n in
        rw same (
          (verify_incoming-err_iff uuid
              (tampered_as (signed_as parts key created expires nonce signer) body) key now _ hn).1
            (other_body (signed_metadata created expires nonce key.key_id) (refl, refl)
              (input, refl) fresh
              (λ h. other (content_digest_injective base64 sha body parts.body (sym h))) refl))

    -- A signed request that reaches the verifier in time, with valid parts and i64 times, with a
    -- body of another digest and all else untouched, is refused for its signature.
    pub tampered_from-refused :
        Base64Laws
        → Sha256Laws
        → (body : Bytes) → IsValid parts
        → IsFresh created expires now
        → sha256 body ≢ sha256 parts.body
        → (do incoming ← tampered_from signed body; verify_incoming incoming key now)
          ≡ err invalid_signature
    tampered_from-refused base64 sha body valid fresh other =
        let (_, _, _, same) =
          (sign_with-ok_iff parts key created expires nonce signer signed hc he).0 made in
        rw (tampered_from-ok uuid signed body (subst (λ x. IsValid x.parts) (sym same) valid))
          (tampered_as-refused base64 sha body fresh other)
