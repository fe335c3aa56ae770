-- ===== src/Verify/Received.antt =====
-- src/verify.rs: what a server reads off the wire of a signed request, and that it accepts it.
use infernal_client_rs.Common.{ℕ, ◌<◌, ◌^◌, ◌≡◌, refl, length, true, arith}
use infernal_client_rs.Common.Int.{ℤ, pos, negsuc, ◌≤ℤ◌, ◌+ℤ◌, IsI64}
use infernal_client_rs.Common.Text.{Bytes, Str}
use infernal_client_rs.Common.Decimal.{display_i64, display_ℕ, display_ℕ_lem}
use infernal_client_rs.Error.{Result, ok}
use infernal_client_rs.Deps.{Deps, UuidLaws, Base64Laws, IsBytes}
use infernal_client_rs.Credential.{ClientPublicKey}
use infernal_client_rs.Wire.{signature_parameters, content_digest}
use infernal_client_rs.Wire.Metadata.{IsWindow, IsNonce}
use infernal_client_rs.Request.{RequestParts, SignedRequest, base_bytes}
use infernal_client_rs.Request.Signing.{signed_as}
use infernal_client_rs.Verify.{
  IncomingRequest, VerifiedRequest, SignatureMetadata, from_wire, verify_incoming,
}
use infernal_client_rs.Wire.Layout.{parameters_layout, input_layout}
use infernal_client_rs.Verify.Input.{IsSignatureInput}
use infernal_client_rs.Verify.Signature.{parse_signature-ok_iff, parse-encode}
use infernal_client_rs.Verify.Accept.{verify_incoming-ok_iff, Attests}

pub IsWindow-positive : (c e : ℕ) → ¬ IsWindow (pos c) (negsuc e)
unfolding ◌+ℤ◌
IsWindow-positive c e w = ground arith

module _ ⦃d : Deps⦄ where
  open d use {Uuid, uuid_to_string, key_from_bytes, verify_strict, SigningKey, sign_bytes}

  -- What a server reads off the wire of a signed request: `incoming_from` of the tests
  unfoldable pub incoming_from : SignedRequest → Result IncomingRequest
  incoming_from signed =
      from_wire signed.parts (uuid_to_string signed.service_id) (uuid_to_string signed.instance_id)
        signed.content_digest signed.signature_input signed.signature

  -- Parameters that were signed are a layout that the parser accepts.
  pub signed_input :
      (laws : UuidLaws) (c e : ℕ) (nonce : Str) (key_id : Uuid)
      → c < 2 ^ 63
      → e < 2 ^ 63
      → IsWindow (pos c) (pos e)
      → IsNonce nonce
      → let parameters = signature_parameters (pos c) (pos e) nonce key_id in
        IsSignatureInput
          (input_layout parameters)
          (record { parameters = parameters; created = pos c; expires = pos e; key_id = key_id })
  unfolding signature_parameters parameters_layout display_i64
  signed_input laws c e nonce key_id hc he w n =
      let (c1, c2, c3) = display_ℕ_lem c in
      let (e1, e2, e3) = display_ℕ_lem e in
      record {
        created = display_ℕ c;
        expires = display_ℕ e;
        nonce = nonce;
        key_id = uuid_to_string key_id;
        layout = refl;
        parameters = refl;
        created_digits = (c1, c2);
        created_value = (rw c3 hc, rw c3);
        expires_digits = (e1, e2);
        expires_value = (rw e3 he, rw e3);
        window = w;
        is_nonce = n;
        is_key_id = laws.parse-to_string key_id;
      }

  abbrev pub signed_metadata : ℤ → ℤ → Str → Uuid → SignatureMetadata
  signed_metadata created expires nonce key_id = record {
    parameters = signature_parameters created expires nonce key_id;
    created = created;
    expires = expires;
    key_id = key_id;
  }

  -- The header of a signed request, whatever the times are
  pub signed_input_i64 :
      UuidLaws
      → (created expires : ℤ) (nonce : Str) (key_id : Uuid) → IsI64 created
      → IsI64 expires
      → pos 0 ≤ℤ created
      → IsWindow created expires
      → IsNonce nonce
      → IsSignatureInput
          (input_layout (signature_parameters created expires nonce key_id))
          (signed_metadata created expires nonce key_id)
  signed_input_i64 laws (negsuc c) e n k hc he h0 w hn = absurd (omega arith)
  signed_input_i64 laws (pos c) (negsuc e) n k hc he h0 w hn = absurd (IsWindow-positive c e w)
  signed_input_i64 laws (pos c) (pos e) n k hc he h0 w hn =
      signed_input laws c e n k (omega arith) (omega arith) w hn

  abbrev pub received_as : SignedRequest → IncomingRequest
  received_as signed = record {
    parts = signed.parts;
    service_id = signed.service_id;
    instance_id = signed.instance_id;
    content_digest = signed.content_digest;
    signature_input = signed.signature_input;
    signature = signed.signature;
  }

  -- UUIDs survive the wire, so the server reads what the client wrote.
  pub incoming_from_lem :
      UuidLaws → (signed : SignedRequest) → incoming_from signed ≡ ok (received_as signed)
  unfolding incoming_from from_wire
  incoming_from_lem laws signed =
      rw (laws.parse-to_string signed.service_id, laws.parse-to_string signed.instance_id)

  abbrev pub verified_as : RequestParts → ClientPublicKey → ℤ → ℤ → VerifiedRequest
  verified_as parts key created expires = record {
    service_id = key.service_id;
    instance_id = key.instance_id;
    key_id = key.key_id;
    request_id = parts.request_id;
    created = created;
    expires = expires;
  }

  -- What a signer needs to be for a key: its signatures are 64 bytes that pass.
  abbrev pub SignsFor : ClientPublicKey → (Bytes → Bytes) → Type 0
  SignsFor key signer =
      (m : Bytes)
      → IsBytes (signer m)
        × (length (signer m) ≡ 64)
        × (verify_strict key.public_key m (signer m) ≡ true)

  signed-Attests :
      UuidLaws
      → Base64Laws
      → (parts : RequestParts) (key : ClientPublicKey) (created expires : ℤ) (nonce : Str)
        (signer : Bytes → Bytes) (now : ℤ)
      → key_from_bytes key.public_key ≡ true
      → SignsFor key signer
      → IsI64 created
      → IsI64 expires
      → pos 0 ≤ℤ created
      → IsWindow created expires
      → IsNonce nonce
      → (pos 0 ≤ℤ now) × (created ≤ℤ now +ℤ pos 5) × (now ≤ℤ expires +ℤ pos 5)
      → Attests
          (received_as (signed_as parts key created expires nonce signer))
          key
          now
          (verified_as parts key created expires)
  signed-Attests uuid base64 parts key created expires nonce signer now valid signs hc he h0 w n
        fresh =
      let parameters = signature_parameters created expires nonce key.key_id in
      let message = base_bytes parts key (content_digest parts.body) parameters in
      let (bytes, long, good) = signs message in
      record {
        parameters = parameters;
        signature = signer message;
        same_service = (refl, refl);
        same_instance = (refl, refl);
        same_key = refl;
        same_request = refl;
        input = signed_input_i64 uuid created expires nonce key.key_id hc he h0 w n;
        fresh = fresh;
        digest = refl;
        signature_header =
            (parse_signature-ok_iff _ _).0 (parse-encode base64 (signer message) bytes long);
        valid_key = valid;
        verified = good;
      }

  -- The verifier accepts what was signed, as it was signed, while it is fresh.
  pub received_as-ok :
      UuidLaws
      → Base64Laws
      → (parts : RequestParts) (key : ClientPublicKey) (created expires : ℤ) (nonce : Str)
        (signer : Bytes → Bytes) (now : ℤ)
      → key_from_bytes key.public_key ≡ true
      → SignsFor key signer
      → IsI64 created
      → IsI64 expires
      → IsI64 now
      → pos 0 ≤ℤ created
      → IsWindow created expires
      → IsNonce nonce
      → (pos 0 ≤ℤ now) × (created ≤ℤ now +ℤ pos 5) × (now ≤ℤ expires +ℤ pos 5)
      → verify_incoming (received_as (signed_as parts key created expires nonce signer)) key now
        ≡ ok (verified_as parts key created expires)
  received_as-ok uuid base64 parts key created expires nonce signer now valid signs hc he hn h0 w n
        fresh =
      (verify_incoming-ok_iff uuid _ key now _ hn).1 (
        signed-Attests uuid base64 parts key created expires nonce signer now valid signs hc he h0 w
          n fresh)
