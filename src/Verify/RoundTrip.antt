-- ===== src/Verify/RoundTrip.antt =====
-- src/request.rs and src/verify.rs together: a request that was signed is accepted by the verifier.
use infernal_client_rs.Common.{◌≡◌, length, true}
use infernal_client_rs.Common.Int.{ℤ, pos, ◌≤ℤ◌, ◌+ℤ◌, IsI64}
use infernal_client_rs.Common.Text.{Bytes, Str}
use infernal_client_rs.Error.{Result, ok, ◌>>=◌}
use infernal_client_rs.Deps.{Deps, UuidLaws, Base64Laws, Ed25519Laws, IsBytes}
use infernal_client_rs.Credential
use infernal_client_rs.Credential.{ClientPublicKey, ClientCredential, generate}
use infernal_client_rs.Wire.Metadata.{IsWindow, IsNonce, validate_signature_metadata-ok_iff}
use infernal_client_rs.Request.{RequestParts, sign_with, sign}
use infernal_client_rs.Request.Signing.{signed_as, sign_with-ok}
use infernal_client_rs.Verify.{VerifiedRequest, verify_incoming}
use infernal_client_rs.Verify.Received.{
  incoming_from, incoming_from_lem, verified_as, received_as-ok,
}

module _ ⦃d : Deps⦄ where
  open d use {Uuid, uuid_to_string, key_from_bytes, verify_strict, SigningKey, sign_bytes}

  -- Signing, the wire, and verification at the time `now`
  unfoldable pub exchange :
      RequestParts → ClientPublicKey → ℤ → ℤ → Str → (Bytes → Bytes) → ℤ → Result VerifiedRequest
  exchange parts key created expires nonce signer now = do
    signed ← sign_with parts key created expires nonce signer
    incoming ← incoming_from signed
    verify_incoming incoming key now

  -- A request signed with valid metadata by a signer that matches the public key is read off the
  -- wire and accepted while it is fresh, and the verifier reports the signer's ids, the request's
  -- id and the times.
  pub exchange-ok :
      UuidLaws
      → Base64Laws
      → (parts : RequestParts) (key : ClientPublicKey) (created expires : ℤ) (nonce : Str)
        (signer : Bytes → Bytes) (now : ℤ)
      → key_from_bytes key.public_key ≡ true
      → ((m : Bytes)
          → IsBytes (signer m)
            × (length (signer m) ≡ 64)
            × (verify_strict key.public_key m (signer m) ≡ true))
      → IsI64 created
      → IsI64 expires
      → IsI64 now
      → pos 0 ≤ℤ created
      → IsWindow created expires
      → IsNonce nonce
      → (pos 0 ≤ℤ now) × (created ≤ℤ now +ℤ pos 5) × (now ≤ℤ expires +ℤ pos 5)
      → exchange parts key created expires nonce signer now
        ≡ ok (verified_as parts key created expires)
  unfolding exchange
  exchange-ok uuid base64 parts key created expires nonce signer now valid signs hc he hn h0 w n
        fresh =
      let metadata =
        (validate_signature_metadata-ok_iff created expires nonce hc he).1 (h0, w, n) in
      rw
        (
          sign_with-ok parts key created expires nonce signer metadata,
          incoming_from_lem uuid (signed_as parts key created expires nonce signer),
        )
        (received_as-ok uuid base64 parts key created expires nonce signer now valid signs hc he hn
          h0 w n fresh)

  -- A request that a generated credential signs with valid metadata passes the verifier under that
  -- credential's own public key while it is fresh.
  pub sign_exchange-ok :
      UuidLaws
      → Base64Laws
      → Ed25519Laws
      → (parts : RequestParts) (signing_key : SigningKey) (instance_id key_id service_id : Uuid)
        (created expires : ℤ) (nonce : Str) (now : ℤ)
      → IsI64 created
      → IsI64 expires
      → IsI64 now
      → pos 0 ≤ℤ created
      → IsWindow created expires
      → IsNonce nonce
      → (pos 0 ≤ℤ now) × (created ≤ℤ now +ℤ pos 5) × (now ≤ℤ expires +ℤ pos 5)
      → let credential = generate signing_key instance_id key_id service_id in
        (do
          signed ← sign parts credential created expires nonce
          incoming ← incoming_from signed
          verify_incoming incoming credential.public_key now)
        ≡ ok (verified_as parts credential.public_key created expires)
  unfolding sign generate exchange Credential.sign
  sign_exchange-ok uuid base64 ed parts k i kid sid created expires nonce now =
      let credential = generate k i kid sid in
      exchange-ok uuid base64 parts credential.public_key created expires nonce
        (λ m. sign_bytes k m) now (ed.from_bytes-verifying_key k)
        (λ m. (ed.sign-IsBytes k m, ed.length-sign k m, ed.verify-sign k m))
