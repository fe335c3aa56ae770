-- ===== src/Request/Signing.antt =====
-- src/request.rs: what signing produces, the headers that carry it, and generated nonces.
use infernal_client_rs.Common.{◌≡◌, ◌↔◌, sym, All, All-append, All-mono, arith}
use infernal_client_rs.Common.Int.{ℤ, pos, ◌≤ℤ◌, IsI64}
use infernal_client_rs.Common.Text.{Bytes, Str, codes}
use infernal_client_rs.Error.{ok, >>=-eq-ok, ok-injective}
use infernal_client_rs.Deps.{Deps, UuidLaws, Base64Laws, Sha256Laws, IsBytes, IsBase64Char}
use infernal_client_rs.Credential.{ClientPublicKey}
use infernal_client_rs.Wire.{
  signature_label, signature_parameters, content_digest, encode_signature,
  validate_signature_metadata,
}
use infernal_client_rs.Wire.Metadata.{IsWindow, IsNonce, validate_signature_metadata-ok_iff}
use infernal_client_rs.Wire.Values.{IsPrintable}
use infernal_client_rs.Wire.Layout.{input_layout, uuid-IsPrintable, parameters-IsPrintable}
use infernal_client_rs.Request.{RequestParts, SignedRequest, sign_with, base_bytes, headers}
use infernal_client_rs.Request.Parts.{IsValid}

module _ ⦃d : Deps⦄ where
  open d use {Uuid, uuid_to_string, standard_encode, url_safe_encode, sha256}

  abbrev pub signed_as :
      RequestParts → ClientPublicKey → ℤ → ℤ → Str → (Bytes → Bytes) → SignedRequest
  signed_as parts key created expires nonce signer =
      let digest = content_digest parts.body in
      let parameters = signature_parameters created expires nonce key.key_id in
      record {
        parts = parts;
        service_id = key.service_id;
        instance_id = key.instance_id;
        content_digest = digest;
        signature_input = input_layout parameters;
        signature = encode_signature (signer (base_bytes parts key digest parameters));
      }

  pub sign_with-ok :
      (parts : RequestParts) (key : ClientPublicKey) (created expires : ℤ) (nonce : Str)
      (signer : Bytes → Bytes)
      → validate_signature_metadata created expires nonce ≡ ok tt
      → sign_with parts key created expires nonce signer
        ≡ ok (signed_as parts key created expires nonce signer)
  unfolding sign_with
  sign_with-ok parts key created expires nonce signer h = rw h

  -- On i64 times, signing succeeds exactly on valid metadata; the result then holds the parts as
  -- they are, the key's ids, the digest of the body, the parameters, and the signer's answer to the
  -- signature base.
  pub sign_with-ok_iff :
      (parts : RequestParts) (key : ClientPublicKey) (created expires : ℤ) (nonce : Str)
      (signer : Bytes → Bytes) (signed : SignedRequest)
      → IsI64 created
      → IsI64 expires
      → (sign_with parts key created expires nonce signer ≡ ok signed) ↔ (
          (pos 0 ≤ℤ created)
          × IsWindow created expires
          × IsNonce nonce
          × (signed ≡ signed_as parts key created expires nonce signer))
  unfolding sign_with
  sign_with-ok_iff parts key created expires nonce signer signed hc he =
      let (m0, m1) = validate_signature_metadata-ok_iff created expires nonce hc he in
      (
        λ h.
            let (_, valid, rest) =
              >>=-eq-ok (validate_signature_metadata created expires nonce) _ h in
            let (h0, hw, hn) = m0 valid in (h0, hw, hn, sym (ok-injective rest)),
        λ (h0, hw, hn, e). rw (m1 (h0, hw, hn), e),
      )

  -- The value of a header holds printable ASCII alone: no line break gets into a request.
  abbrev pub IsPrintableHeader : Str × Str → Type 0
  IsPrintableHeader header = All IsPrintable header.1

  pub content_digest-IsPrintable :
      Base64Laws → Sha256Laws → (b : Bytes) → All IsPrintable (content_digest b)
  unfolding content_digest
  content_digest-IsPrintable base64 sha b =
      let body =
        All-mono IsBase64Char IsPrintable (λ c h. ground arith) _
          (base64.standard_chars (sha256 b) (sha.sha256-IsBytes b)) in
      All-append IsPrintable (codes "sha-256=:") _ (omega arith)
        (All-append IsPrintable (standard_encode (sha256 b)) (codes ":") body (omega arith))

  signature-IsPrintable :
      Base64Laws → (b : Bytes) → IsBytes b → All IsPrintable (encode_signature b)
  unfolding encode_signature signature_label
  signature-IsPrintable base64 b h = All-append IsPrintable (codes "sig1=:") _ (omega arith) (
      All-append IsPrintable (standard_encode b) (codes ":")
        (All-mono IsBase64Char IsPrintable (λ c k. ground arith) _ (base64.standard_chars b h))
        (omega arith))

  input-IsPrintable :
      UuidLaws
      → (c e : ℤ) (n : Str) (k : Uuid) → IsNonce n
      → All IsPrintable (input_layout (signature_parameters c e n k))
  unfolding signature_label
  input-IsPrintable laws c e n k h =
      All-append IsPrintable (codes "sig1=") _ (omega arith) (parameters-IsPrintable laws c e n k h)

  -- Every header of a request signed over valid parts, by a signer that gives bytes, has a value
  -- of printable ASCII: no line break gets into the request.
  pub headers-IsPrintable :
      UuidLaws
      → Base64Laws
      → Sha256Laws
      → (parts : RequestParts) (key : ClientPublicKey) (created expires : ℤ) (nonce : Str)
        (signer : Bytes → Bytes) (signed : SignedRequest)
      → IsValid parts
      → ((m : Bytes) → IsBytes (signer m))
      → IsI64 created
      → IsI64 expires
      → sign_with parts key created expires nonce signer ≡ ok signed
      → All IsPrintableHeader (headers signed)
  unfolding headers
  headers-IsPrintable uuid base64 sha parts key created expires nonce signer signed valid bytes hc
        he h =
      let (_, _, hn, e) =
        (sign_with-ok_iff parts key created expires nonce signer signed hc he).0 h in
      rw e (
        valid.content_type.2,
        (
          content_digest-IsPrintable base64 sha parts.body,
          (
            uuid-IsPrintable uuid key.service_id,
            (
              uuid-IsPrintable uuid key.instance_id,
              (
                uuid-IsPrintable uuid parts.request_id,
                (
                  input-IsPrintable uuid created expires nonce key.key_id hn,
                  (signature-IsPrintable base64 _ (bytes _), tt),
                ),
              ),
            ),
          ),
        ),
      )
