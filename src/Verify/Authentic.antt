-- ===== src/Verify/Authentic.antt =====
-- src/verify.rs: a request that is accepted is one that the holder of the key has signed.
use infernal_client_rs.Common.{◌≡◌, sym, ◌∙◌, ap, All, All-mono, true, arith}
use infernal_client_rs.Common.Int.{ℤ, pos, negsuc, ◌≤ℤ◌, IsI64}
use infernal_client_rs.Common.Text.{Bytes, Str}
use infernal_client_rs.Common.Decimal.{IsDigit}
use infernal_client_rs.Error.{ok, ok-injective}
use infernal_client_rs.Deps.{Deps, UuidLaws, Base64Laws, Sha256Laws, IsUuidInputChar}
use infernal_client_rs.Credential.{ClientPublicKey}
use infernal_client_rs.Wire.{signature_parameters, content_digest}
use infernal_client_rs.Wire.Metadata.{IsWindow, IsNonce}
use infernal_client_rs.Wire.Values.{IsPrintable}
use infernal_client_rs.Wire.Layout.{
  input_layout, layout-IsPrintable, nonce-IsPrintable, parameters-IsPrintable,
}
use infernal_client_rs.Request.Signing.{content_digest-IsPrintable}
use infernal_client_rs.Request.{RequestParts, base_bytes}
use infernal_client_rs.Request.Parts.{IsValid}
use infernal_client_rs.Verify.{
  IncomingRequest, VerifiedRequest, SignatureMetadata, verify_incoming, parse_signature_input,
}
use infernal_client_rs.Verify.Input.{IsSignatureInput, parse_signature_input_complete}
use infernal_client_rs.Verify.Signature.{IsSignatureHeader}
use infernal_client_rs.Verify.Accept.{Attests, incoming_base, verify_incoming-ok_iff}
use infernal_client_rs.Verify.Received.{signed_input, IsWindow-positive}
use infernal_client_rs.Verify.Binding.{base_bytes_injective, content_digest_injective}

module _ ⦃d : Deps⦄ where
  open d use {Uuid, uuid_to_string, sha256, verify_strict}

  -- The metadata of a request that was signed
  abbrev pub IsSigned : RequestParts → ℤ → ℤ → Str → Type 0
  IsSigned parts created expires nonce =
      IsValid parts
      × IsI64 created
      × IsI64 expires
      × (pos 0 ≤ℤ created)
      × IsWindow created expires
      × IsNonce nonce

  -- The parameters of a header that is accepted are printable.
  input-IsPrintable :
      UuidLaws
      → (value : Str) (m : SignatureMetadata) → IsSignatureInput value m
      → All IsPrintable m.parameters
  input-IsPrintable laws value m w =
      let digits =
        λ (s : Str) (h : All IsDigit s). All-mono IsDigit IsPrintable (λ x q. omega arith) s h in
      rw w.parameters (
        layout-IsPrintable w.created w.expires w.nonce w.key_id (
          digits w.created w.created_digits.1,
          digits w.expires w.expires_digits.1,
          nonce-IsPrintable w.nonce w.is_nonce,
          All-mono IsUuidInputChar IsPrintable (λ x q. q.0) _
              (laws.parse_chars w.key_id m.key_id w.is_key_id),
        ))

  -- Parameters that were signed are read as the times and the key that were signed.
  read_signed :
      UuidLaws
      → (m : SignatureMetadata) (value : Str) (c e : ℤ) (n : Str) (k : Uuid)
      → IsSignatureInput value m
      → m.parameters ≡ signature_parameters c e n k
      → IsI64 c
      → IsI64 e
      → pos 0 ≤ℤ c
      → IsWindow c e
      → IsNonce n
      → (m.created ≡ c) × (m.expires ≡ e) × (m.key_id ≡ k)
  read_signed laws m value (negsuc c) e n k w same hc he h0 hw hn = absurd (omega arith)
  read_signed laws m value (pos c) (negsuc e) n k w same hc he h0 hw hn =
      absurd (IsWindow-positive c e hw)
  read_signed laws m value (pos c) (pos e) n k w same hc he h0 hw hn =
      let parameters = signature_parameters (pos c) (pos e) n k in
      let read =
        parse_signature_input_complete laws (input_layout parameters) _
          (signed_input laws c e n k (omega arith) (omega arith) hw hn) in
      let read' = parse_signature_input_complete laws value m w in
      let both =
        ok-injective
          (sym read' ∙ ap parse_signature_input (w.layout ∙ ap input_layout same) ∙ read) in
      (ap (λ x. x.created) both, ap (λ x. x.expires) both, ap (λ x. x.key_id) both)

  -- A request and what is attested of it, against parts and times that were signed by a key
  pub record Agrees (request : IncomingRequest) (v : VerifiedRequest) (p : RequestParts)
      (k : ClientPublicKey) (c e : ℤ) : Type 0 where
    pub service_id : v.service_id ≡ k.service_id
    pub instance_id : v.instance_id ≡ k.instance_id
    pub key_id : v.key_id ≡ k.key_id
    pub method : request.parts.method ≡ p.method
    pub authority : request.parts.authority ≡ p.authority
    pub path_and_query : request.parts.path_and_query ≡ p.path_and_query
    pub content_type : request.parts.content_type ≡ p.content_type
    pub request_id : request.parts.request_id ≡ p.request_id
    pub body_digest : sha256 request.parts.body ≡ sha256 p.body
    pub created : v.created ≡ c
    pub expires : v.expires ≡ e

  -- A request that attests over the bytes of a signed request agrees with it.
  pub bound :
      UuidLaws
      → Base64Laws
      → Sha256Laws
      → (request : IncomingRequest) (key : ClientPublicKey) (now : ℤ) (v : VerifiedRequest)
        (a : Attests request key now v) (p : RequestParts) (k : ClientPublicKey) (c e : ℤ) (n : Str)
      → IsValid request.parts
      → IsSigned p c e n
      → incoming_base request a.parameters
        ≡ base_bytes p k (content_digest p.body) (signature_parameters c e n k.key_id)
      → Agrees request v p k c e
  bound uuid base64 sha request key now v a p k c e n valid (hv, hc, he, h0, hw, hn) same =
      let wire_key = record key {
        service_id = request.service_id;
        instance_id = request.instance_id;
      } in
      let line = content_digest-IsPrintable base64 sha in
      let (em, ea, eq, ec, er, es, ei, eg, ep) =
        base_bytes_injective uuid request.parts p wire_key k request.content_digest
          (content_digest p.body) a.parameters _ valid hv
          (
            rw a.digest (line request.parts.body),
            input-IsPrintable uuid request.signature_input _ a.input,
          )
          (line p.body, parameters-IsPrintable uuid c e n k.key_id hn) same in
      let (tc, te, tk) =
        read_signed uuid _ request.signature_input c e n k.key_id a.input ep hc he h0 hw hn in
      record {
        service_id = a.same_service.1 ∙ sym a.same_service.0 ∙ es;
        instance_id = a.same_instance.1 ∙ sym a.same_instance.0 ∙ ei;
        key_id = tk;
        method = em;
        authority = ea;
        path_and_query = eq;
        content_type = ec;
        request_id = er;
        body_digest =
            content_digest_injective base64 sha request.parts.body p.body (sym a.digest ∙ eg);
        created = tc;
        expires = te;
      }

  -- The signature in a request, if it passes over the request's base, is one of an issued request.
  -- The premise is on this one delivery: other messages may have signatures that pass.
  abbrev pub IsUnforged :
      (RequestParts → ClientPublicKey → ℤ → ℤ → Str → Type 0)
      → IncomingRequest
      → ClientPublicKey
      → Type 0
  IsUnforged Issued request key =
      (parameters : Str) (signature : Bytes)
      → request.signature_input ≡ input_layout parameters
      → IsSignatureHeader request.signature signature
      → verify_strict key.public_key (incoming_base request parameters) signature ≡ true
      → (p : RequestParts) × (k : ClientPublicKey) × (c : ℤ) × (e : ℤ) × (n : Str) × Issued p k c e
          n
        × (incoming_base request parameters
            ≡ base_bytes p k (content_digest p.body) (signature_parameters c e n k.key_id))

  -- If the signature that a request carries, when it passes under the verifier's key over the
  -- request's own base, is one over the base of an issued request, made out for whatever key, and
  -- issued requests are valid, then a valid request that verify_incoming accepts at an i64 clock
  -- has the method, authority, path, content type, request id, body digest and times of an issued
  -- one, and the answer names the service, the instance and the key that this one was made out for.
  pub authentic :
      UuidLaws
      → Base64Laws
      → Sha256Laws
      → (Issued : RequestParts → ClientPublicKey → ℤ → ℤ → Str → Type 0) (request : IncomingRequest)
        (key : ClientPublicKey) (now : ℤ) (v : VerifiedRequest)
      → ((p : RequestParts) (k : ClientPublicKey) (c e : ℤ) (n : Str)
          → Issued p k c e n
          → IsSigned p c e n)
      → IsUnforged Issued request key
      → IsValid request.parts
      → IsI64 now
      → verify_incoming request key now ≡ ok v
      → (p : RequestParts) × (k : ClientPublicKey) × (c : ℤ) × (e : ℤ) × (n : Str) × Issued p k c e
          n
        × Agrees request v p k c e
  authentic uuid base64 sha Issued request key now v issued unforged valid hn h =
      let a = (verify_incoming-ok_iff uuid request key now v hn).0 h in
      let (p, k, c, e, n, is, same) =
        unforged a.parameters a.signature a.input.layout a.signature_header a.verified in
      (
        p,
        k,
        c,
        e,
        n,
        is,
        bound uuid base64 sha request key now v a p k c e n valid (issued p k c e n is) same,
      )
