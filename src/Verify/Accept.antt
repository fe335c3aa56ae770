-- ===== src/Verify/Accept.antt =====
-- src/verify.rs: what `verify_incoming` accepts, and what it then attests to.
use infernal_client_rs.Common.{
  ◌≡◌, ◌↔◌, refl, sym, ◌∙◌, ap, true, false, not, ◌||◌, list_eq, list_eq_iff, arith,
}
use mathlib.Core.Path.{subst}
use infernal_client_rs.Common.Int.{ℤ, pos, ◌≤ℤ◌, ◌+ℤ◌, IsI64}
use infernal_client_rs.Common.Text.{Bytes, Str, utf8}
use infernal_client_rs.Error.{ok, >>=-eq-ok, refuse_if->>-eq-ok, ok-injective}
use infernal_client_rs.Deps.{Deps, UuidLaws}
use infernal_client_rs.Credential
use infernal_client_rs.Credential.{ClientPublicKey}
use infernal_client_rs.Wire.{signature_base, content_digest}
use infernal_client_rs.Request.{target_uri}
use infernal_client_rs.Verify.{
  IncomingRequest, VerifiedRequest, SignatureMetadata, verify_incoming, parse_signature_input,
  parse_signature, validate_signature_time,
}
use infernal_client_rs.Verify.Input.{
  IsSignatureInput, input_times, parse_signature_input_sound, parse_signature_input_complete,
}
use infernal_client_rs.Verify.Signature.{IsSignatureHeader, parse_signature-ok_iff}
use infernal_client_rs.Verify.Timestamp.{validate_signature_time-ok_iff}

module _ ⦃d : Deps⦄ where
  open d use {Uuid, uuid_eq, key_from_bytes, verify_strict}

  -- The bytes whose signature is checked
  abbrev pub incoming_base : IncomingRequest → Str → Bytes
  incoming_base request parameters = utf8 (
      signature_base request.parts.method (target_uri request.parts) request.content_digest
        request.parts.content_type request.service_id request.instance_id request.parts.request_id
        parameters)

  -- `request` carries a signature by `key` that is fresh at `now`; `v` is what it attests to.
  pub record Attests (request : IncomingRequest) (key : ClientPublicKey) (now : ℤ)
      (v : VerifiedRequest) : Type 0 where
    pub parameters : Str
    pub signature : Bytes
    pub same_service : (request.service_id ≡ key.service_id) × (v.service_id ≡ key.service_id)
    pub same_instance : (request.instance_id ≡ key.instance_id) × (v.instance_id ≡ key.instance_id)
    pub same_key : v.key_id ≡ key.key_id
    pub same_request : v.request_id ≡ request.parts.request_id
    pub input : IsSignatureInput request.signature_input (record {
      parameters = parameters;
      created = v.created;
      expires = v.expires;
      key_id = v.key_id;
    })
    pub fresh : (pos 0 ≤ℤ now) × (v.created ≤ℤ now +ℤ pos 5) × (now ≤ℤ v.expires +ℤ pos 5)
    pub digest : request.content_digest ≡ content_digest request.parts.body
    pub signature_header : IsSignatureHeader request.signature signature
    pub valid_key : key_from_bytes key.public_key ≡ true
    pub verified : verify_strict key.public_key (incoming_base request parameters) signature ≡ true

  pub verify-ok_iff :
      (key message signature : Bytes)
      → (Credential.verify key message signature ≡ ok tt)
        ↔ ((key_from_bytes key ≡ true) × (verify_strict key message signature ≡ true))
  unfolding Credential.verify
  verify-ok_iff key message signature = (λ h. ground arith, λ h. ground arith)

  attested : IncomingRequest → SignatureMetadata → VerifiedRequest
  attested request m = record {
    service_id = request.service_id;
    instance_id = request.instance_id;
    key_id = m.key_id;
    request_id = request.parts.request_id;
    created = m.created;
    expires = m.expires;
  }

  -- Every step of a verification that succeeds
  steps :
      (request : IncomingRequest) (key : ClientPublicKey) (now : ℤ) (v : VerifiedRequest)
      → verify_incoming request key now ≡ ok v
      → (m : SignatureMetadata) × (b : Bytes) × ((not (uuid_eq request.service_id key.service_id)
            || not (uuid_eq request.instance_id key.instance_id))
          ≡ false)
        × (parse_signature_input request.signature_input ≡ ok m)
        × (not (uuid_eq m.key_id key.key_id) ≡ false)
        × (validate_signature_time m.created m.expires now ≡ ok tt)
        × (not (list_eq (content_digest request.parts.body) request.content_digest) ≡ false)
        × (parse_signature request.signature ≡ ok b)
        × (Credential.verify key.public_key (incoming_base request m.parameters) b ≡ ok tt)
        × (ok (attested request m) ≡ ok v)
  unfolding verify_incoming attested
  steps request key now v h =
      let (h0, k0) =
        refuse_if->>-eq-ok
          (not (uuid_eq request.service_id key.service_id)
            || not (uuid_eq request.instance_id key.instance_id))
          _ _ h in
      let (m, h1, k1) = >>=-eq-ok (parse_signature_input request.signature_input) _ k0 in
      let (h2, k2) = refuse_if->>-eq-ok (not (uuid_eq m.key_id key.key_id)) _ _ k1 in
      let (_, h3, k3) = >>=-eq-ok (validate_signature_time m.created m.expires now) _ k2 in
      let (h4, k4) =
        refuse_if->>-eq-ok
          (not (list_eq (content_digest request.parts.body) request.content_digest)) _ _ k3 in
      let (b, h5, k5) = >>=-eq-ok (parse_signature request.signature) _ k4 in
      let (_, h6, k6) =
        >>=-eq-ok (Credential.verify key.public_key (incoming_base request m.parameters) b) _ k5 in
      (m, b, h0, h1, h2, h3, h4, h5, h6, k6)

  module _ (laws : UuidLaws) where
    same_of_test : (u w : Uuid) → uuid_eq u w ≡ true → u ≡ w
    same_of_test u w h = (laws.uuid_eq_iff u w).0 h

  attests :
      UuidLaws
      → (request : IncomingRequest) (key : ClientPublicKey) (now : ℤ) (m : SignatureMetadata)
        (b : Bytes)
      → IsI64 now
      → ((not (uuid_eq request.service_id key.service_id)
            || not (uuid_eq request.instance_id key.instance_id))
          ≡ false)
      → parse_signature_input request.signature_input ≡ ok m
      → not (uuid_eq m.key_id key.key_id) ≡ false
      → validate_signature_time m.created m.expires now ≡ ok tt
      → not (list_eq (content_digest request.parts.body) request.content_digest) ≡ false
      → parse_signature request.signature ≡ ok b
      → Credential.verify key.public_key (incoming_base request m.parameters) b ≡ ok tt
      → Attests request key now (attested request m)
  unfolding attested
  attests laws request key now m b hn h0 h1 h2 h3 h4 h5 h6 =
      let input = parse_signature_input_sound request.signature_input m h1 in
      let service = same_of_test laws request.service_id key.service_id (ground arith) in
      let instance_ = same_of_test laws request.instance_id key.instance_id (ground arith) in
      let times = input_times request.signature_input m input in
      record {
        parameters = m.parameters;
        signature = b;
        same_service = (service, service);
        same_instance = (instance_, instance_);
        same_key = same_of_test laws m.key_id key.key_id (ground arith);
        same_request = refl;
        input = input;
        fresh = (validate_signature_time-ok_iff m.created m.expires now times.0 times.1 hn).0 h3;
        digest = sym (
            (list_eq_iff (content_digest request.parts.body) request.content_digest).0
              (ground arith));
        signature_header = (parse_signature-ok_iff request.signature b).0 h5;
        valid_key = ((verify-ok_iff key.public_key _ b).0 h6).0;
        verified = ((verify-ok_iff key.public_key _ b).0 h6).1;
      }

  -- Whatever `verify_incoming` accepts attests to what it returns.
  verify_incoming_sound :
      UuidLaws
      → (request : IncomingRequest) (key : ClientPublicKey) (now : ℤ) (v : VerifiedRequest)
      → IsI64 now
      → verify_incoming request key now ≡ ok v
      → Attests request key now v
  unfolding attested
  verify_incoming_sound laws request key now v hn h =
      let (m, b, h0, h1, h2, h3, h4, h5, h6, e) = steps request key now v h in
      let same : attested request m ≡ v = ok-injective e in
      subst (Attests request key now) same
        (attests laws request key now m b hn h0 h1 h2 h3 h4 h5 h6)

  verified_eq :
      (request : IncomingRequest) (key : ClientPublicKey) (now : ℤ) (v : VerifiedRequest)
      (a : Attests request key now v)
      → record {
        service_id = request.service_id;
        instance_id = request.instance_id;
        key_id = v.key_id;
        request_id = request.parts.request_id;
        created = v.created;
        expires = v.expires;
      }
        ≡ v
  verified_eq request key now v a = λ i. record {
    service_id = (a.same_service.0 ∙ sym a.same_service.1) i;
    instance_id = (a.same_instance.0 ∙ sym a.same_instance.1) i;
    key_id = v.key_id;
    request_id = sym a.same_request i;
    created = v.created;
    expires = v.expires;
  }

  -- Nothing that attests is refused.
  verify_incoming_complete :
      UuidLaws
      → (request : IncomingRequest) (key : ClientPublicKey) (now : ℤ) (v : VerifiedRequest)
      → IsI64 now
      → Attests request key now v
      → verify_incoming request key now ≡ ok v
  unfolding verify_incoming
  verify_incoming_complete laws request key now v hn a =
      let service = (laws.uuid_eq_iff request.service_id key.service_id).1 a.same_service.0 in
      let instance_ = (laws.uuid_eq_iff request.instance_id key.instance_id).1 a.same_instance.0 in
      let same_key = (laws.uuid_eq_iff v.key_id key.key_id).1 a.same_key in
      let times = input_times request.signature_input _ a.input in
      let digest =
        (list_eq_iff (content_digest request.parts.body) request.content_digest).1 (sym a.digest) in
      rw
        (
          service,
          instance_,
          parse_signature_input_complete laws request.signature_input _ a.input,
          same_key,
          (validate_signature_time-ok_iff v.created v.expires now times.0 times.1 hn).1 a.fresh,
          digest,
          (parse_signature-ok_iff request.signature a.signature).1 a.signature_header,
          (verify-ok_iff key.public_key (incoming_base request a.parameters) a.signature).1
              (a.valid_key, a.verified),
        )
        (ap ok (verified_eq request key now v a))

  -- verify_incoming accepts a request with a given answer exactly when the request attests to it:
  -- the ids are the key's, the header Signature-Input is a layout of valid metadata that is fresh,
  -- the digest is the body's, the header Signature is the label around an encoding of 64 bytes, and
  -- these, as a signature over the signature base of exactly these parts, pass verify_strict under
  -- a valid key.
  pub verify_incoming-ok_iff :
      UuidLaws
      → (request : IncomingRequest) (key : ClientPublicKey) (now : ℤ) (v : VerifiedRequest)
      → IsI64 now
      → (verify_incoming request key now ≡ ok v) ↔ Attests request key now v
  verify_incoming-ok_iff laws request key now v hn = (
    verify_incoming_sound laws request key now v hn,
    verify_incoming_complete laws request key now v hn,
  )
