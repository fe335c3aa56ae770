-- ===== src/Verify/Refuse/Order.antt =====
-- src/verify.rs: `verify_incoming` gives the error of the first check that fails.
use infernal_client_rs.Common.{◌≡◌, ◌↔◌, inl, inr, sym, ◌∙◌, not, ◌||◌, list_eq}
use infernal_client_rs.Common.Int.{ℤ, IsI64}
use infernal_client_rs.Common.Text.{codes}
use infernal_client_rs.Error.{
  Result, ok, err, ClientError, FailsWith-err_iff, invalid_request_part, invalid_signature,
  >>=-eq-err, refuse_if->>-eq-err, err-ne-ok, refuse_if, ◌>>=◌, ◌>>◌,
}
use infernal_client_rs.Deps.{Deps, UuidLaws}
use infernal_client_rs.Credential
use infernal_client_rs.Credential.{ClientPublicKey}
use infernal_client_rs.Wire.{content_digest}
use infernal_client_rs.Verify.{
  IncomingRequest, VerifiedRequest, SignatureMetadata, verify_incoming, parse_signature_input,
  parse_signature, validate_signature_time,
}
use infernal_client_rs.Verify.Input.{
  IsSignatureInput, parse_signature_input_sound, parse_signature_input_complete,
}
use infernal_client_rs.Verify.Signature.{parse_signature-ok_iff, parse_signature-err_iff}
use infernal_client_rs.Verify.Malformed.{parse_signature_input-err_iff}
use infernal_client_rs.Verify.Accept.{incoming_base}
use infernal_client_rs.Verify.Refuse.{
  IsFresh, IsSigner, IsOfKey, Refuses, other_signer, bad_input, other_key, stale, other_body,
  bad_signature, bad_key, forged,
}
use infernal_client_rs.Verify.Refuse.Checks.{
  validate_signature_time-FailsWith, true→not, not→true, IsSigner-iff, key_iff, digest_iff,
  IsFresh-iff, verify-eq-err,
}

module _ ⦃d : Deps⦄ where
  open d use {uuid_eq, key_from_bytes, verify_strict}

  module _ (laws : UuidLaws) (request : IncomingRequest) (key : ClientPublicKey) (now : ℤ)
      (e : ClientError) (hn : IsI64 now) where
    -- The checks that come after those of the header `Signature-Input`
    abbrev check_rest : SignatureMetadata → Result VerifiedRequest
    check_rest m = do
      refuse_if (not (list_eq (content_digest request.parts.body) request.content_digest))
          invalid_signature
      signature ← parse_signature request.signature
      Credential.verify key.public_key (incoming_base request m.parameters) signature
      ok (record {
        service_id = request.service_id;
        instance_id = request.instance_id;
        key_id = m.key_id;
        request_id = request.parts.request_id;
        created = m.created;
        expires = m.expires;
      })

    check_rest-eq-err :
        (m : SignatureMetadata)
        → IsSigner request key
        → IsOfKey request key m
        → IsFresh m.created m.expires now
        → check_rest m ≡ err e
        → Refuses request key now e
    check_rest-eq-err m signer of_key fresh h =
        elim (refuse_if->>-eq-err
          (not (list_eq (content_digest request.parts.body) request.content_digest))
          invalid_signature _ h) [
            | inl (t, x) ↦ other_body m signer of_key fresh (true→not _ (digest_iff request) t) x
            | inr (t, h1) ↦
                let digest = (digest_iff request).0 t in
                elim (>>=-eq-err (parse_signature request.signature) _ h1) [
                  | inl x ↦
                      let (none_there, same) = (parse_signature-err_iff request.signature e).0 x in
                      bad_signature m signer of_key fresh digest none_there same
                  | inr (b, hb', h2) ↦
                      let hb = (parse_signature-ok_iff request.signature b).0 hb' in
                      elim (>>=-eq-err
                        (Credential.verify key.public_key (incoming_base request m.parameters) b) _
                        h2) [
                          | inr (_, _, h3) ↦ absurd (err-ne-ok _ _ (sym h3))
                          | inl x ↦ elim (verify-eq-err _ _ _ x) [
                            | inl (k, ex) ↦ bad_key m b signer of_key fresh digest hb k ex
                            | inr (k, f, ex) ↦ forged m b signer of_key fresh digest hb k f ex
                          ]
                        ]
                ]
          ]

    verify_incoming-eq-err : verify_incoming request key now ≡ err e → Refuses request key now e
    unfolding verify_incoming
    verify_incoming-eq-err h =
        elim (refuse_if->>-eq-err
          (not (uuid_eq request.service_id key.service_id)
            || not (uuid_eq request.instance_id key.instance_id))
          _ _ h) [
            | inl (t, x) ↦ other_signer (true→not _ (IsSigner-iff laws request key) t) x
            | inr (t, h1) ↦
                let signer = (IsSigner-iff laws request key).0 t in
                elim (>>=-eq-err (parse_signature_input request.signature_input) _ h1) [
                  | inl x ↦
                      bad_input signer
                        ((parse_signature_input-err_iff request.signature_input e).0 x)
                  | inr (m, hm, h2) ↦
                      let input = parse_signature_input_sound request.signature_input m hm in
                      elim (refuse_if->>-eq-err (not (uuid_eq m.key_id key.key_id)) _ _ h2) [
                        | inl (k, x) ↦
                            other_key m signer input (true→not _ (key_iff laws request key m) k) x
                        | inr (k, h3) ↦
                            let same = (key_iff laws request key m).0 k in
                            let fresh = IsFresh-iff request.signature_input m now input hn in
                            elim (>>=-eq-err (validate_signature_time m.created m.expires now) _
                              h3) [
                                | inl x ↦
                                    stale m signer (input, same)
                                      (λ f. err-ne-ok _ _ (sym x ∙ fresh.1 f))
                                      ((validate_signature_time-FailsWith _ _ _).only e x)
                                | inr (_, f, h4) ↦
                                    check_rest-eq-err m signer (input, same) (fresh.0 f) h4
                              ]
                      ]
                ]
          ]

    -- The header of this key, at a time when it is fresh, is no reason to refuse.
    past_times :
        (m : SignatureMetadata)
        → IsSigner request key
        → IsOfKey request key m
        → IsFresh m.created m.expires now
        → verify_incoming request key now ≡ check_rest m
    unfolding verify_incoming
    past_times m signer (input, same) fresh = rw (
      (IsSigner-iff laws request key).1 signer,
      parse_signature_input_complete laws request.signature_input m input,
      (key_iff laws request key m).1 same,
      (IsFresh-iff request.signature_input m now input hn).1 fresh,
    )

    stale-eq :
        (m : SignatureMetadata)
        → IsSignatureInput request.signature_input m
        → ¬ IsFresh m.created m.expires now
        → validate_signature_time m.created m.expires now
          ≡ err (invalid_request_part (codes "freshness"))
    stale-eq m input n =
        (FailsWith-err_iff _ (validate_signature_time m.created m.expires now)
            (validate_signature_time-FailsWith _ _ _)
            (λ _. IsFresh-iff request.signature_input m now input hn)).1
          (λ (_, f). n f)

    Refuses-eq : Refuses request key now e → verify_incoming request key now ≡ err e
    unfolding verify_incoming Credential.verify
    Refuses-eq (other_signer n x) = rw (not→true _ (IsSigner-iff laws request key) n, x)
    Refuses-eq (bad_input signer x) = rw (
      (IsSigner-iff laws request key).1 signer,
      (parse_signature_input-err_iff request.signature_input e).1 x,
    )
    Refuses-eq (other_key m signer input n x) = rw (
      (IsSigner-iff laws request key).1 signer,
      parse_signature_input_complete laws request.signature_input m input,
      not→true _ (key_iff laws request key m) n,
      x,
    )
    Refuses-eq (stale m signer (input, same) n x) = rw (
      (IsSigner-iff laws request key).1 signer,
      parse_signature_input_complete laws request.signature_input m input,
      (key_iff laws request key m).1 same,
      stale-eq m input n,
      x,
    )
    Refuses-eq (other_body m signer of_key fresh n x) =
        past_times m signer of_key fresh ∙ rw (not→true _ (digest_iff request) n, x)
    Refuses-eq (bad_signature m signer of_key fresh digest n x) =
        past_times m signer of_key fresh
        ∙ rw ((digest_iff request).1 digest, (parse_signature-err_iff request.signature e).1 (n, x))
    Refuses-eq (bad_key m b signer of_key fresh digest hb k x) =
        past_times m signer of_key fresh
        ∙ rw
            ((digest_iff request).1 digest, (parse_signature-ok_iff request.signature b).1 hb, k, x)
    Refuses-eq (forged m b signer of_key fresh digest hb k f x) =
        past_times m signer of_key fresh
        ∙ rw (
          (digest_iff request).1 digest,
          (parse_signature-ok_iff request.signature b).1 hb,
          k,
          f,
          x,
        )

  -- At an i64 clock, verify_incoming fails with the error e exactly when the request fails its
  -- first check with e, in this order: the ids are the key's, the header Signature-Input is
  -- readable, it names the key, it is fresh, the digest is the body's, the header Signature is the
  -- label around an encoding of 64 bytes, the key is valid, and the signature passes.
  pub verify_incoming-err_iff :
      UuidLaws
      → (request : IncomingRequest) (key : ClientPublicKey) (now : ℤ) (e : ClientError) → IsI64 now
      → (verify_incoming request key now ≡ err e) ↔ Refuses request key now e
  verify_incoming-err_iff laws request key now e hn =
      (verify_incoming-eq-err laws request key now e hn, Refuses-eq laws request key now e hn)
