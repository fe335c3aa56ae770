-- ===== src/Verify/PanicFree.antt =====
-- src/verify.rs: `verify_incoming` in a build where overflow panics.
use infernal_client_rs.Common.{◌≡◌, ◌++◌, not, ◌||◌, list_eq, arith, and_then}
use infernal_client_rs.Common.Int.{ℤ, IsI64}
use infernal_client_rs.Common.Text.{Str, codes, utf8, strip_prefix, split_once}
use infernal_client_rs.Error.{ok, ok_or, refuse_if, invalid_request_part, invalid_signature}
use infernal_client_rs.Deps.{Deps}
use infernal_client_rs.Credential
use infernal_client_rs.Credential.{ClientPublicKey}
use infernal_client_rs.Panic.{Run, finished, ◌>>=◌, ◌>>◌, Gives, gives_rules}
use infernal_client_rs.Wire.{signature_label, covered_components, content_digest, signature_base}
use infernal_client_rs.Wire.PanicFree.{
  validate_signature_metadata_run, validate_signature_metadata_run-Gives,
}
use infernal_client_rs.Request.{target_uri}
use infernal_client_rs.Verify.{
  IncomingRequest, VerifiedRequest, SignatureMetadata, bad_signature_input, parse_timestamp,
  parse_signature_input, parse_signature, validate_signature_time, verify_incoming,
}
use infernal_client_rs.Verify.Timestamp.{parse_timestamp-ok_iff}

-- Only an i64 is read.
parse_timestamp-IsI64 : (s : Str) (t : ℤ) → parse_timestamp s ≡ ok t → IsI64 t
parse_timestamp-IsI64 s t h =
    let (_, _, fits, same) = (parse_timestamp-ok_iff s t).0 h in rw same (fits, omega arith)

module _ ⦃d : Deps⦄ where
  open d use {uuid_eq, uuid_parse}

  unfoldable pub parse_signature_input_run : Str → Run SignatureMetadata
  parse_signature_input_run value = do
    parameters ←
        finished (ok_or (strip_prefix value (signature_label ++ codes "=")) bad_signature_input)
    remainder ← finished (
        ok_or
          (and_then (strip_prefix parameters covered_components)
            λ v. strip_prefix v (codes ";created="))
          bad_signature_input)
    (created, remainder) ←
        finished (ok_or (split_once remainder (codes ";expires=")) bad_signature_input)
    (expires, remainder) ←
        finished (ok_or (split_once remainder (codes ";nonce=\"")) bad_signature_input)
    (nonce, remainder) ←
        finished (ok_or (split_once remainder (codes "\";keyid=\"")) bad_signature_input)
    (key_id, algorithm) ←
        finished (ok_or (split_once remainder (codes "\";alg=\"")) bad_signature_input)
    finished (refuse_if (not (list_eq algorithm (codes "ed25519\""))) bad_signature_input)
    created ← finished (parse_timestamp created)
    expires ← finished (parse_timestamp expires)
    validate_signature_metadata_run created expires nonce
    key_id ← finished (ok_or (uuid_parse key_id) bad_signature_input)
    finished (
        ok (record {
          parameters = parameters;
          created = created;
          expires = expires;
          key_id = key_id;
        }))

  unfoldable pub verify_incoming_run : IncomingRequest → ClientPublicKey → ℤ → Run VerifiedRequest
  verify_incoming_run request public_key now = do
    finished (
        refuse_if
          (not (uuid_eq request.service_id public_key.service_id)
            || not (uuid_eq request.instance_id public_key.instance_id))
          (invalid_request_part (codes "service_id")))
    metadata ← parse_signature_input_run request.signature_input
    finished (
        refuse_if (not (uuid_eq metadata.key_id public_key.key_id))
          (invalid_request_part (codes "key_id")))
    finished (validate_signature_time metadata.created metadata.expires now)
    let expected_digest = content_digest request.parts.body
    finished (refuse_if (not (list_eq expected_digest request.content_digest)) invalid_signature)
    signature ← finished (parse_signature request.signature)
    let base =
        signature_base request.parts.method (target_uri request.parts) request.content_digest
          request.parts.content_type request.service_id request.instance_id request.parts.request_id
          metadata.parameters
    finished (Credential.verify public_key.public_key (utf8 base) signature)
    finished (
        ok (record {
          service_id = request.service_id;
          instance_id = request.instance_id;
          key_id = metadata.key_id;
          request_id = request.parts.request_id;
          created = metadata.created;
          expires = metadata.expires;
        }))

  ruleset parse_rules = (gives_rules, validate_signature_metadata_run-Gives, parse_timestamp-IsI64)

  parse_signature_input_run-Gives :
      (value : Str) → Gives (parse_signature_input_run value) (parse_signature_input value)
  unfolding parse_signature_input_run parse_signature_input
  parse_signature_input_run-Gives value = search parse_rules depth 20

  verify_incoming_run-Gives :
      (request : IncomingRequest) (public_key : ClientPublicKey) (now : ℤ)
      → Gives (verify_incoming_run request public_key now) (verify_incoming request public_key now)
  unfolding verify_incoming_run verify_incoming
  verify_incoming_run-Gives request public_key now =
      search (gives_rules, parse_signature_input_run-Gives) depth 20

  -- Whatever the request, the key and the clock, verifying does not panic, even in a build where
  -- overflow does; it gives what it gives in a build where overflow is silent.
  pub verify_incoming_run_lem :
      (request : IncomingRequest) (public_key : ClientPublicKey) (now : ℤ)
      → verify_incoming_run request public_key now
        ≡ finished (verify_incoming request public_key now)
  verify_incoming_run_lem request public_key now =
      (verify_incoming_run-Gives request public_key now).ends
