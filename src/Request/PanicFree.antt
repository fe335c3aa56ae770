-- ===== src/Request/PanicFree.antt =====
-- src/request.rs: signing in a build where overflow panics.
use infernal_client_rs.Common.{◌≡◌, [], ◌∷◌}
use infernal_client_rs.Common.Int.{ℤ, IsI64}
use infernal_client_rs.Common.Text.{Bytes, Str, codes, format}
use infernal_client_rs.Error.{ok}
use infernal_client_rs.Deps.{Deps}
use infernal_client_rs.Credential.{ClientPublicKey}
use infernal_client_rs.Panic.{Run, finished, ◌>>◌, Gives, gives_rules}
use infernal_client_rs.Wire.{
  signature_label, content_digest, signature_parameters, encode_signature,
}
use infernal_client_rs.Wire.PanicFree.{
  validate_signature_metadata_run, validate_signature_metadata_run-Gives,
}
use infernal_client_rs.Request.{RequestParts, SignedRequest, base_bytes, sign_with}

module _ ⦃d : Deps⦄ where
  unfoldable pub sign_with_run :
      RequestParts → ClientPublicKey → ℤ → ℤ → Str → (Bytes → Bytes) → Run SignedRequest
  sign_with_run parts public_key created expires nonce signer = do
    validate_signature_metadata_run created expires nonce
    let digest = content_digest parts.body
    let parameters = signature_parameters created expires nonce public_key.key_id
    let signature = signer (base_bytes parts public_key digest parameters)
    finished (
        ok (record {
          parts = parts;
          service_id = public_key.service_id;
          instance_id = public_key.instance_id;
          content_digest = digest;
          signature_input = format (signature_label ∷ codes "=" ∷ parameters ∷ []);
          signature = encode_signature signature;
        }))

  sign_with_run-Gives :
      (parts : RequestParts) (key : ClientPublicKey) (created expires : ℤ) (nonce : Str)
      (signer : Bytes → Bytes)
      → IsI64 created
      → IsI64 expires
      → Gives
          (sign_with_run parts key created expires nonce signer)
          (sign_with parts key created expires nonce signer)
  unfolding sign_with_run sign_with
  sign_with_run-Gives parts key created expires nonce signer hc he =
      search (gives_rules, validate_signature_metadata_run-Gives)

  -- On any i64 times, signing does not panic, even in a build where overflow does; it gives what it
  -- gives in a build where overflow is silent.
  pub sign_with_run_lem :
      (parts : RequestParts) (key : ClientPublicKey) (created expires : ℤ) (nonce : Str)
      (signer : Bytes → Bytes)
      → IsI64 created
      → IsI64 expires
      → sign_with_run parts key created expires nonce signer
        ≡ finished (sign_with parts key created expires nonce signer)
  sign_with_run_lem parts key created expires nonce signer hc he =
      (sign_with_run-Gives parts key created expires nonce signer hc he).ends
