-- ===== src/Verify/Refuse.antt =====
-- src/verify.rs: in what order `verify_incoming` refuses a request, and with which error.
pub mod Checks
pub mod Order
use infernal_client_rs.Common.{
  ◌≡◌, ◌≢◌, ◌↔◌, ◌⊎◌, inl, inr, refl, sym, ◌∙◌, ap, Bool, true, false, not, ◌||◌, list_eq,
  list_eq_iff, arith, true_of_not, false_of_not, Bool-cases,
}
use infernal_client_rs.Common.Int.{ℤ, pos, ◌≤ℤ◌, ◌+ℤ◌, IsI64}
use infernal_client_rs.Common.Text.{Bytes, Str, codes, utf8}
use infernal_client_rs.Error.{
  Result, ok, err, ClientError, FailsWith, FailsWith-err_iff, refuse_if-FailsWith,
  invalid_request_part, invalid_public_key, invalid_signature, >>=-eq-err, refuse_if->>-eq-err,
  err-ne-ok, refuse_if, ◌>>=◌, ◌>>◌,
}
use infernal_client_rs.Deps.{Deps, UuidLaws}
use infernal_client_rs.Credential
use infernal_client_rs.Credential.{ClientPublicKey}
use infernal_client_rs.Wire.{content_digest}
use infernal_client_rs.Verify.{
  IncomingRequest, VerifiedRequest, SignatureMetadata, verify_incoming, parse_signature_input,
  parse_signature, validate_signature_time,
}
use infernal_client_rs.Verify.Input.{
  IsSignatureInput, input_times, parse_signature_input_sound, parse_signature_input_complete,
}
use infernal_client_rs.Verify.Timestamp.{validate_signature_time-ok_iff}
use infernal_client_rs.Verify.Signature.{IsSignatureHeader}
use infernal_client_rs.Verify.Malformed.{Unreadable}
use infernal_client_rs.Verify.Accept.{incoming_base}

-- Within 5 seconds of the time of creation and of expiry
abbrev pub IsFresh : ℤ → ℤ → ℤ → Type 0
IsFresh created expires now = (pos 0 ≤ℤ now) × (created ≤ℤ now +ℤ pos 5) × (now ≤ℤ expires +ℤ pos 5)

module _ ⦃d : Deps⦄ where
  open d use {uuid_eq, key_from_bytes, verify_strict}

  -- The ids on the wire are the key's.
  abbrev pub IsSigner : IncomingRequest → ClientPublicKey → Type 0
  IsSigner request key =
      (request.service_id ≡ key.service_id) × (request.instance_id ≡ key.instance_id)

  -- The header `Signature-Input` holds metadata `m` of this key.
  abbrev pub IsOfKey : IncomingRequest → ClientPublicKey → SignatureMetadata → Type 0
  IsOfKey request key m = IsSignatureInput request.signature_input m × (m.key_id ≡ key.key_id)

  abbrev pub HasDigest : IncomingRequest → Type 0
  HasDigest request = request.content_digest ≡ content_digest request.parts.body

  -- `request` fails its first check with the error `e`, and has passed the ones before it.
  pub data Refuses (request : IncomingRequest) (key : ClientPublicKey) (now : ℤ) (e : ClientError)
      : Type 0 where
    other_signer :
        ¬ IsSigner request key
        → e ≡ invalid_request_part (codes "service_id")
        → Refuses request key now e
    bad_input :
        IsSigner request key → Unreadable request.signature_input e → Refuses request key now e
    other_key :
        (m : SignatureMetadata)
        → IsSigner request key
        → IsSignatureInput request.signature_input m
        → m.key_id ≢ key.key_id
        → e ≡ invalid_request_part (codes "key_id")
        → Refuses request key now e
    stale :
        (m : SignatureMetadata)
        → IsSigner request key
        → IsOfKey request key m
        → ¬ IsFresh m.created m.expires now
        → e ≡ invalid_request_part (codes "freshness")
        → Refuses request key now e
    other_body :
        (m : SignatureMetadata)
        → IsSigner request key
        → IsOfKey request key m
        → IsFresh m.created m.expires now
        → ¬ HasDigest request
        → e ≡ invalid_signature
        → Refuses request key now e
    bad_signature :
        (m : SignatureMetadata)
        → IsSigner request key
        → IsOfKey request key m
        → IsFresh m.created m.expires now
        → HasDigest request
        → ¬ ((signature : Bytes) × IsSignatureHeader request.signature signature)
        → e ≡ invalid_request_part (codes "signature")
        → Refuses request key now e
    bad_key :
        (m : SignatureMetadata) (signature : Bytes)
        → IsSigner request key
        → IsOfKey request key m
        → IsFresh m.created m.expires now
        → HasDigest request
        → IsSignatureHeader request.signature signature
        → key_from_bytes key.public_key ≡ false
        → e ≡ invalid_public_key
        → Refuses request key now e
    forged :
        (m : SignatureMetadata) (signature : Bytes)
        → IsSigner request key
        → IsOfKey request key m
        → IsFresh m.created m.expires now
        → HasDigest request
        → IsSignatureHeader request.signature signature
        → key_from_bytes key.public_key ≡ true
        → verify_strict key.public_key (incoming_base request m.parameters) signature ≡ false
        → e ≡ invalid_signature
        → Refuses request key now e
