-- ===== src/Request.antt =====
-- src/request.rs: the parts of a request, their validation, and a request signed over them. The
-- accessors of `RequestParts` and `SignedRequest` are the fields.
pub mod Parts
pub mod PanicFree
pub mod Signing
pub mod Nonce
pub mod Headers
use infernal_client_rs.Common.{
  ℕ, ◌≡◌, ◌∷◌, [], List, Bool, true, false, not, ◌&&◌, ◌||◌, Option, is_empty, all, any, ◌==◌,
}
use infernal_client_rs.Common.Int.{ℤ}
use infernal_client_rs.Common.Text.{
  Bytes, Str, codes, format, utf8, starts_with, contains, is_ascii_uppercase,
}
use infernal_client_rs.Error.{
  Result, ok, err, ◌>>=◌, ◌>>◌, refuse_if, ok_or, invalid_request_part, random_source,
}
use infernal_client_rs.Deps.{Deps}
use infernal_client_rs.Credential
use infernal_client_rs.Credential.{ClientPublicKey, ClientCredential}
use infernal_client_rs.Wire.{
  signature_label, valid_uri_value, valid_header_value, validate_signature_metadata,
  signature_parameters, signature_base, content_digest, encode_signature,
}

-- The bytes that an authority may not hold
abbrev pub is_authority_delimiter : ℕ → Bool
is_authority_delimiter byte = byte == b'/' || byte == b'@' || byte == b'?' || byte == b'#'

module _ ⦃d : Deps⦄ where
  open d use {Uuid, uuid_to_string, url_safe_encode}

  pub record RequestParts : Type 0 where
    pub method : Str
    pub authority : Str
    pub path_and_query : Str
    pub content_type : Str
    pub body : Bytes
    pub request_id : Uuid

  unfoldable pub new : Str → Str → Str → Str → Bytes → Uuid → Result RequestParts
  new method authority path_and_query content_type body request_id = do
    refuse_if (is_empty method || not (all is_ascii_uppercase (utf8 method)))
        (invalid_request_part (codes "method"))
    refuse_if (not (valid_uri_value authority) || any is_authority_delimiter (utf8 authority))
        (invalid_request_part (codes "authority"))
    refuse_if
        (not (starts_with path_and_query (codes "/"))
          || contains path_and_query b'#'
          || not (valid_uri_value path_and_query))
        (invalid_request_part (codes "path_and_query"))
    refuse_if (not (valid_header_value content_type)) (invalid_request_part (codes "content_type"))
    ok (record {
      method = method;
      authority = authority;
      path_and_query = path_and_query;
      content_type = content_type;
      body = body;
      request_id = request_id;
    })

  unfoldable pub target_uri : RequestParts → Str
  target_uri parts = format (codes "https://" ∷ parts.authority ∷ parts.path_and_query ∷ [])

  pub record SignedRequest : Type 0 where
    pub parts : RequestParts
    pub service_id : Uuid
    pub instance_id : Uuid
    pub content_digest : Str
    pub signature_input : Str
    pub signature : Str

  -- The bytes that `sign_with` hands to the signer.
  abbrev pub base_bytes : RequestParts → ClientPublicKey → Str → Str → Bytes
  base_bytes parts public_key digest parameters = utf8 (
      signature_base parts.method (target_uri parts) digest parts.content_type public_key.service_id
        public_key.instance_id parts.request_id parameters)

  -- `signer` is the caller's closure.
  unfoldable pub sign_with :
      RequestParts → ClientPublicKey → ℤ → ℤ → Str → (Bytes → Bytes) → Result SignedRequest
  sign_with parts public_key created expires nonce signer = do
    validate_signature_metadata created expires nonce
    let digest = content_digest parts.body
    let parameters = signature_parameters created expires nonce public_key.key_id
    let signature = signer (base_bytes parts public_key digest parameters)
    ok (record {
      parts = parts;
      service_id = public_key.service_id;
      instance_id = public_key.instance_id;
      content_digest = digest;
      signature_input = format (signature_label ∷ codes "=" ∷ parameters ∷ []);
      signature = encode_signature signature;
    })

  unfoldable pub sign : RequestParts → ClientCredential → ℤ → ℤ → Str → Result SignedRequest
  unfolding sign_with
  sign parts credential created expires nonce =
      sign_with parts credential.public_key created expires nonce
        (λ message. Credential.sign credential message)

  unfoldable pub headers : SignedRequest → List (Str × Str)
  headers request =
      (codes "Content-Type", request.parts.content_type)
      ∷ (codes "Content-Digest", request.content_digest)
      ∷ (codes "Infernal-Service-Id", uuid_to_string request.service_id)
      ∷ (codes "Infernal-Instance-Id", uuid_to_string request.instance_id)
      ∷ (codes "Infernal-Request-Id", uuid_to_string request.parts.request_id)
      ∷ (codes "Signature-Input", request.signature_input)
      ∷ (codes "Signature", request.signature)
      ∷ []

  -- `fill n` is what the random source answers to a request for `n` bytes.
  unfoldable pub generate_nonce : (ℕ → Option Bytes) → Result Str
  generate_nonce fill = do bytes ← ok_or (fill 24) random_source; ok (url_safe_encode bytes)
