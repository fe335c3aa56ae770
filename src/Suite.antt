-- ===== src/Suite.antt =====
-- The crate's own tests (`mod tests` of each file), as functions: a test takes what it draws at
-- random as arguments and gives whether all its assertions hold; an `unwrap` that would panic is
-- the error. The lemma named after a test says for which draws it passes.
pub mod Texts
pub mod Credential
pub mod Request
pub mod Verify
pub mod Enrollment
pub mod KernelIdentity
pub mod Transport
mod Sockets
use infernal_client_rs.Common.{Bool, true, false, ◌&&◌, list_eq}
use infernal_client_rs.Error.{
  Result, ok, err, EnrollmentRejection, ClientError, invalid_request_part, invalid_public_key,
  invalid_signature, random_source, transport, malformed_kernel_identity, invalid_trust_anchor,
  enrollment_rejected, malformed_enrollment_response,
}

-- `PartialEq for EnrollmentRejection` and `PartialEq for ClientError`, both derived
unfoldable pub rejection_eq : EnrollmentRejection → EnrollmentRejection → Bool
rejection_eq r r' = list_eq r.code r'.code && list_eq r.message r'.message

unfoldable pub error_eq : ClientError → ClientError → Bool
error_eq (invalid_request_part field) (invalid_request_part field') = list_eq field field'
error_eq invalid_public_key invalid_public_key = true
error_eq invalid_signature invalid_signature = true
error_eq random_source random_source = true
error_eq (transport message) (transport message') = list_eq message message'
error_eq malformed_kernel_identity malformed_kernel_identity = true
error_eq invalid_trust_anchor invalid_trust_anchor = true
error_eq (enrollment_rejected r) (enrollment_rejected r') = rejection_eq r r'
error_eq malformed_enrollment_response malformed_enrollment_response = true
error_eq _ _ = false

-- `assert_eq!(result, Err(e))`
unfoldable pub fails_with {ℓ} : {A : Type ℓ} → Result A → ClientError → Bool
fails_with (ok a) e = false
fails_with (err e') e = error_eq e' e

-- `assert!(result.is_ok())`
unfoldable pub is_ok {ℓ} : {A : Type ℓ} → Result A → Bool
is_ok (ok a) = true
is_ok (err e) = false
