-- ===== src/Error/Text.antt =====
-- src/error.rs: what the text of an error tells about it.
use infernal_client_rs.Common.{
  ◌≡◌, ◌↔◌, refl, sym, ap, ◌∙◌, [], Option, none, some, list_eq, if◌then◌else◌,
}
use infernal_client_rs.Common.Text.{Str, codes, strip_prefix}
use infernal_client_rs.Error.{
  ClientError, invalid_request_part, invalid_public_key, invalid_signature, random_source,
  transport, malformed_kernel_identity, invalid_trust_anchor, enrollment_rejected,
  malformed_enrollment_response, display_error,
}

-- The error without what its text leaves out: the code of a rejection
abbrev pub without_code : ClientError → ClientError
without_code (enrollment_rejected r) = enrollment_rejected (record r { code = [] })
without_code (invalid_request_part field) = invalid_request_part field
without_code invalid_public_key = invalid_public_key
without_code invalid_signature = invalid_signature
without_code random_source = random_source
without_code (transport message) = transport message
without_code malformed_kernel_identity = malformed_kernel_identity
without_code invalid_trust_anchor = invalid_trust_anchor
without_code malformed_enrollment_response = malformed_enrollment_response

-- The error that one of three openings announces, if one does
read_opening : Str → Option ClientError
read_opening s = elim (strip_prefix s (codes "invalid ")) [
  | some field ↦ some (invalid_request_part field)
  | none ↦ elim (strip_prefix s (codes "transport failed: ")) [
    | some message ↦ some (transport message)
    | none ↦ elim (strip_prefix s (codes "enrollment rejected: ")) [
      | some message ↦ some (enrollment_rejected (record { code = []; message = message }))
      | none ↦ none
    ]
  ]
]

-- The error that a text stands for
read_error : Str → ClientError
read_error s = elim (read_opening s) [
  | some e ↦ e
  | none ↦
      if list_eq s (codes "public key is not valid Ed25519")
      then invalid_public_key
      else if list_eq s (codes "signature verification failed")
      then invalid_signature
      else if list_eq s (codes "random source failed")
      then random_source
      else if list_eq s (codes "kernel identity response is malformed")
      then malformed_kernel_identity
      else if list_eq s (codes "extra root certificate is not valid PEM")
      then invalid_trust_anchor
      else malformed_enrollment_response
]

read_error-display_error : (e : ClientError) → read_error (display_error e) ≡ without_code e
unfolding read_error read_opening display_error strip_prefix list_eq
read_error-display_error (invalid_request_part field) = refl
read_error-display_error invalid_public_key = refl
read_error-display_error invalid_signature = refl
read_error-display_error random_source = refl
read_error-display_error (transport message) = refl
read_error-display_error malformed_kernel_identity = refl
read_error-display_error invalid_trust_anchor = refl
read_error-display_error (enrollment_rejected r) = refl
read_error-display_error malformed_enrollment_response = refl

display_error-without_code : (e : ClientError) → display_error (without_code e) ≡ display_error e
unfolding display_error
display_error-without_code (invalid_request_part field) = refl
display_error-without_code invalid_public_key = refl
display_error-without_code invalid_signature = refl
display_error-without_code random_source = refl
display_error-without_code (transport message) = refl
display_error-without_code malformed_kernel_identity = refl
display_error-without_code invalid_trust_anchor = refl
display_error-without_code (enrollment_rejected r) = refl
display_error-without_code malformed_enrollment_response = refl

-- Two errors print the same text exactly when they are the same, but for the code of a rejection:
-- the text tells every kind of failure, and every field or message in it, from every other.
display_error-eq_iff :
    (e e' : ClientError) → (display_error e ≡ display_error e') ↔ (without_code e ≡ without_code e')
display_error-eq_iff e e' = (
  λ h. sym (read_error-display_error e) ∙ ap read_error h ∙ read_error-display_error e',
  λ h. sym (display_error-without_code e) ∙ ap display_error h ∙ display_error-without_code e',
)
