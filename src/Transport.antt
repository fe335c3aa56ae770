-- ===== src/Transport.antt =====
-- src/transport.rs: the calls over HTTP and the check of an extra root certificate. The HTTP client
-- and the JSON parsers are parameters (`Http`).
pub mod Pem
pub mod PanicFree
pub mod Client
pub mod Outcome
pub mod Calls
pub mod Identity
pub mod Session
pub mod Enroll
pub mod Evaluator
use infernal_client_rs.Common.{
  ℕ, Bool, true, false, not, ◌==◌, Option, none, some, List, [], ◌∷◌, ◌++◌, if◌then◌else◌,
}
use infernal_client_rs.Common.Text.{
  Bytes, Str, codes, format, utf8, trim, split_once, is_whitespace,
}
use infernal_client_rs.Common.FromUtf8.{from_utf8}
use infernal_client_rs.Error.{
  Result, ok, err, ◌>>=◌, ◌>>◌, refuse_if, ok_or, transport, invalid_trust_anchor,
  EnrollmentRejection, enrollment_rejected, malformed_enrollment_response,
}
use infernal_client_rs.Deps.{Deps}
use infernal_client_rs.Request.{SignedRequest, target_uri, headers}
use infernal_client_rs.KernelIdentity.{KernelIdentityResponse, KernelIdentity, from_json}
use infernal_client_rs.Enrollment.{
  EnrollmentSubmission, EnrolledInstance, ChallengeRequest, IssuedChallenge,
}

abbrev pub pem_certificate_begin : Str
pem_certificate_begin = codes "-----BEGIN CERTIFICATE-----"

abbrev pub pem_certificate_end : Str
pem_certificate_end = codes "-----END CERTIFICATE-----"

-- What a step of the HTTP client gives: a value, or an error that prints as a text
pub data Attempt {ℓ} (A : Type ℓ) : Type ℓ where
  done : A → Attempt A
  failed : Str → Attempt A

-- `map_err(|error| ClientError::Transport(error.to_string()))`
abbrev pub or_transport {ℓ} : {A : Type ℓ} → Attempt A → Result A
or_transport (done a) = ok a
or_transport (failed message) = err (transport message)

-- The body of a request: none, bytes, or a record that is sent as JSON
pub data Payload : Type 0 where
  no_payload : Payload
  raw : Bytes → Payload
  json_challenge : ChallengeRequest → Payload
  json_submission : EnrollmentSubmission → Payload

pub record HttpRequest : Type 0 where
  pub method : Str
  pub url : Str
  pub headers : List (Str × Str)
  pub payload : Payload

-- A response: its status, what the status prints as, and what reading the body gives, as bytes or
-- as text
pub record HttpResponse : Type 0 where
  pub status : ℕ
  pub status_text : Str
  pub bytes : Attempt Bytes
  pub text : Attempt Str

-- reqwest and serde_json: building a client, with or without an extra certificate; one exchange, which
-- changes the world that the client talks to; which methods and statuses pass; and `from_str` and
-- `from_slice` at the types of the responses
pub record Http : Type 1 where
  pub HttpClient : Type 0
  pub Certificate : Type 0
  pub World : Type 0
  pub certificate_from_pem : Bytes → Option Certificate
  pub build : Option Certificate → Attempt HttpClient
  pub method_from_bytes : Bytes → Bool
  pub execute : HttpClient → HttpRequest → World → Attempt HttpResponse × World
  pub is_success : ℕ → Bool
  pub parse_identity : Str → Option KernelIdentityResponse
  pub parse_rejection : Bytes → Option EnrollmentRejection
  pub parse_challenge : Bytes → Option IssuedChallenge
  pub parse_enrolled : Bytes → Option EnrolledInstance

pub record SentResponse : Type 0 where
  pub status : ℕ
  pub body : Bytes

-- `chars().filter(|c| !c.is_whitespace())`
unfoldable pub without_whitespace : Str → Str
without_whitespace [] = []
without_whitespace (c ∷ s) =
    let rest = without_whitespace s in if is_whitespace c then rest else c ∷ rest

-- `decoded.first() == Some(&0x30)`
unfoldable pub is_sequence : Bytes → Bool
is_sequence [] = false
is_sequence (b ∷ _) = b == 0x30

-- The end of both enrollment calls: the value of a success, or the kernel's rejection
abbrev pub interpret {ℓ} : {A : Type ℓ} → Bool → Option A → Option EnrollmentRejection → Result A
interpret true value rejection = ok_or value malformed_enrollment_response
interpret false value rejection =
    ok_or rejection malformed_enrollment_response >>= λ r. err (enrollment_rejected r)

module _ ⦃d : Deps⦄ where
  open d use {standard_decode}

  -- `find` and the slices around its place are `split_once`.
  unfoldable pub validate_pem_certificate : Bytes → Result (Unit {0})
  validate_pem_certificate pem = do
    text ← ok_or (from_utf8 pem) invalid_trust_anchor
    (_, after_begin) ← ok_or (split_once text pem_certificate_begin) invalid_trust_anchor
    (body, _) ← ok_or (split_once after_begin pem_certificate_end) invalid_trust_anchor
    decoded ← ok_or (standard_decode (without_whitespace body)) invalid_trust_anchor
    refuse_if (not (is_sequence decoded)) invalid_trust_anchor
    ok tt

  module _ (http : Http) where
    open http use {HttpClient, certificate_from_pem, build}

    unfoldable pub new : Result HttpClient
    new = or_transport (build none)

    unfoldable pub with_extra_root_certificate : Bytes → Result HttpClient
    with_extra_root_certificate pem = do
      validate_pem_certificate pem
      certificate ← ok_or (certificate_from_pem pem) invalid_trust_anchor
      or_transport (build (some certificate))
