-- ===== src/Enrollment.antt =====
-- src/enrollment.rs: the candidate's side of an enrollment. `EnrollmentRejection` stands in
-- `Error`, since the error type holds it.
pub mod Frames
pub mod Proof
pub mod Submission
pub mod Kernel
pub mod Separation
pub mod Secrecy
use infernal_client_rs.Common.{
  ℕ, ◌/◌, ◌%◌, [], ◌∷◌, ◌++◌, List, not, ◌||◌, length, is_empty, list_eq,
}
use infernal_client_rs.Common.Int.{ℤ}
use infernal_client_rs.Common.Text.{Bytes, Str, codes, utf8, trim, starts_with}
use infernal_client_rs.Error.{
  Result, ok, ◌>>=◌, ◌>>◌, refuse_if, ok_or, invalid_request_part, malformed_enrollment_response,
}
use infernal_client_rs.Deps.{Deps}
use infernal_client_rs.Credential
use infernal_client_rs.Credential.{ClientPublicKey, ClientCredential, algorithm_name, to_array}

abbrev pub proof_context : Bytes
proof_context = codes "infernal-law/enrollment/v1"

abbrev pub challenge_length : ℕ
challenge_length = 32

pub record EnrollmentSubmission : Type 0 where
  pub service_id : Str
  pub instance_id : Str
  pub key_id : Str
  pub algorithm : Str
  pub public_key : Str
  pub challenge : Str
  pub endpoint : Str
  pub pod_uid : Str
  pub workload_token : Str
  pub signature : Str

pub record EnrolledInstance : Type 0 where
  pub service_id : Str
  pub instance_id : Str
  pub key_id : Str
  pub algorithm : Str
  pub endpoint : Str
  pub registered_at : ℤ
  pub lease_expires_at : ℤ
  pub lease_revision : ℤ

pub record ChallengeRequest : Type 0 where
  pub pod_uid : Str
  pub workload_token : Str

-- `Debug for ChallengeRequest`: the name of the struct and its fields, as `debug_struct` is given them
unfoldable pub fmt : ChallengeRequest → Str × List (Str × Str)
fmt request = (
  codes "ChallengeRequest",
  (codes "pod_uid", request.pod_uid) ∷ (codes "workload_token", codes "<redacted>") ∷ [],
)

pub record IssuedChallenge : Type 0 where
  pub service_id : Str
  pub challenge : Str
  pub audience : Str
  pub expires_at : ℤ

-- `(n as u32).to_be_bytes()`
unfoldable pub to_be_bytes : ℕ → Bytes
to_be_bytes n =
    let w = n % 0x1_0000_0000 in
    (w / 0x100_0000) ∷ (w / 0x1_0000 % 256) ∷ (w / 0x100 % 256) ∷ (w % 256) ∷ []

-- The loop over the fields, on the message so far
unfoldable pub extend_message : Bytes → List Bytes → Bytes
extend_message message [] = message
extend_message message (field ∷ fields) =
    extend_message ((message ++ to_be_bytes (length field)) ++ field) fields

module _ ⦃d : Deps⦄ where
  open d use {uuid_to_string, uuid_as_bytes, url_safe_encode, url_safe_decode, sha256}

  -- The fields in the order of the loop
  abbrev pub proof_fields : Bytes → ClientPublicKey → Str → Str → Str → List Bytes
  proof_fields challenge public_key endpoint pod_uid token =
      proof_context
      ∷ challenge
      ∷ uuid_as_bytes public_key.service_id
      ∷ uuid_as_bytes public_key.instance_id
      ∷ uuid_as_bytes public_key.key_id
      ∷ public_key.public_key
      ∷ utf8 endpoint
      ∷ utf8 pod_uid
      ∷ sha256 (utf8 token)
      ∷ []

  unfoldable pub proof_message : Bytes → ClientPublicKey → Str → Str → Str → Bytes
  proof_message challenge public_key endpoint pod_uid token =
      extend_message [] (proof_fields challenge public_key endpoint pod_uid token)

  unfoldable pub sign : ClientCredential → Bytes → Str → Str → Str → Result EnrollmentSubmission
  sign credential challenge untrimmed_endpoint untrimmed_pod_uid workload_token = do
    let endpoint = trim untrimmed_endpoint
    let pod_uid = trim untrimmed_pod_uid
    refuse_if (list_eq endpoint (codes "https://") || not (starts_with endpoint (codes "https://")))
        (invalid_request_part (codes "endpoint"))
    refuse_if (is_empty pod_uid) (invalid_request_part (codes "pod_uid"))
    refuse_if (is_empty workload_token) (invalid_request_part (codes "workload_token"))
    let public_key = credential.public_key
    let message = proof_message challenge public_key endpoint pod_uid workload_token
    let signature = Credential.sign credential message
    ok (record {
      service_id = uuid_to_string public_key.service_id;
      instance_id = uuid_to_string public_key.instance_id;
      key_id = uuid_to_string public_key.key_id;
      algorithm = algorithm_name;
      public_key = url_safe_encode public_key.public_key;
      challenge = url_safe_encode challenge;
      endpoint = endpoint;
      pod_uid = pod_uid;
      workload_token = workload_token;
      signature = url_safe_encode signature;
    })

  unfoldable pub challenge_bytes : IssuedChallenge → Result Bytes
  challenge_bytes issued = do
    decoded ← ok_or (url_safe_decode issued.challenge) malformed_enrollment_response
    ok_or (to_array challenge_length decoded) malformed_enrollment_response
