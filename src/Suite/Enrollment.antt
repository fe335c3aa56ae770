-- ===== src/Suite/Enrollment.antt =====
-- src/enrollment.rs: its tests.
use infernal_client_rs.Common.{◌≡◌, refl, Bool, true, ◌&&◌, list_eq, list_eq_iff, replicate, []}
use infernal_client_rs.Common.Text.{codes, trim, is_whitespace, starts_with}
use infernal_client_rs.Error.{Result, ok, ◌>>=◌, invalid_request_part}
use infernal_client_rs.Deps.{Deps}
use infernal_client_rs.Credential.{ClientCredential, algorithm_name}
use infernal_client_rs.Enrollment.{challenge_length, sign}
use infernal_client_rs.Enrollment.Submission.{submission_of}
use infernal_client_rs.Suite.{fails_with, error_eq}

module _ ⦃d : Deps⦄ where
  open d use {uuid_to_string}

  signs_a_submission_with_the_expected_wire_shape : ClientCredential → Result Bool
  signs_a_submission_with_the_expected_wire_shape credential = do
    submission ←
        sign credential (replicate challenge_length 7) (codes "https://worker.example.test")
          (codes "pod-uid") (codes "projected-token")
    ok (
        list_eq submission.service_id (uuid_to_string credential.public_key.service_id)
        && list_eq submission.algorithm (codes "ed25519")
        && list_eq submission.endpoint (codes "https://worker.example.test")
        && list_eq submission.pod_uid (codes "pod-uid")
        && list_eq submission.workload_token (codes "projected-token"))

  trims_endpoint_and_pod_uid_before_signing_so_the_kernel_can_reproduce_the_proof :
      ClientCredential → Result Bool
  trims_endpoint_and_pod_uid_before_signing_so_the_kernel_can_reproduce_the_proof credential = do
    padded ←
        sign credential (replicate challenge_length 3) (codes "  https://worker.example.test  ")
          (codes "  pod-uid  ") (codes "token")
    trimmed ←
        sign credential (replicate challenge_length 3) (codes "https://worker.example.test")
          (codes "pod-uid") (codes "token")
    ok (
        list_eq padded.endpoint trimmed.endpoint
        && list_eq padded.pod_uid trimmed.pod_uid
        && list_eq padded.signature trimmed.signature)

  rejects_a_non_https_endpoint : ClientCredential → Bool
  rejects_a_non_https_endpoint credential =
      fails_with
        (sign credential (replicate challenge_length 1) (codes "http://worker.example.test")
          (codes "pod-uid") (codes "token"))
        (invalid_request_part (codes "endpoint"))

  rejects_an_empty_workload_token : ClientCredential → Bool
  rejects_an_empty_workload_token credential =
      fails_with
        (sign credential (replicate challenge_length 1) (codes "https://worker.example.test")
          (codes "pod-uid") [])
        (invalid_request_part (codes "workload_token"))

  -- Each test passes.
  signs_a_submission_with_the_expected_wire_shape_lem :
      (credential : ClientCredential)
      → signs_a_submission_with_the_expected_wire_shape credential ≡ ok true
  unfolding signs_a_submission_with_the_expected_wire_shape sign trim is_whitespace list_eq
      starts_with algorithm_name
  signs_a_submission_with_the_expected_wire_shape_lem credential =
      let service_id = uuid_to_string credential.public_key.service_id in
      rw ((list_eq_iff service_id service_id).1 refl) refl

  trims_endpoint_and_pod_uid_before_signing_so_the_kernel_can_reproduce_the_proof_lem :
      (credential : ClientCredential)
      → trims_endpoint_and_pod_uid_before_signing_so_the_kernel_can_reproduce_the_proof credential
        ≡ ok true
  unfolding trims_endpoint_and_pod_uid_before_signing_so_the_kernel_can_reproduce_the_proof sign
      trim is_whitespace list_eq starts_with
  trims_endpoint_and_pod_uid_before_signing_so_the_kernel_can_reproduce_the_proof_lem credential =
      let submission =
        submission_of credential (replicate challenge_length 3)
          (codes "https://worker.example.test") (codes "pod-uid") (codes "token") in
      rw ((list_eq_iff submission.signature submission.signature).1 refl) refl

  rejects_a_non_https_endpoint_lem :
      (credential : ClientCredential) → rejects_a_non_https_endpoint credential ≡ true
  unfolding rejects_a_non_https_endpoint sign trim is_whitespace list_eq starts_with fails_with
      error_eq
  rejects_a_non_https_endpoint_lem credential = refl

  rejects_an_empty_workload_token_lem :
      (credential : ClientCredential) → rejects_an_empty_workload_token credential ≡ true
  unfolding rejects_an_empty_workload_token sign trim is_whitespace list_eq starts_with fails_with
      error_eq
  rejects_an_empty_workload_token_lem credential = refl
