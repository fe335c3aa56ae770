-- ===== src/Tests/Enrollment.antt =====
-- src/enrollment.rs at concrete inputs: the enrollment of a worker, as in the file's own tests.
use infernal_client_rs.Common.{
  ℕ, ◌≡◌, ◌↔◌, ◌≢◌, refl, sym, [], ◌∷◌, replicate, length, if◌then◌else◌, list_eq, arith,
}
use infernal_client_rs.Common.Text.{
  Bytes, Str, codes, trim, trim_start, trim_end, is_whitespace, utf8, utf8_char,
}
use mathlib.Core.List.{cons-ne-nil}
use infernal_client_rs.Error.{ok}
use infernal_client_rs.Credential.{ClientCredential, generate}
use infernal_client_rs.Enrollment.{EnrollmentSubmission, IssuedChallenge, sign, fmt}
use infernal_client_rs.Enrollment.Secrecy.{map_ok, redacted, sign-redacted}
use infernal_client_rs.Enrollment.Proof.{IsProofInput, proof_message_injective}
use infernal_client_rs.Enrollment.Submission.{IsEndpoint, submission_of, sign-ok_iff}
use infernal_client_rs.Enrollment.Kernel.{Verifies, sign-Verifies}
use infernal_client_rs.Tests.Toy.{
  toy, toy_uuid, toy_base64, toy_sha256, toy_ed25519, one, two, three,
}

abbrev credential_01 : ClientCredential
credential_01 = generate 5 two three one

abbrev pub challenge_01 : Bytes
challenge_01 = replicate 32 3

abbrev pub endpoint_01 : Str
endpoint_01 = codes "https://worker.example.test"

abbrev padded : Str
padded = codes "  https://worker.example.test  "

abbrev pub pod_01 : Str
pod_01 = codes "pod-uid"

abbrev pub token_01 : Str
token_01 = codes "token"

trim-endpoint : trim padded ≡ endpoint_01
unfolding trim trim_start trim_end is_whitespace
trim-endpoint = refl

trim-pod : trim (codes " pod-uid ") ≡ pod_01
unfolding trim trim_start trim_end is_whitespace
trim-pod = refl

abbrev pub submission_01 : EnrollmentSubmission
submission_01 =
    submission_of credential_01 challenge_01 (trim padded) (trim (codes " pod-uid ")) token_01

sign-ok_iff_example :
    (sign credential_01 challenge_01 padded (codes " pod-uid ") token_01 ≡ ok submission_01) ↔ (
      IsEndpoint (trim padded)
      × (trim (codes " pod-uid ") ≢ [])
      × (token_01 ≢ [])
      × (submission_01
          ≡ submission_of credential_01 challenge_01
              (trim padded)
              (trim (codes " pod-uid "))
              token_01))
sign-ok_iff_example =
    sign-ok_iff credential_01 challenge_01 padded (codes " pod-uid ") token_01 submission_01

signed : sign credential_01 challenge_01 padded (codes " pod-uid ") token_01 ≡ ok submission_01
signed = sign-ok_iff_example.1 (
  (codes "worker.example.test", cons-ne-nil _ _, trim-endpoint),
  rw trim-pod (cons-ne-nil _ _),
  cons-ne-nil _ _,
  refl,
)

sign-Verifies_example :
    (v : Verifies submission_01) × (v.raw_challenge ≡ challenge_01)
    × (v.service ≡ one)
    × (v.instance ≡ two)
    × (v.key ≡ three)
    × (v.key_bytes ≡ toy.verifying_key 5)
sign-Verifies_example =
    sign-Verifies toy_uuid toy_base64 toy_ed25519 5 two three one challenge_01 padded
      (codes " pod-uid ") token_01 submission_01 (omega arith) signed

abbrev pub issued_01 : IssuedChallenge
issued_01 = record {
  service_id = codes "11111111-1111-4111-8111-111111111111";
  challenge = codes "AwMD";
  audience = codes "infernal-law-enrollment";
  expires_at = infernal_client_rs.Common.Int.pos 1000;
}

input_01 : IsProofInput challenge_01 credential_01.public_key endpoint_01 pod_01
unfolding generate utf8 utf8_char
input_01 = record {
  challenge = refl;
  public_key = refl;
  endpoint = (omega arith, omega arith);
  pod_uid = (omega arith, omega arith);
}

proof_message_injective_example :
    (challenge_01 ≡ challenge_01)
    × (credential_01.public_key.service_id ≡ credential_01.public_key.service_id)
    × (credential_01.public_key.instance_id ≡ credential_01.public_key.instance_id)
    × (credential_01.public_key.key_id ≡ credential_01.public_key.key_id)
    × (credential_01.public_key.public_key ≡ credential_01.public_key.public_key)
    × (endpoint_01 ≡ endpoint_01)
    × (pod_01 ≡ pod_01)
    × (toy.sha256 (utf8 token_01) ≡ toy.sha256 (utf8 token_01))
proof_message_injective_example =
    proof_message_injective toy_uuid toy_sha256 challenge_01 challenge_01 credential_01.public_key
      credential_01.public_key endpoint_01 endpoint_01 pod_01 pod_01 token_01 token_01 input_01
      input_01 refl

sign-redacted_example :
    (map_ok redacted (sign credential_01 challenge_01 padded pod_01 token_01)
      ≡ map_ok redacted (sign credential_01 challenge_01 padded pod_01 (codes "another token")))
    × (fmt (record { pod_uid = pod_01; workload_token = token_01 })
        ≡ fmt (record { pod_uid = pod_01; workload_token = codes "another token" }))
sign-redacted_example =
    sign-redacted credential_01 challenge_01 padded pod_01 token_01 (codes "another token")
      (cons-ne-nil _ _) (cons-ne-nil _ _)
