-- ===== src/Tests/Transport.antt =====
-- src/transport.rs at a concrete HTTP client: its world counts the exchanges, it answers every request
-- with one response, whose body is `{}`, and its parsers know one value each.
use infernal_client_rs.Common.{ℕ, ◌+◌, ◌≡◌, ◌↔◌, refl, true, some, [], leb, ◌&&◌, arith}
use infernal_client_rs.Common.Int.{pos, ◌+ℤ◌}
use infernal_client_rs.Common.Text.{Bytes, Str, codes, utf8}
use infernal_client_rs.Error.{ok}
use infernal_client_rs.Call.{lift, ◌>>=◌}
use infernal_client_rs.Request.{SignedRequest}
use infernal_client_rs.Request.Signing.{signed_as}
use infernal_client_rs.KernelIdentity.{KernelIdentity}
use infernal_client_rs.KernelIdentity.Published.{identity_of}
use infernal_client_rs.Enrollment.{EnrolledInstance}
use infernal_client_rs.Transport.{
  Http, HttpResponse, SentResponse, done, with_extra_root_certificate,
}
use infernal_client_rs.Transport.Client.{
  send, fetch_kernel_identity, request_enrollment_challenge, submit_enrollment,
}
use infernal_client_rs.Transport.Pem.{
  RootOutcome, pem_layout, with_extra_root_certificate-RootOutcome_iff,
}
use infernal_client_rs.Transport.Outcome.{CallOutcome, SendOutcome}
use infernal_client_rs.Transport.Calls.{
  send-SendOutcome_iff, request_enrollment_challenge-CallOutcome_iff,
  submit_enrollment-CallOutcome_iff,
}
use infernal_client_rs.Transport.Identity.{FetchOutcome, fetch_kernel_identity-FetchOutcome_iff}
use infernal_client_rs.Transport.Evaluator.{Publishes, evaluate, evaluate-ok}
use infernal_client_rs.Request.{sign}
use infernal_client_rs.Verify.Received.{incoming_from, verified_as}
use infernal_client_rs.Tests.Toy.{
  toy, toy_uuid, toy_base64, toy_sha256, toy_ed25519, one, two, three,
}
use infernal_client_rs.Tests.Request.{parts_01}
use infernal_client_rs.Tests.Verify.{key_01}
use infernal_client_rs.Tests.Wire.{nonce_01}
use infernal_client_rs.Tests.Signing.{signer_01}
use infernal_client_rs.Tests.KernelIdentity.{parse_json_01, credential_02}
use infernal_client_rs.Tests.Enrollment.{submission_01, issued_01}

abbrev pub enrolled_01 : EnrolledInstance
enrolled_01 = record {
  service_id = codes "11111111-1111-4111-8111-111111111111";
  instance_id = codes "22222222-2222-4222-8222-222222222222";
  key_id = codes "33333333-3333-4333-8333-333333333333";
  algorithm = codes "ed25519";
  endpoint = codes "https://worker.example.test";
  registered_at = pos 1000;
  lease_expires_at = pos 1060;
  lease_revision = pos 1;
}

abbrev pub response_01 : HttpResponse
response_01 = record {
  status = 200;
  status_text = codes "200 OK";
  bytes = done (codes "{}");
  text = done (codes "{}");
}

abbrev pub net : Http
net = record {
  HttpClient = Unit {0};
  Certificate = Bytes;
  World = ℕ;
  certificate_from_pem = λ pem. some pem;
  build = λ certificate. done tt;
  method_from_bytes = λ method. true;
  execute = λ client request exchanges. (done response_01, exchanges + 1);
  is_success = λ status. leb 200 status && leb status 299;
  parse_identity = parse_json_01;
  parse_rejection =
      λ body. some (record { code = codes "unknown_binding"; message = codes "no binding" });
  parse_challenge = λ body. some issued_01;
  parse_enrolled = λ body. some enrolled_01;
}

abbrev pub signed_01 : SignedRequest
signed_01 = signed_as parts_01 key_01 (pos 1000) (pos 1020) nonce_01 signer_01

abbrev pub base_01 : Str
base_01 = codes "https://kernel.example.test"

abbrev sent_01 : SentResponse
sent_01 = record { status = 200; body = codes "{}" }

send-SendOutcome_iff_example :
    (send net tt signed_01 7 ≡ (ok sent_01, 8))
    ↔ SendOutcome {W = ℕ} true 7 (done response_01) 8 (ok sent_01, 8)
send-SendOutcome_iff_example = send-SendOutcome_iff net tt signed_01 7 (ok sent_01, 8)

request_enrollment_challenge-CallOutcome_iff_example :
    (request_enrollment_challenge net tt base_01 (codes "pod-uid") (codes "token") 7
      ≡ (ok issued_01, 8))
    ↔ (CallOutcome net (λ body. some issued_01) (done response_01) (ok issued_01)
        × (◌≡◌ {A = ℕ} 8 8))
request_enrollment_challenge-CallOutcome_iff_example =
    request_enrollment_challenge-CallOutcome_iff net tt base_01 (codes "pod-uid") (codes "token") 7
      8 (ok issued_01)

submit_enrollment-CallOutcome_iff_example :
    (submit_enrollment net tt base_01 submission_01 7 ≡ (ok enrolled_01, 8)) ↔ (
      CallOutcome net (λ body. some enrolled_01) (done response_01) (ok enrolled_01)
      × (◌≡◌ {A = ℕ} 8 8))
submit_enrollment-CallOutcome_iff_example =
    submit_enrollment-CallOutcome_iff net tt base_01 submission_01 7 8 (ok enrolled_01)

abbrev identity_01 : KernelIdentity
identity_01 = identity_of credential_02

fetch_kernel_identity-FetchOutcome_iff_example :
    (fetch_kernel_identity net tt base_01 7 ≡ (ok identity_01, 8))
    ↔ (FetchOutcome net (done response_01) (ok identity_01) × (◌≡◌ {A = ℕ} 8 8))
fetch_kernel_identity-FetchOutcome_iff_example =
    fetch_kernel_identity-FetchOutcome_iff net tt base_01 7 8 (ok identity_01)

credential_02-Publishes : Publishes net tt base_01 credential_02 7 8
credential_02-Publishes = record {
  response = response_01;
  body = codes "{}";
  responds = refl;
  succeeds = refl;
  text = refl;
  parses = refl;
}

evaluate-ok_example :
    (do
      signed ← lift (sign parts_01 credential_02 (pos 1000) (pos 1020) nonce_01)
      incoming ← lift (incoming_from signed)
      evaluate net tt base_01 one incoming (pos 1005))
      7
    ≡ (ok (verified_as parts_01 credential_02.public_key (pos 1000) (pos 1020)), 8)
unfolding ◌+ℤ◌
evaluate-ok_example =
    evaluate-ok net toy_uuid toy_base64 toy_sha256 toy_ed25519 tt base_01 parts_01 5 two three one
      (pos 1000) (pos 1020) nonce_01 (pos 1005) 7 8 credential_02-Publishes (omega arith)
      (omega arith) (omega arith) (omega arith) (omega arith) (omega arith) (omega arith)

-- Three bytes, the first of them 0x30, between the markers: no whole certificate
abbrev pem_01 : Str
pem_01 = pem_layout [] (codes "\nMAMC\n") (codes "\n")

with_extra_root_certificate-RootOutcome_iff_example :
    (with_extra_root_certificate net (utf8 pem_01) ≡ ok tt) ↔ RootOutcome net (utf8 pem_01) (ok tt)
with_extra_root_certificate-RootOutcome_iff_example =
    with_extra_root_certificate-RootOutcome_iff net (utf8 pem_01) (ok tt)
