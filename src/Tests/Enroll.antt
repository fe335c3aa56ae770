-- ===== src/Tests/Enroll.antt =====
-- src/transport.rs, src/enrollment.rs: an enrollment against a concrete kernel, which gives
-- out one challenge and registers whoever uses it.
use infernal_client_rs.Common.{◌≡◌, refl, some, [], arith}
use infernal_client_rs.Common.Text.{codes, trim, is_whitespace}
use mathlib.Core.List.{cons-ne-nil}
use infernal_client_rs.Error.{ok}
use infernal_client_rs.Credential.{generate}
use infernal_client_rs.Enrollment.{IssuedChallenge}
use infernal_client_rs.Transport.{
  Attempt, done, Http, HttpResponse, Payload, json_challenge, json_submission,
}
use infernal_client_rs.Transport.Enroll.{Enrolls, enroll, enroll-ok}
use infernal_client_rs.Tests.Toy.{toy, toy_uuid, toy_base64, toy_ed25519, one, two, three}
use infernal_client_rs.Tests.Enrollment.{challenge_01, endpoint_01, pod_01, token_01}
use infernal_client_rs.Tests.Transport.{net, response_01, enrolled_01, base_01}

abbrev issued_02 : IssuedChallenge
issued_02 = record {
  service_id = codes "11111111-1111-4111-8111-111111111111";
  challenge = toy.url_safe_encode challenge_01;
  audience = codes "infernal-law-enrollment";
  expires_at = infernal_client_rs.Common.Int.pos 1000;
}

-- What has become of the one challenge that the kernel gives out
data Stage : Type 0 where
  fresh : Stage
  given_out : Stage
  used : Stage

abbrev refused_02 : HttpResponse
refused_02 = record {
  status = 409;
  status_text = codes "409 Conflict";
  bytes = done (codes "{}");
  text = done (codes "{}");
}

-- A challenge is given out once, and one submission uses it up.
abbrev answer_02 : Payload → Stage → Attempt HttpResponse × Stage
answer_02 (json_challenge request) fresh = (done response_01, given_out)
answer_02 (json_submission submission) given_out = (done response_01, used)
answer_02 _ stage = (done refused_02, stage)

abbrev kernel : Http
kernel = record net {
  World = Stage;
  execute = λ client request. answer_02 request.payload;
  parse_challenge = λ body. some issued_02;
}

enrolls :
    Enrolls kernel tt base_01
      (generate 5 two three one).public_key
      endpoint_01
      pod_01
      token_01
      fresh
      challenge_01
      issued_02
      enrolled_01
enrolls = record {
  opened = given_out;
  issues = ((200, codes "{}", (response_01, refl, refl, refl), refl, refl), refl);
  reads = toy_base64.url_safe_round_trip challenge_01 (omega arith);
  registers = λ submission own. (200, codes "{}", (response_01, refl, refl, refl), refl, refl);
}

enroll-ok_example :
    enroll kernel tt (generate 5 two three one) base_01 endpoint_01 pod_01 token_01 fresh
    ≡ (ok enrolled_01, used)
unfolding trim is_whitespace enrolls
enroll-ok_example =
    enroll-ok kernel toy_uuid toy_base64 toy_ed25519 tt 5 two three one base_01 endpoint_01 pod_01
      token_01 fresh challenge_01 issued_02 enrolled_01 enrolls refl (omega arith)
      (codes "worker.example.test", cons-ne-nil _ _, refl) (cons-ne-nil _ _) (cons-ne-nil _ _)
