-- ===== src/Transport/Client.antt =====
-- src/transport.rs: the calls of a client, each a change of the world by the exchanges it makes.
use infernal_client_rs.Common.{not, [], ◌++◌}
use infernal_client_rs.Common.Text.{Str, codes, utf8, trim}
use infernal_client_rs.Error.{ok, refuse_if, transport}
use infernal_client_rs.Call.{Call, lift, ◌>>=◌, ◌>>◌}
use infernal_client_rs.Deps.{Deps}
use infernal_client_rs.Request.{SignedRequest, target_uri, headers}
use infernal_client_rs.KernelIdentity.{KernelIdentity, from_json}
use infernal_client_rs.Enrollment.{EnrollmentSubmission, EnrolledInstance, IssuedChallenge}
use infernal_client_rs.Transport.{
  Http, HttpRequest, HttpResponse, SentResponse, or_transport, raw, no_payload, json_challenge,
  json_submission, interpret,
}

module _ ⦃d : Deps⦄ where
  module _ (http : Http) where
    open http use {
      HttpClient, World, method_from_bytes, execute, is_success, parse_identity, parse_rejection,
      parse_challenge, parse_enrolled,
    }

    -- `send().map_err(...)?` of a request that has been built
    abbrev exchange : HttpClient → HttpRequest → Call World HttpResponse
    exchange client request world =
        let (answer, world') = execute client request world in (or_transport answer, world')

    unfoldable pub send : HttpClient → SignedRequest → Call World SentResponse
    send client request = do
      lift (
          refuse_if (not (method_from_bytes (utf8 request.parts.method)))
            (transport (codes "invalid method")))
      response ← exchange client (record {
        method = request.parts.method;
        url = target_uri request.parts;
        headers = headers request;
        payload = raw request.parts.body;
      })
      body ← lift (or_transport response.bytes)
      lift (ok (record { status = response.status; body = body }))

    unfoldable pub fetch_kernel_identity : HttpClient → Str → Call World KernelIdentity
    fetch_kernel_identity client base_url = do
      response ← exchange client (record {
        method = codes "GET";
        url = base_url ++ codes "/v1/kernel-identity";
        headers = [];
        payload = no_payload;
      })
      lift (
          refuse_if (not (is_success response.status))
            (transport (codes "kernel identity fetch returned " ++ response.status_text)))
      body ← lift (or_transport response.text)
      lift (from_json parse_identity body)

    unfoldable pub request_enrollment_challenge :
        HttpClient → Str → Str → Str → Call World IssuedChallenge
    request_enrollment_challenge client base_url pod_uid workload_token = do
      response ← exchange client (record {
        method = codes "POST";
        url = base_url ++ codes "/v1/enrollments/challenges";
        headers = [];
        payload =
            json_challenge (record { pod_uid = trim pod_uid; workload_token = workload_token });
      })
      payload ← lift (or_transport response.bytes)
      lift (
          interpret (is_success response.status) (parse_challenge payload)
            (parse_rejection payload))

    unfoldable pub submit_enrollment :
        HttpClient → Str → EnrollmentSubmission → Call World EnrolledInstance
    submit_enrollment client base_url submission = do
      response ← exchange client (record {
        method = codes "POST";
        url = base_url ++ codes "/v1/enrollments";
        headers = [];
        payload = json_submission submission;
      })
      body ← lift (or_transport response.bytes)
      lift (interpret (is_success response.status) (parse_enrolled body) (parse_rejection body))
