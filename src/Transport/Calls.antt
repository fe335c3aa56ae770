-- ===== src/Transport/Calls.antt =====
-- src/transport.rs: what each call over HTTP gives, by what the exchange gave.
use infernal_client_rs.Common.{ℕ, ◌≡◌, ◌↔◌, refl, sym, ap, ap₂, ◌∙◌, inl, inr, Bool-cases, [], ◌++◌}
use infernal_client_rs.Common.Text.{Bytes, Str, codes, utf8, trim}
use infernal_client_rs.Error.{Result}
use infernal_client_rs.Deps.{Deps}
use infernal_client_rs.Request.{SignedRequest, target_uri, headers}
use infernal_client_rs.Enrollment.{EnrollmentSubmission, EnrolledInstance, IssuedChallenge}
use infernal_client_rs.Transport.{
  Attempt, HttpRequest, HttpResponse, Http, SentResponse, raw, json_challenge, json_submission,
}
use infernal_client_rs.Transport.Client.{send, request_enrollment_challenge, submit_enrollment}
use infernal_client_rs.Transport.Outcome.{
  CallOutcome, SendOutcome, read_answer, after_exchange, after_exchange_lem, send_result,
  call-CallOutcome_iff, send_result-SendOutcome_iff,
}

module _ ⦃d : Deps⦄ (http : Http) where
  open http use {HttpClient, method_from_bytes, World, execute, parse_challenge, parse_enrolled}

  -- The exchange of each call
  abbrev pub send_request : SignedRequest → HttpRequest
  send_request request = record {
    method = request.parts.method;
    url = target_uri request.parts;
    headers = headers request;
    payload = raw request.parts.body;
  }

  abbrev pub challenge_request : Str → Str → Str → HttpRequest
  challenge_request base_url pod_uid workload_token = record {
    method = codes "POST";
    url = base_url ++ codes "/v1/enrollments/challenges";
    headers = [];
    payload = json_challenge (record { pod_uid = trim pod_uid; workload_token = workload_token });
  }

  abbrev pub submission_request : Str → EnrollmentSubmission → HttpRequest
  submission_request base_url submission = record {
    method = codes "POST";
    url = base_url ++ codes "/v1/enrollments";
    headers = [];
    payload = json_submission submission;
  }

  -- The end of a call whose result is a function of the answer, in the world after one exchange
  pub one_exchange :
      {A : Type 0} (next : ℕ → Bytes → Result A) (outcome : Result A → Type 0)
      (sent : Attempt HttpResponse × World)
      → ((r : Result A) → (read_answer sent.0 next ≡ r) ↔ outcome r)
      → (result : Result A) (left : World)
      → (after_exchange next sent.0 sent.1 ≡ (result, left)) ↔ (outcome result × (left ≡ sent.1))
  one_exchange next outcome sent reads result left =
      let ends = after_exchange_lem next sent.0 sent.1 in
      (
        λ h. ((reads result).0 (ap (λ x. x.0) (sym ends ∙ h)), ap (λ x. x.1) (sym h ∙ ends)),
        λ (o, e). ends ∙ ap₂ (λ x y. (x, y)) ((reads result).1 o) (sym e),
      )

  -- Requesting a challenge makes exactly one exchange, a POST with the trimmed pod id and the token:
  -- the world it leaves is the one that this exchange leads to. Its result is the one that
  -- CallOutcome lists for the answer: the transport's error if the exchange breaks, the challenge
  -- if the status is a success and the body is that challenge, the rejection if the status is
  -- another and the body is that rejection, and malformed_enrollment_response if the body is not
  -- what goes with its status.
  pub request_enrollment_challenge-CallOutcome_iff :
      (client : HttpClient) (base_url pod_uid workload_token : Str) (world left : World)
      (result : Result IssuedChallenge)
      → let sent = execute client (challenge_request base_url pod_uid workload_token) world in
        (request_enrollment_challenge http client base_url pod_uid workload_token world
          ≡ (result, left))
        ↔ (CallOutcome http parse_challenge sent.0 result × (left ≡ sent.1))
  unfolding request_enrollment_challenge
  request_enrollment_challenge-CallOutcome_iff client base_url pod_uid workload_token world left
        result =
      let sent = execute client (challenge_request base_url pod_uid workload_token) world in
      one_exchange _ (CallOutcome http parse_challenge sent.0) sent
        (call-CallOutcome_iff http parse_challenge sent.0) result left

  -- Submitting an enrollment makes exactly one exchange, a POST with the submission: the world it
  -- leaves is the one that this exchange leads to. Its result is the one that CallOutcome lists for
  -- the answer: the transport's error if the exchange breaks, the instance if the status is a
  -- success and the body is that instance, the rejection if the status is another and the body is
  -- that rejection, and malformed_enrollment_response if the body is not what goes with its status.
  pub submit_enrollment-CallOutcome_iff :
      (client : HttpClient) (base_url : Str) (submission : EnrollmentSubmission)
      (world left : World) (result : Result EnrolledInstance)
      → let sent = execute client (submission_request base_url submission) world in
        (submit_enrollment http client base_url submission world ≡ (result, left))
        ↔ (CallOutcome http parse_enrolled sent.0 result × (left ≡ sent.1))
  unfolding submit_enrollment
  submit_enrollment-CallOutcome_iff client base_url submission world left result =
      let sent = execute client (submission_request base_url submission) world in
      one_exchange _ (CallOutcome http parse_enrolled sent.0) sent
        (call-CallOutcome_iff http parse_enrolled sent.0) result left

  pub send_lem :
      (client : HttpClient) (request : SignedRequest) (world : World)
      → let sent = execute client (send_request request) world in
        send http client request world
        ≡ send_result
            (method_from_bytes (utf8 request.parts.method))
            world
            sent.0
            sent.1
            (method_from_bytes (utf8 request.parts.method))
  unfolding send
  send_lem client request world =
      let sent = execute client (send_request request) world in
      elim (Bool-cases (method_from_bytes (utf8 request.parts.method))) [
        | inr h ↦ rw h refl
        | inl h ↦ rw h (after_exchange_lem _ sent.0 sent.1)
      ]

  -- Sending a signed request makes no exchange if the client does not take the method, and leaves
  -- the world as it was, with an error of its own; else it makes exactly one, with the request's
  -- own method, target URI, headers and body, leaves the world that this leads to, and gives the
  -- error of an exchange that gives no response or a body that cannot be read, or the status and
  -- the body, whatever the status.
  pub send-SendOutcome_iff :
      (client : HttpClient) (request : SignedRequest) (world : World)
      (ended : Result SentResponse × World)
      → let sent = execute client (send_request request) world in
        (send http client request world ≡ ended)
        ↔ SendOutcome (method_from_bytes (utf8 request.parts.method)) world sent.0 sent.1 ended
  send-SendOutcome_iff client request world ended =
      let takes = method_from_bytes (utf8 request.parts.method) in
      let sent = execute client (send_request request) world in
      let (to, from) = send_result-SendOutcome_iff takes world sent.0 sent.1 ended in
      (
        λ h. to (sym (send_lem client request world) ∙ h),
        λ o. send_lem client request world ∙ from o,
      )
