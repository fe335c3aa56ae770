-- ===== src/Transport/Session.antt =====
-- src/transport.rs: calls of one client, one after another.
use infernal_client_rs.Common.{
  ◌≡◌, ◌⊎◌, inl, inr, refl, Bool-cases, true, Option, some, none, List, [], ◌∷◌, if◌then◌else◌,
}
use infernal_client_rs.Common.Text.{Str, codes, utf8}
use infernal_client_rs.Error.{Result, err, transport}
use infernal_client_rs.Deps.{Deps}
use infernal_client_rs.Request.{SignedRequest}
use infernal_client_rs.KernelIdentity.{KernelIdentity}
use infernal_client_rs.Enrollment.{EnrollmentSubmission, EnrolledInstance, IssuedChallenge}
use infernal_client_rs.Transport.{Attempt, Http, HttpRequest, HttpResponse, SentResponse}
use infernal_client_rs.Transport.Client.{
  send, fetch_kernel_identity, request_enrollment_challenge, submit_enrollment,
}
use infernal_client_rs.Transport.Outcome.{CallOutcome, SendOutcome, send_result-SendOutcome_iff}
use infernal_client_rs.Transport.Calls.{
  send_request, challenge_request, submission_request, send_lem,
  request_enrollment_challenge-CallOutcome_iff, submit_enrollment-CallOutcome_iff,
}
use infernal_client_rs.Transport.Identity.{
  FetchOutcome, identity_request, fetch_kernel_identity-FetchOutcome_iff,
}

module _ ⦃d : Deps⦄ where
  -- What a client gives back
  pub data Reply : Type 0 where
    of_send : Result SentResponse → Reply
    of_fetch : Result KernelIdentity → Reply
    of_challenge : Result IssuedChallenge → Reply
    of_submission : Result EnrolledInstance → Reply

  -- The four calls, with their arguments
  pub data Command : Type 0 where
    sends : SignedRequest → Command
    fetches : Str → Command
    asks : Str → Str → Str → Command
    submits : Str → EnrollmentSubmission → Command

  module _ (http : Http) where
    open http use {HttpClient, World, method_from_bytes, execute, parse_challenge, parse_enrolled}

    abbrev pub perform_one : HttpClient → Command → World → Reply × World
    perform_one client (sends request) w =
        let (result, left) = send http client request w in (of_send result, left)
    perform_one client (fetches base_url) w =
        let (result, left) = fetch_kernel_identity http client base_url w in (of_fetch result, left)
    perform_one client (asks base_url pod_uid token) w =
        let (result, left) = request_enrollment_challenge http client base_url pod_uid token w in
        (of_challenge result, left)
    perform_one client (submits base_url submission) w =
        let (result, left) = submit_enrollment http client base_url submission w in
        (of_submission result, left)

    -- Calls one after another
    abbrev pub perform : HttpClient → List Command → World → List Reply × World
    perform client [] w = ([], w)
    perform client (c ∷ cs) w =
        let (reply, next) = perform_one client c w in
        let (replies, left) = perform client cs next in (reply ∷ replies, left)

    -- What a call has to exchange, if its method can be sent
    abbrev pub request_of : Command → Option HttpRequest
    request_of (sends request) =
        if method_from_bytes (utf8 request.parts.method)
        then some (send_request http request)
        else none
    request_of (fetches base_url) = some (identity_request base_url)
    request_of (asks base_url pod_uid token) = some (challenge_request http base_url pod_uid token)
    request_of (submits base_url submission) = some (submission_request http base_url submission)

    abbrev cons_some : Option HttpRequest → List HttpRequest → List HttpRequest
    cons_some none rest = rest
    cons_some (some request) rest = request ∷ rest

    abbrev pub requests_of : List Command → List HttpRequest
    requests_of [] = []
    requests_of (c ∷ cs) = cons_some (request_of c) (requests_of cs)

    -- Exchanges one after another, with nothing between them
    abbrev pub exchanges :
        HttpClient → List HttpRequest → World → List (Attempt HttpResponse) × World
    exchanges client [] w = ([], w)
    exchanges client (request ∷ requests) w =
        let (answer, next) = execute client request w in
        let (answers, left) = exchanges client requests next in (answer ∷ answers, left)

    -- What a call gives back, by the answer to its one exchange
    pub data Reads (answer : Attempt HttpResponse) : Command → Reply → Type 0 where
      read_send :
          (request : SignedRequest) (result : Result SentResponse)
          → SendOutcome {W = Unit {0}} true tt answer tt (result, tt)
          → Reads answer (sends request) (of_send result)
      read_fetch :
          (base_url : Str) (result : Result KernelIdentity)
          → FetchOutcome http answer result
          → Reads answer (fetches base_url) (of_fetch result)
      read_challenge :
          (base_url pod_uid token : Str) (result : Result IssuedChallenge)
          → CallOutcome http parse_challenge answer result
          → Reads answer (asks base_url pod_uid token) (of_challenge result)
      read_submission :
          (base_url : Str) (submission : EnrollmentSubmission) (result : Result EnrolledInstance)
          → CallOutcome http parse_enrolled answer result
          → Reads answer (submits base_url submission) (of_submission result)

    -- Replies to calls, each by the answer to its own exchange and by no other
    pub data Replies : List Command → List (Attempt HttpResponse) → List Reply → Type 0 where
      nothing : Replies [] [] []
      unsent :
          {cs : List Command} {answers : List (Attempt HttpResponse)} {replies : List Reply}
          (c : Command)
          → request_of c ≡ none
          → Replies cs answers replies
          → Replies (c ∷ cs) answers (of_send (err (transport (codes "invalid method"))) ∷ replies)
      answered :
          {cs : List Command} {answers : List (Attempt HttpResponse)} {replies : List Reply}
          (c : Command) (request : HttpRequest) (answer : Attempt HttpResponse) (reply : Reply)
          → request_of c ≡ some request
          → Reads answer c reply
          → Replies cs answers replies
          → Replies (c ∷ cs) (answer ∷ answers) (reply ∷ replies)

    -- A call that exchanges nothing, and one that exchanges its request
    Skips : HttpClient → Command → World → Type 0
    Skips client c w =
        (request_of c ≡ none)
        × (perform_one client c w ≡ (of_send (err (transport (codes "invalid method"))), w))

    Exchanges : HttpClient → Command → World → Type 0
    Exchanges client c w =
        (request : HttpRequest) × (request_of c ≡ some request)
        × Reads (execute client request w).0 c (perform_one client c w).0
        × ((perform_one client c w).1 ≡ (execute client request w).1)

    perform_one-cases :
        (client : HttpClient) (c : Command) (w : World) → Skips client c w ⊎ Exchanges client c w
    unfolding Skips Exchanges
    perform_one-cases client (sends request) w =
        let sent = execute client (send_request http request) w in
        let takes = method_from_bytes (utf8 request.parts.method) in
        elim (Bool-cases takes) [
          | inr h ↦ inl (rw h refl, rw (send_lem http client request w, h) refl)
          | inl h ↦ inr (
            send_request http request,
            rw h refl,
            read_send request _ (
                (send_result-SendOutcome_iff {W = Unit {0}} true tt sent.0 tt
                    ((send http client request w).0, tt)).0
                  (rw (send_lem http client request w, h) refl)),
            rw (send_lem http client request w, h) refl,
          )
        ]
    perform_one-cases client (fetches base_url) w =
        let (o, e) = (fetch_kernel_identity-FetchOutcome_iff http client base_url w _ _).0 refl in
        inr (identity_request base_url, refl, read_fetch base_url _ o, e)
    perform_one-cases client (asks base_url pod_uid token) w =
        let (o, e) =
          (request_enrollment_challenge-CallOutcome_iff http client base_url pod_uid token w _ _).0
            refl in
        inr (
          challenge_request http base_url pod_uid token,
          refl,
          read_challenge base_url pod_uid token _ o,
          e,
        )
    perform_one-cases client (submits base_url submission) w =
        let (o, e) =
          (submit_enrollment-CallOutcome_iff http client base_url submission w _ _).0 refl in
        inr (
          submission_request http base_url submission,
          refl,
          read_submission base_url submission _ o,
          e,
        )

    -- Whatever calls a client makes, one after another, and whatever the answers: what is exchanged
    -- are the calls' own requests, each exactly once and in the order of the calls, but for
    -- requests of a method that the client does not take, and nothing else, since the world that is
    -- left is the one that these exchanges lead to; and each call's reply is made of the answer to
    -- its own request alone, as the outcomes of the four calls list it, or is the error of a method
    -- that is not taken.
    pub perform-Replies :
        (client : HttpClient) (cs : List Command) (w : World)
        → let (answers, left) = exchanges client (requests_of cs) w in
          Replies cs answers (perform client cs w).0 × ((perform client cs w).1 ≡ left)
    unfolding Skips Exchanges
    perform-Replies client [] w = (nothing, refl)
    perform-Replies client (c ∷ cs) w = elim (perform_one-cases client c w) [
      | inl (none_of, skips) ↦
          let (replies, left) = perform-Replies client cs w in
          rw (none_of, skips) (unsent c none_of replies, left)
      | inr (request, some_of, reads, next) ↦
          let sent = execute client request w in
          let (replies, left) = perform-Replies client cs sent.1 in
          rw (some_of, next) (answered c request sent.0 _ some_of reads replies, left)
    ]
