-- ===== src/Transport/Enroll.antt =====
-- src/transport.rs, src/enrollment.rs: an enrollment from the challenge to the registered instance.
use infernal_client_rs.Common.{◌≡◌, ◌≢◌, refl, some, [], length}
use infernal_client_rs.Common.Text.{Bytes, Str, trim}
use infernal_client_rs.Error.{ok}
use infernal_client_rs.Call.{Call, lift, ◌>>=◌}
use infernal_client_rs.Deps.{Deps, UuidLaws, Base64Laws, Ed25519Laws, IsBytes}
use infernal_client_rs.Credential.{ClientPublicKey, ClientCredential, generate}
use infernal_client_rs.Enrollment.{
  EnrollmentSubmission, EnrolledInstance, IssuedChallenge, challenge_bytes, sign,
}
use infernal_client_rs.Enrollment.Submission.{IsEndpoint, submission_of, sign-ok_iff}
use infernal_client_rs.Enrollment.Kernel.{Verifies, sign-Verifies, challenge_bytes_cases}
use infernal_client_rs.Transport.{Http}
use infernal_client_rs.Transport.Client.{request_enrollment_challenge, submit_enrollment}
use infernal_client_rs.Transport.Outcome.{Succeeds, given}
use infernal_client_rs.Transport.Calls.{
  challenge_request, submission_request, request_enrollment_challenge-CallOutcome_iff,
  submit_enrollment-CallOutcome_iff,
}

module _ ⦃d : Deps⦄ where
  open d use {Uuid, SigningKey, url_safe_decode}

  module _ (http : Http) where
    open http use {HttpClient, World, execute, parse_challenge, parse_enrolled}

    -- The calls of a workload that enrolls, in the order that the crate documents
    unfoldable pub enroll :
        HttpClient → ClientCredential → Str → Str → Str → Str → Call World EnrolledInstance
    enroll client credential base_url endpoint pod_uid token = do
      issued ← request_enrollment_challenge http client base_url pod_uid token
      challenge ← lift (challenge_bytes issued)
      submission ← lift (sign credential challenge endpoint pod_uid token)
      submit_enrollment http client base_url submission

    -- A submission that verifies, of a given workload over a given challenge
    pub record IsOf (key : ClientPublicKey) (challenge : Bytes) (endpoint pod_uid token : Str)
        (submission : EnrollmentSubmission) : Type 0 where
      pub verifies : Verifies submission
      pub same_challenge : verifies.raw_challenge ≡ challenge
      pub same_service : verifies.service ≡ key.service_id
      pub same_instance : verifies.instance ≡ key.instance_id
      pub same_key : verifies.key ≡ key.key_id
      pub same_public_key : verifies.key_bytes ≡ key.public_key
      pub same_endpoint : submission.endpoint ≡ endpoint
      pub same_pod_uid : submission.pod_uid ≡ pod_uid
      pub same_token : submission.workload_token ≡ token

    -- A kernel that issues a challenge to the workload of a pod, on its token; and that, in the world
    -- that this leads to, where the challenge is still to be used, registers the workload on a
    -- submission of its own that verifies over the challenge. Nothing is said of other submissions,
    -- or of what it answers later.
    pub record Enrolls (client : HttpClient) (base_url : Str) (key : ClientPublicKey)
        (endpoint pod_uid token : Str) (world : World) (raw : Bytes) (issued : IssuedChallenge)
        (enrolled : EnrolledInstance) : Type 0 where
      pub opened : World
      pub issues :
          let sent = execute client (challenge_request http base_url pod_uid token) world in
          Succeeds http parse_challenge sent.0 issued × (opened ≡ sent.1)
      pub reads : url_safe_decode issued.challenge ≡ some raw
      pub registers :
          (submission : EnrollmentSubmission)
          → IsOf key raw (trim endpoint) (trim pod_uid) token submission
          → Succeeds http parse_enrolled
              (execute client (submission_request http base_url submission) opened).0
              enrolled

    -- With a kernel that issues the workload's pod a challenge of 32 bytes and registers the
    -- workload on the first submission of its own that verifies over it, a workload with a generated
    -- credential, an endpoint of https:// and more, a pod id that is not blank and a token ends up
    -- registered: its calls give that instance, and they make two exchanges, the request for the
    -- challenge and one submission over it.
    pub enroll-ok :
        UuidLaws
        → Base64Laws
        → Ed25519Laws
        → (client : HttpClient) (signing_key : SigningKey) (instance_id key_id service_id : Uuid)
          (base_url endpoint pod_uid token : Str) (world : World) (raw : Bytes)
          (issued : IssuedChallenge) (enrolled : EnrolledInstance)
          (kernel : Enrolls client base_url
            (generate signing_key instance_id key_id service_id).public_key
            endpoint
            pod_uid
            token
            world
            raw
            issued
            enrolled)
        → length raw ≡ 32
        → IsBytes raw
        → IsEndpoint (trim endpoint)
        → trim pod_uid ≢ []
        → token ≢ []
        → let credential = generate signing_key instance_id key_id service_id in
          let submission = submission_of credential raw (trim endpoint) (trim pod_uid) token in
          enroll client credential base_url endpoint pod_uid token world ≡ (
            ok enrolled,
            (execute client (submission_request http base_url submission) kernel.opened).1,
          )
    unfolding enroll generate
    enroll-ok uuid base64 ed client k i kid s base_url endpoint pod_uid token world raw issued
          enrolled kernel long bytes he hp ht =
        let credential = generate k i kid s in
        let submission = submission_of credential raw (trim endpoint) (trim pod_uid) token in
        let asked =
          (request_enrollment_challenge-CallOutcome_iff http client base_url pod_uid token world
              kernel.opened (ok issued)).1
            (given issued kernel.issues.0, kernel.issues.1) in
        let read = ((challenge_bytes_cases issued).0 raw).1 (kernel.reads, long) in
        let signed =
          (sign-ok_iff credential raw endpoint pod_uid token submission).1 (he, hp, ht, refl) in
        let (v, ec, es, ei, ek, eb) =
          sign-Verifies uuid base64 ed k i kid s raw endpoint pod_uid token submission bytes
            signed in
        let own : IsOf credential.public_key raw (trim endpoint) (trim pod_uid) token submission =
          record {
            verifies = v;
            same_challenge = ec;
            same_service = es;
            same_instance = ei;
            same_key = ek;
            same_public_key = eb;
            same_endpoint = refl;
            same_pod_uid = refl;
            same_token = refl;
          } in
        let sent =
          (submit_enrollment-CallOutcome_iff http client base_url submission kernel.opened _
              (ok enrolled)).1
            (given enrolled (kernel.registers submission own), refl) in
        rw (asked, read, signed, sent) refl
