-- ===== src/Enrollment/Submission.antt =====
-- src/enrollment.rs: which submissions are signed, how signing fails, and what the kernel makes of
-- one: it reads the fields back, recomputes the message and verifies the signature.
use infernal_client_rs.Common.{
  ◌≡◌, ◌≢◌, ◌↔◌, sym, ap, ◌∙◌, Bool, true, false, not, ◌||◌, [], ◌∷◌, ◌++◌, is_empty, list_eq,
  list_eq_iff, append_cancel, arith, true_of_not, false_of_not,
}
use infernal_client_rs.Common.Text.{Bytes, Str, codes, trim, starts_with}
use infernal_client_rs.Common.Split.{starts_with_iff}
use infernal_client_rs.Common.Trim.{trim_idem}
use infernal_client_rs.Error.{ok, err, refuse_if->>-eq-ok, ok-injective, invalid_request_part}
use infernal_client_rs.Deps.{Deps}
use infernal_client_rs.Credential
use infernal_client_rs.Credential.{
  ClientCredential, algorithm_name, generate, to_array, to_array_exact, to_array_sound,
}
use infernal_client_rs.Enrollment.{EnrollmentSubmission, proof_message, sign}

-- `https://` and more
abbrev pub IsEndpoint : Str → Type 0
IsEndpoint endpoint = (rest : Str) × (rest ≢ []) × (endpoint ≡ codes "https://" ++ rest)

-- The test on an endpoint
abbrev endpoint_test : Str → Bool
endpoint_test endpoint =
    list_eq endpoint (codes "https://") || not (starts_with endpoint (codes "https://"))

endpoint_test_iff : (endpoint : Str) → (endpoint_test endpoint ≡ false) ↔ IsEndpoint endpoint
endpoint_test_iff endpoint = (
  λ h.
      let (rest, e) = (starts_with_iff endpoint (codes "https://")).0 (ground arith) in
      (
        rest,
        λ empty.
            let whole : list_eq endpoint (codes "https://") ≡ true =
              (list_eq_iff endpoint (codes "https://")).1
                (e ∙ ap (λ r. codes "https://" ++ r) empty) in
            ground arith,
        e,
      ),
  λ (rest, nonempty, e).
      let prefixed : starts_with endpoint (codes "https://") ≡ true =
        (starts_with_iff endpoint (codes "https://")).1 (rest, e) in
      let longer : list_eq endpoint (codes "https://") ≡ false =
        false_of_not _ (list_eq_iff endpoint (codes "https://")).0
          (λ same. nonempty (append_cancel (codes "https://") rest [] (sym e ∙ same))) in
      ground arith,
)

pub is_empty_iff : (s : Str) → (is_empty s ≡ false) ↔ (s ≢ [])
is_empty_iff [] = ground arith
is_empty_iff (c ∷ s) = ground arith

is_empty-true_iff : (s : Str) → (is_empty s ≡ true) ↔ (s ≡ [])
is_empty-true_iff [] = ground arith
is_empty-true_iff (c ∷ s) = ground arith

module _ ⦃d : Deps⦄ where
  open d use {Uuid, uuid_to_string, uuid_parse, url_safe_encode, url_safe_decode, SigningKey}

  -- The submission over texts as they are
  abbrev pub submission_of : ClientCredential → Bytes → Str → Str → Str → EnrollmentSubmission
  submission_of credential challenge endpoint pod_uid token = record {
    service_id = uuid_to_string credential.public_key.service_id;
    instance_id = uuid_to_string credential.public_key.instance_id;
    key_id = uuid_to_string credential.public_key.key_id;
    algorithm = algorithm_name;
    public_key = url_safe_encode credential.public_key.public_key;
    challenge = url_safe_encode challenge;
    endpoint = endpoint;
    pod_uid = pod_uid;
    workload_token = token;
    signature = url_safe_encode (
        Credential.sign credential
          (proof_message challenge credential.public_key endpoint pod_uid token));
  }

  -- Signing a submission succeeds exactly when the trimmed endpoint is https:// and more, the
  -- trimmed pod id is not empty and the token is not; the submission then holds the trimmed texts
  -- and a signature over the message made of them.
  pub sign-ok_iff :
      (credential : ClientCredential) (challenge : Bytes) (endpoint pod_uid token : Str)
      (submission : EnrollmentSubmission)
      → (sign credential challenge endpoint pod_uid token ≡ ok submission) ↔ (
          IsEndpoint (trim endpoint)
          × (trim pod_uid ≢ [])
          × (token ≢ [])
          × (submission ≡ submission_of credential challenge (trim endpoint) (trim pod_uid) token))
  unfolding sign
  sign-ok_iff credential challenge endpoint pod_uid token submission = (
    λ h.
        let (he, h1) = refuse_if->>-eq-ok (endpoint_test (trim endpoint)) _ _ h in
        let (hp, h2) = refuse_if->>-eq-ok (is_empty (trim pod_uid)) _ _ h1 in
        let (ht, h3) = refuse_if->>-eq-ok (is_empty token) _ _ h2 in
        (
          (endpoint_test_iff (trim endpoint)).0 he,
          (is_empty_iff (trim pod_uid)).0 hp,
          (is_empty_iff token).0 ht,
          sym (ok-injective h3),
        ),
    λ (he, hp, ht, e). rw (
      (endpoint_test_iff (trim endpoint)).1 he,
      (is_empty_iff (trim pod_uid)).1 hp,
      (is_empty_iff token).1 ht,
      e,
    ),
  )

  -- Blanks around the endpoint and the pod id make no difference: the proof is over the trimmed
  -- texts that the kernel recomputes it from.
  sign-trim :
      (credential : ClientCredential) (challenge : Bytes) (endpoint pod_uid token : Str)
      → sign credential challenge (trim endpoint) (trim pod_uid) token
        ≡ sign credential challenge endpoint pod_uid token
  unfolding sign
  sign-trim credential challenge endpoint pod_uid token = rw (trim_idem endpoint, trim_idem pod_uid)

  -- A refusal to sign a submission names the first part that is not valid: the trimmed endpoint,
  -- the trimmed pod id, then the token.
  sign-err_iff :
      (credential : ClientCredential) (challenge : Bytes) (endpoint pod_uid token : Str)
      → let signed = sign credential challenge endpoint pod_uid token in
        ((signed ≡ err (invalid_request_part (codes "endpoint"))) ↔ (¬ IsEndpoint (trim endpoint)))
        × ((signed ≡ err (invalid_request_part (codes "pod_uid")))
            ↔ (IsEndpoint (trim endpoint) × (trim pod_uid ≡ [])))
        × ((signed ≡ err (invalid_request_part (codes "workload_token")))
            ↔ (IsEndpoint (trim endpoint) × (trim pod_uid ≢ []) × (token ≡ [])))
  unfolding sign
  sign-err_iff credential challenge endpoint pod_uid token =
      let (e0, e1) = endpoint_test_iff (trim endpoint) in
      let (p0, p1) = is_empty_iff (trim pod_uid) in
      let (t0, t1) = is_empty-true_iff token in
      let (q0, q1) = is_empty-true_iff (trim pod_uid) in
      (
        (λ h v. ground (arith, e1 v), λ n. ground (arith, true_of_not _ e0 n)),
        (λ h. (e0 (ground arith), q0 (ground arith)), λ (v, n). ground (arith, e1 v, q1 n)),
        (
          λ h. (e0 (ground arith), p0 (ground arith), t0 (ground arith)),
          λ (v, n, m). ground (arith, e1 v, p1 n, t1 m),
        ),
      )
