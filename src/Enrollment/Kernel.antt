-- ===== src/Enrollment/Kernel.antt =====
-- src/enrollment.rs: what the kernel makes of a submission. It reads the fields back, recomputes
-- the message from them and verifies the signature.
use infernal_client_rs.Common.{◌≡◌, ◌↔◌, refl, some, length}
use infernal_client_rs.Common.Text.{Bytes, Str, trim}
use infernal_client_rs.Common.Trim.{trim_idem}
use infernal_client_rs.Error.{
  fails_rules, ok, err, FailsWith-err_iff, FailsWith, ok_or-eq-ok, ok_or->>=-eq-ok,
  malformed_enrollment_response,
}
use infernal_client_rs.Deps.{Deps, UuidLaws, Base64Laws, Ed25519Laws, IsBytes}
use infernal_client_rs.Credential
use infernal_client_rs.Credential.{generate, to_array, to_array_exact, to_array_sound}
use infernal_client_rs.Enrollment.{
  EnrollmentSubmission, IssuedChallenge, challenge_length, proof_message, sign, challenge_bytes,
}
use infernal_client_rs.Enrollment.Submission.{sign-ok_iff}

module _ ⦃d : Deps⦄ where
  open d use {Uuid, uuid_parse, url_safe_encode, url_safe_decode, SigningKey, verifying_key}

  -- A submission whose fields decode, and whose signature verifies over the message that is
  -- recomputed from them, with the texts trimmed once more
  pub record Verifies (submission : EnrollmentSubmission) : Type 0 where
    pub service : Uuid
    pub instance : Uuid
    pub key : Uuid
    pub key_bytes : Bytes
    pub raw_challenge : Bytes
    pub raw_signature : Bytes
    pub reads_service : uuid_parse submission.service_id ≡ some service
    pub reads_instance : uuid_parse submission.instance_id ≡ some instance
    pub reads_key : uuid_parse submission.key_id ≡ some key
    pub reads_public_key : url_safe_decode submission.public_key ≡ some key_bytes
    pub reads_challenge : url_safe_decode submission.challenge ≡ some raw_challenge
    pub reads_signature : url_safe_decode submission.signature ≡ some raw_signature
    pub length-raw_signature : length raw_signature ≡ 64
    pub accepts :
        Credential.verify key_bytes
          (proof_message raw_challenge
            (record {
              service_id = service;
              instance_id = instance;
              key_id = key;
              public_key = key_bytes;
            })
            (trim submission.endpoint)
            (trim submission.pod_uid)
            submission.workload_token)
          raw_signature
        ≡ ok tt

  -- A submission that a generated credential signs over a challenge of bytes verifies at the
  -- kernel, which reads back the challenge, the ids and the public key that were signed, recomputes
  -- the message from the submission's own trimmed fields and accepts the signature.
  pub sign-Verifies :
      UuidLaws
      → Base64Laws
      → Ed25519Laws
      → (signing_key : SigningKey) (instance_id key_id service_id : Uuid) (challenge : Bytes)
        (endpoint pod_uid token : Str) (submission : EnrollmentSubmission)
      → IsBytes challenge
      → sign (generate signing_key instance_id key_id service_id) challenge endpoint pod_uid token
        ≡ ok submission
      → (v : Verifies submission) × (v.raw_challenge ≡ challenge)
        × (v.service ≡ service_id)
        × (v.instance ≡ instance_id)
        × (v.key ≡ key_id)
        × (v.key_bytes ≡ verifying_key signing_key)
  unfolding generate Credential.verify Credential.sign
  sign-Verifies uuid base64 ed k i kid s challenge endpoint pod_uid token submission hc h =
      let (_, _, _, e) =
        (sign-ok_iff (generate k i kid s) challenge endpoint pod_uid token submission).0 h in
      rw e (
        record {
          service = s;
          instance = i;
          key = kid;
          key_bytes = verifying_key k;
          raw_challenge = challenge;
          raw_signature = _;
          reads_service = uuid.parse-to_string s;
          reads_instance = uuid.parse-to_string i;
          reads_key = uuid.parse-to_string kid;
          reads_public_key = base64.url_safe_round_trip _ (ed.verifying_key-IsBytes k);
          reads_challenge = base64.url_safe_round_trip challenge hc;
          reads_signature = base64.url_safe_round_trip _ (ed.sign-IsBytes k _);
          length-raw_signature = ed.length-sign k _;
          accepts = rw (
            trim_idem endpoint,
            trim_idem pod_uid,
            ed.from_bytes-verifying_key k,
            ed.verify-sign k _,
          );
        },
        refl,
        refl,
        refl,
        refl,
        refl,
      )

  challenge_bytes-ok_iff :
      (issued : IssuedChallenge) (b : Bytes)
      → (challenge_bytes issued ≡ ok b)
        ↔ ((url_safe_decode issued.challenge ≡ some b) × (length b ≡ 32))
  unfolding challenge_bytes
  challenge_bytes-ok_iff issued b = (
    λ h.
        let (decoded, hd, rest) = ok_or->>=-eq-ok (url_safe_decode issued.challenge) _ _ h in
        let (same, len) = to_array_sound challenge_length decoded (ok_or-eq-ok _ _ rest) in
        (rw same hd, len),
    λ (hd, len). rw (hd, to_array_exact challenge_length b len),
  )

  challenge_bytes-FailsWith :
      (issued : IssuedChallenge) → FailsWith malformed_enrollment_response (challenge_bytes issued)
  unfolding challenge_bytes
  challenge_bytes-FailsWith issued = search fails_rules

  -- An issued challenge is read exactly when its text decodes to 32 bytes, which are the result;
  -- it fails with `malformed_enrollment_response` exactly when the text decodes to no 32 bytes.
  pub challenge_bytes_cases :
      (issued : IssuedChallenge)
      → ((b : Bytes)
          → (challenge_bytes issued ≡ ok b)
            ↔ ((url_safe_decode issued.challenge ≡ some b) × (length b ≡ 32)))
        × ((challenge_bytes issued ≡ err malformed_enrollment_response)
            ↔ (¬ ((b : Bytes) × ((url_safe_decode issued.challenge ≡ some b) × (length b ≡ 32)))))
  challenge_bytes_cases issued = (
    challenge_bytes-ok_iff issued,
    FailsWith-err_iff malformed_enrollment_response (challenge_bytes issued)
        (challenge_bytes-FailsWith issued) (challenge_bytes-ok_iff issued),
  )
