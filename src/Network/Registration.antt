-- ===== src/Network/Registration.antt =====
-- A workload gets through the enrollment, whatever else goes on.
use infernal_client_rs.Common.{◌≡◌, ◌≢◌, inl, refl, sym, ap, ◌∙◌, [], ◌∷◌}
use infernal_client_rs.Common.Text.{Bytes, Str, trim}
use infernal_client_rs.Common.Trim.{trim_idem}
use mathlib.Core.List.{Memᴰ}
use infernal_client_rs.Common.Int.{ℤ}
use mathlib.Core.Path.{subst}
use infernal_client_rs.Error.{ok}
use infernal_client_rs.Deps.{Deps, UuidLaws, Base64Laws, Ed25519Laws, IsBytes}
use infernal_client_rs.Credential.{ClientCredential, generate}
use infernal_client_rs.Enrollment
use infernal_client_rs.Enrollment.{EnrollmentSubmission}
use infernal_client_rs.Enrollment.Submission.{IsEndpoint, submission_of, sign-ok_iff}
use infernal_client_rs.Enrollment.Kernel.{Verifies, sign-Verifies}
use infernal_client_rs.Network.{
  Parties, EnrollmentProof, World, IsProper, proof_of, proof_bytes, enroll, register, Reach, later,
}

module _ ⦃d : Deps⦄ where
  open d use {Uuid, SigningKey}

  -- What a workload brings to its enrollment
  pub record Applicant : Type 0 where
    pub signing_key : SigningKey
    pub instance_id : Uuid
    pub key_id : Uuid
    pub service_id : Uuid
    pub challenge : Bytes
    pub endpoint : Str
    pub pod_uid : Str
    pub token : Str

  abbrev pub credential_of : Applicant → ClientCredential
  credential_of a = generate a.signing_key a.instance_id a.key_id a.service_id

  -- What it signs
  abbrev pub proof_by : Applicant → EnrollmentProof
  proof_by a = record {
    key = (credential_of a).public_key;
    challenge = a.challenge;
    endpoint = trim a.endpoint;
    pod_uid = trim a.pod_uid;
    token = a.token;
  }

  pub record CanEnroll (a : Applicant) : Type 0 where
    pub bytes : IsBytes a.challenge
    pub proper : IsProper (proof_by a)
    pub is_endpoint : IsEndpoint (trim a.endpoint)
    pub pod_uid_given : trim a.pod_uid ≢ []
    pub token_given : a.token ≢ []

  module _ (uuid : UuidLaws) (base64 : Base64Laws) (ed : Ed25519Laws) where
    -- The kernel reads in a submission what was signed.
    read_back :
        (a : Applicant) (submission : EnrollmentSubmission)
        → IsBytes a.challenge
        → Enrollment.sign (credential_of a) a.challenge a.endpoint a.pod_uid a.token ≡ ok submission
        → (v : Verifies submission) × (proof_of submission v ≡ proof_by a)
    unfolding generate
    read_back a submission bytes h =
        let (v, ec, es, ei, ek, eb) =
          sign-Verifies uuid base64 ed a.signing_key a.instance_id a.key_id a.service_id a.challenge
            a.endpoint a.pod_uid a.token submission bytes h in
        let (_, _, _, e) =
          (sign-ok_iff (credential_of a) a.challenge a.endpoint a.pod_uid a.token submission).0 h in
        (
          v,
          λ j. record {
            key = record {
              service_id = es j;
              instance_id = ei j;
              key_id = ek j;
              public_key = eb j;
            };
            challenge = ec j;
            endpoint = (ap (λ x. trim x.endpoint) e ∙ trim_idem a.endpoint) j;
            pod_uid = (ap (λ x. trim x.pod_uid) e ∙ trim_idem a.pod_uid) j;
            token = ap (λ x. x.workload_token) e j;
          },
        )

    -- From every world that is reached, a workload gets to be registered.
    pub Reach-registered :
        (ps : Parties) {t : ℤ} {w : World} (a : Applicant)
        → CanEnroll a
        → Reach ps t w
        → Reach ps t
            (record w { proofs = proof_by a ∷ w.proofs; registered = proof_by a ∷ w.registered })
    Reach-registered ps {t = t} {w = w} a can r =
        let credential = credential_of a in
        let submission =
          submission_of credential a.challenge (trim a.endpoint) (trim a.pod_uid) a.token in
        let signed =
          (sign-ok_iff credential a.challenge a.endpoint a.pod_uid a.token submission).1
            (can.is_endpoint, can.pod_uid_given, can.token_given, refl) in
        let (v, same) = read_back a submission can.bytes signed in
        let enrolled = later r (
          enroll credential a.challenge a.endpoint a.pod_uid a.token submission can.proper
            signed) in
        let honest = inl (
          proof_by a,
          Memᴰ.head refl,
          ap (λ q. q.key.public_key) (sym same),
          ap proof_bytes same,
        ) in
        subst
          (λ q.
            Reach ps t (record w { proofs = proof_by a ∷ w.proofs; registered = q ∷ w.registered }))
          same
          (later enrolled
            (register submission v (subst IsProper (sym same) can.proper) (λ _ _. honest)))
