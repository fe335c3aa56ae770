-- ===== src/Enrollment/Secrecy.antt =====
-- src/enrollment.rs: where the bearer token of an enrollment gets to.
use infernal_client_rs.Common.{◌≡◌, ◌≢◌, refl, ap, sym, ◌∙◌, ◌||◌, not, [], is_empty, list_eq}
use infernal_client_rs.Common.Text.{Bytes, Str, codes, utf8, trim, starts_with}
use infernal_client_rs.Error.{Result, ok, err, ◌>>◌, refuse_if, invalid_request_part}
use infernal_client_rs.Deps.{Deps}
use infernal_client_rs.Credential.{ClientCredential}
use infernal_client_rs.Enrollment.{EnrollmentSubmission, proof_message, sign, fmt}
use infernal_client_rs.Enrollment.Submission.{is_empty_iff, submission_of}

-- A submission without its token
abbrev pub without_token : EnrollmentSubmission → EnrollmentSubmission
without_token submission = record submission { workload_token = [] }

-- A submission without its token and its signature
abbrev pub redacted : EnrollmentSubmission → EnrollmentSubmission
redacted submission = record submission { workload_token = []; signature = [] }

abbrev pub map_ok {ℓ κ} : {A : Type ℓ} {B : Type κ} → (A → B) → Result A → Result B
map_ok f (ok a) = ok (f a)
map_ok f (err e) = err e

module _ ⦃d : Deps⦄ where
  open d use {sha256}

  -- Once the token is there, what is signed is decided by the other parts.
  sign-given :
      (credential : ClientCredential) (challenge : Bytes) (endpoint pod_uid token : Str)
      → token ≢ []
      → sign credential challenge endpoint pod_uid token ≡ (do
        refuse_if
            (list_eq (trim endpoint) (codes "https://")
              || not (starts_with (trim endpoint) (codes "https://")))
            (invalid_request_part (codes "endpoint"))
        refuse_if (is_empty (trim pod_uid)) (invalid_request_part (codes "pod_uid"))
        ok (submission_of credential challenge (trim endpoint) (trim pod_uid) token))
  unfolding sign
  sign-given credential challenge endpoint pod_uid token given =
      rw ((is_empty_iff token).1 given) refl

  -- The parts that are checked, and what becomes of a submission that is signed
  map_ok-checks {ℓ κ} :
      {A : Type ℓ} {B : Type κ} (r s : Result (Unit {0})) (f : A → B) (a b : A)
      → f a ≡ f b
      → map_ok f (r >> (s >> ok a)) ≡ map_ok f (r >> (s >> ok b))
  map_ok-checks (err e) s f a b h = refl
  map_ok-checks (ok _) (err e) f a b h = refl
  map_ok-checks (ok _) (ok _) f a b h = ap ok h

  -- Any two tokens that are not empty, all else being the same, lead to the same outcome of signing
  -- a submission (the same error, or submissions that differ in the token's own field and in the
  -- signature at most), and a challenge request with either shows the same for debugging.
  pub sign-redacted :
      (credential : ClientCredential) (challenge : Bytes) (endpoint pod_uid t u : Str)
      → t ≢ []
      → u ≢ []
      → (map_ok redacted (sign credential challenge endpoint pod_uid t)
          ≡ map_ok redacted (sign credential challenge endpoint pod_uid u))
        × (fmt (record { pod_uid = pod_uid; workload_token = t })
            ≡ fmt (record { pod_uid = pod_uid; workload_token = u }))
  unfolding fmt
  sign-redacted credential challenge endpoint pod_uid t u ht hu = (
    ap (map_ok redacted) (sign-given credential challenge endpoint pod_uid t ht)
        ∙ map_ok-checks _ _ redacted _ _ refl
        ∙ sym (ap (map_ok redacted) (sign-given credential challenge endpoint pod_uid u hu)),
    refl,
  )

  -- Tokens of the same digest lead to the same submission but for the token's own field, so the
  -- signature tells no more of a token than its digest.
  sign-without_token :
      (credential : ClientCredential) (challenge : Bytes) (endpoint pod_uid t u : Str)
      → t ≢ []
      → u ≢ []
      → sha256 (utf8 t) ≡ sha256 (utf8 u)
      → map_ok without_token (sign credential challenge endpoint pod_uid t)
        ≡ map_ok without_token (sign credential challenge endpoint pod_uid u)
  unfolding proof_message
  sign-without_token credential challenge endpoint pod_uid t u ht hu same =
      ap (map_ok without_token) (sign-given credential challenge endpoint pod_uid t ht)
      ∙ map_ok-checks _ _ without_token _ _ (rw same refl)
      ∙ sym (ap (map_ok without_token) (sign-given credential challenge endpoint pod_uid u hu))
