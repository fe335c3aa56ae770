-- ===== src/Network.antt =====
-- src/enrollment.rs, src/request.rs and src/verify.rs together: workloads that enroll with a kernel
-- and then sign requests, each with its own key, a network that delivers whatever it likes, and a
-- server that verifies what it is given under a registered key of its choice. Some of the keys may
-- be in dishonest hands.
pub mod Channel
pub mod Accounts
pub mod Signature
pub mod Invariant
pub mod Refinement
pub mod Progress
pub mod Registration
pub mod Service
pub mod Isolation
pub mod Replay
use infernal_client_rs.Common.{◌≡◌, ◌⊎◌, true, List, [], ◌∷◌}
use infernal_client_rs.Common.Int.{ℤ, pos, ◌≤ℤ◌, IsI64}
use infernal_client_rs.Common.Text.{Bytes, Str, trim}
use mathlib.Core.List.{Memᴰ}
use infernal_client_rs.Error.{ok, err, ClientError}
use infernal_client_rs.Deps.{Deps}
use infernal_client_rs.Credential.{ClientPublicKey, ClientCredential}
use infernal_client_rs.Wire.{content_digest, signature_parameters}
use infernal_client_rs.Wire.Layout.{input_layout}
use infernal_client_rs.Request.{RequestParts, SignedRequest, sign_with, base_bytes}
use infernal_client_rs.Request.Parts.{IsValid}
use infernal_client_rs.Verify.{IncomingRequest, VerifiedRequest, parse_signature, verify_incoming}
use infernal_client_rs.Verify.Signature.{IsSignatureHeader}
use infernal_client_rs.Verify.Accept.{incoming_base}
use infernal_client_rs.Enrollment
use infernal_client_rs.Enrollment.{EnrollmentSubmission, proof_message}
use infernal_client_rs.Enrollment.Proof.{IsProofInput}
use infernal_client_rs.Enrollment.Kernel.{Verifies}

module _ ⦃d : Deps⦄ where
  open d use {verify_strict}

  -- How a request is signed under a key, and which public keys are in honest hands
  pub record Parties : Type 1 where
    pub signer : ClientPublicKey → Bytes → Bytes
    pub IsHonest : Bytes → Type 0

  -- What an enrollment is signed over
  pub record EnrollmentProof : Type 0 where
    pub key : ClientPublicKey
    pub challenge : Bytes
    pub endpoint : Str
    pub pod_uid : Str
    pub token : Str

  -- What a request is signed over
  pub record Issue : Type 0 where
    pub key : ClientPublicKey
    pub parts : RequestParts
    pub created : ℤ
    pub expires : ℤ
    pub nonce : Str

  -- A request that was accepted, the key it was verified under, the server's answer, and its clock
  -- then
  pub record Entry : Type 0 where
    pub key : ClientPublicKey
    pub request : IncomingRequest
    pub answer : VerifiedRequest
    pub at : ℤ

  -- The clock, what was signed (enrollments and requests), what the kernel has registered, and what
  -- the server has accepted
  pub record World : Type 0 where
    pub now : ℤ
    pub proofs : List EnrollmentProof
    pub registered : List EnrollmentProof
    pub issued : List Issue
    pub accepted : List Entry

  -- The bytes that are signed
  abbrev pub proof_bytes : EnrollmentProof → Bytes
  proof_bytes p = proof_message p.challenge p.key p.endpoint p.pod_uid p.token

  abbrev pub issue_base : Issue → Bytes
  issue_base i =
      base_bytes i.parts i.key (content_digest i.parts.body)
        (signature_parameters i.created i.expires i.nonce i.key.key_id)

  abbrev pub IsProper : EnrollmentProof → Type 0
  IsProper p = IsProofInput p.challenge p.key p.endpoint p.pod_uid

  -- What the kernel reads in a submission that verifies
  abbrev pub proof_of : (submission : EnrollmentSubmission) → Verifies submission → EnrollmentProof
  proof_of submission v = record {
    key = record {
      service_id = v.service;
      instance_id = v.instance;
      key_id = v.key;
      public_key = v.key_bytes;
    };
    challenge = v.raw_challenge;
    endpoint = trim submission.endpoint;
    pod_uid = trim submission.pod_uid;
    token = submission.workload_token;
  }

  -- That an honest key's signature on a message is not forged: the message was signed with the key,
  -- for an enrollment or for a request.
  abbrev pub Unforged : Parties → World → Bytes → Bytes → Bytes → Type 0
  Unforged ps w public_key message signature =
      ps.IsHonest public_key
      → verify_strict public_key message signature ≡ true
      → ((p : EnrollmentProof) × Memᴰ p w.proofs
          × (p.key.public_key ≡ public_key)
          × (message ≡ proof_bytes p))
        ⊎ ((i : Issue) × Memᴰ i w.issued
            × (i.key.public_key ≡ public_key)
            × (message ≡ issue_base i))

  -- What the network may deliver to a server that looks up `key`: any request, as long as the
  -- signature in it is not a forgery. Replays, mixtures, garbage, and whatever the holders of
  -- dishonest keys make up are all allowed.
  abbrev pub CanSend : Parties → ClientPublicKey → World → IncomingRequest → Type 0
  CanSend ps key w request =
      (parameters : Str) (signature : Bytes)
      → request.signature_input ≡ input_layout parameters
      → IsSignatureHeader request.signature signature
      → Unforged ps w key.public_key (incoming_base request parameters) signature

  abbrev pub IsMember : List EnrollmentProof → ClientPublicKey → Type 0
  IsMember registered key = (p : EnrollmentProof) × Memᴰ p registered × (p.key ≡ key)

  pub data Step (ps : Parties) (w : World) : World → Type 0 where
    tick : (t : ℤ) → IsI64 t → w.now ≤ℤ t → Step ps w (record w { now = t })
    enroll :
        (credential : ClientCredential) (challenge : Bytes) (endpoint pod_uid token : Str)
        (submission : EnrollmentSubmission)
        → IsProofInput challenge credential.public_key (trim endpoint) (trim pod_uid)
        → Enrollment.sign credential challenge endpoint pod_uid token ≡ ok submission
        → Step ps w (record w {
          proofs =
              record {
                key = credential.public_key;
                challenge = challenge;
                endpoint = trim endpoint;
                pod_uid = trim pod_uid;
                token = token;
              }
              ∷ w.proofs;
        })
    register :
        (submission : EnrollmentSubmission) (v : Verifies submission)
        → IsProper (proof_of submission v)
        → Unforged ps w v.key_bytes (proof_bytes (proof_of submission v)) v.raw_signature
        → Step ps w (record w { registered = proof_of submission v ∷ w.registered })
    issue :
        (i : Issue) (signed : SignedRequest)
        → IsValid i.parts
        → IsI64 i.created
        → IsI64 i.expires
        → sign_with i.parts i.key i.created i.expires i.nonce (ps.signer i.key) ≡ ok signed
        → Step ps w (record w { issued = i ∷ w.issued })
    accept :
        (key : ClientPublicKey) (request : IncomingRequest) (v : VerifiedRequest)
        → IsMember w.registered key
        → IsValid request.parts
        → CanSend ps key w request
        → verify_incoming request key w.now ≡ ok v
        → Step ps w (record w {
          accepted = record { key = key; request = request; answer = v; at = w.now } ∷ w.accepted;
        })
    refuse :
        (key : ClientPublicKey) (request : IncomingRequest) (e : ClientError)
        → verify_incoming request key w.now ≡ err e
        → Step ps w w

  abbrev pub start_at : ℤ → World
  start_at now = record { now = now; proofs = []; registered = []; issued = []; accepted = [] }

  -- The worlds that any interleaving of such steps leads to
  pub data Reach (ps : Parties) (t : ℤ) : World → Type 0 where
    start : Reach ps t (start_at t)
    later : {w w' : World} → Reach ps t w → Step ps w w' → Reach ps t w'
