-- ===== src/Enrollment/Proof.antt =====
-- src/enrollment.rs: what the message of an enrollment proof commits to.
use infernal_client_rs.Common.{◌<◌, ◌≡◌, sym, ◌∙◌, [], All, length, arith}
use infernal_client_rs.Common.Text.{Bytes, Str, utf8}
use infernal_client_rs.Common.Utf8.{utf8_injective}
use infernal_client_rs.Deps.{Deps, UuidLaws, Sha256Laws}
use infernal_client_rs.Credential.{ClientPublicKey}
use infernal_client_rs.Enrollment.{proof_fields, proof_message}
use infernal_client_rs.Enrollment.Frames.{IsFramed, extend_message_lem, frames_injective}

-- A text of Unicode code points whose bytes a length of 32 bits can tell
abbrev pub IsShortText : Str → Type 0
IsShortText s = All (λ c. c < 0x11_0000) s × IsFramed (utf8 s)

module _ ⦃d : Deps⦄ where
  open d use {Uuid, uuid_as_bytes, sha256}

  -- What a proof is made from, at the sizes that the program's types and memory give it
  pub record IsProofInput (c : Bytes) (k : ClientPublicKey) (e p : Str) : Type 0 where
    pub challenge : length c ≡ 32
    pub public_key : length k.public_key ≡ 32
    pub endpoint : IsShortText e
    pub pod_uid : IsShortText p

  fields-IsFramed :
      UuidLaws
      → Sha256Laws
      → (c : Bytes) (k : ClientPublicKey) (e p t : Str) → IsProofInput c k e p
      → All IsFramed (proof_fields c k e p t)
  fields-IsFramed uuid sha c k e p t input = (
    omega arith,
    (
      omega (arith, input.challenge),
      (
        omega (arith, uuid.length-as_bytes k.service_id),
        (
          omega (arith, uuid.length-as_bytes k.instance_id),
          (
            omega (arith, uuid.length-as_bytes k.key_id),
            (
              omega (arith, input.public_key),
              (
                input.endpoint.1,
                (input.pod_uid.1, (omega (arith, sha.length-sha256 (utf8 t)), tt)),
              ),
            ),
          ),
        ),
      ),
    ),
  )

  -- Two proofs over the same message have the same challenge, service id, instance id, key id,
  -- public key, endpoint, pod id and token digest, if the challenges and keys are 32 bytes each and
  -- the texts are of code points and shorter than 2^32 bytes.
  pub proof_message_injective :
      UuidLaws
      → Sha256Laws
      → (c c' : Bytes) (k k' : ClientPublicKey) (e e' p p' t t' : Str) → IsProofInput c k e p
      → IsProofInput c' k' e' p'
      → proof_message c k e p t ≡ proof_message c' k' e' p' t'
      → (c ≡ c')
        × (k.service_id ≡ k'.service_id)
        × (k.instance_id ≡ k'.instance_id)
        × (k.key_id ≡ k'.key_id)
        × (k.public_key ≡ k'.public_key)
        × (e ≡ e')
        × (p ≡ p')
        × (sha256 (utf8 t) ≡ sha256 (utf8 t'))
  unfolding proof_message
  proof_message_injective uuid sha c c' k k' e e' p p' t t' h h' same =
      let fields : proof_fields c k e p t ≡ proof_fields c' k' e' p' t' =
        frames_injective _ _ (fields-IsFramed uuid sha c k e p t h)
          (fields-IsFramed uuid sha c' k' e' p' t' h')
          (sym (extend_message_lem [] (proof_fields c k e p t))
            ∙ same
            ∙ extend_message_lem [] (proof_fields c' k' e' p' t')) in
      (
        cc,
        uuid.as_bytes_injective _ _ (cc),
        uuid.as_bytes_injective _ _ (cc),
        uuid.as_bytes_injective _ _ (cc),
        cc,
        utf8_injective e e' h.endpoint.0 h'.endpoint.0 (cc),
        utf8_injective p p' h.pod_uid.0 h'.pod_uid.0 (cc),
        cc,
      )
