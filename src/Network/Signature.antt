-- ===== src/Network/Signature.antt =====
-- One key signs enrollments and requests: a signature that is no forgery serves only what it was made
-- for.
use infernal_client_rs.Common.{◌≡◌, inl, inr, sym, true}
use infernal_client_rs.Common.Text.{Bytes, Str}
use mathlib.Core.List.{Memᴰ}
use infernal_client_rs.Deps.{Deps}
use infernal_client_rs.Credential.{ClientPublicKey}
use infernal_client_rs.Verify.{IncomingRequest}
use infernal_client_rs.Verify.Accept.{incoming_base}
use infernal_client_rs.Enrollment.Separation.{proof_message-ne-base_bytes}
use infernal_client_rs.Network.{
  Parties, EnrollmentProof, Issue, World, proof_bytes, issue_base, Unforged,
}

module _ ⦃d : Deps⦄ where
  open d use {verify_strict}

  -- An honest key's signature over a proof was made for an enrollment, ...
  pub proof_signature :
      (ps : Parties) (w : World) (p : EnrollmentProof) (signature : Bytes)
      → Unforged ps w p.key.public_key (proof_bytes p) signature
      → ps.IsHonest p.key.public_key
      → verify_strict p.key.public_key (proof_bytes p) signature ≡ true
      → (q : EnrollmentProof) × Memᴰ q w.proofs × (proof_bytes p ≡ proof_bytes q)
  proof_signature ps w p signature unforged honest h = elim (unforged honest h) [
    | inl (q, mem, _, same) ↦ (q, mem, same)
    | inr (i, _, _, same) ↦ absurd (
        proof_message-ne-base_bytes p.challenge p.key i.key p.endpoint p.pod_uid p.token i.parts _ _
          same)
  ]

  -- ... and one over the bytes of a request for a request.
  pub request_signature :
      (ps : Parties) (w : World) (key : ClientPublicKey) (request : IncomingRequest)
      (parameters : Str) (signature : Bytes)
      → Unforged ps w key.public_key (incoming_base request parameters) signature
      → ps.IsHonest key.public_key
      → verify_strict key.public_key (incoming_base request parameters) signature ≡ true
      → (i : Issue) × Memᴰ i w.issued
        × (i.key.public_key ≡ key.public_key)
        × (incoming_base request parameters ≡ issue_base i)
  request_signature ps w key request parameters signature unforged honest h =
      elim (unforged honest h) [
        | inl (q, _, _, same) ↦
            let wire_key = record key {
              service_id = request.service_id;
              instance_id = request.instance_id;
            } in
            absurd (
              proof_message-ne-base_bytes q.challenge q.key wire_key q.endpoint q.pod_uid q.token
                request.parts request.content_digest parameters (sym same))
        | inr issued ↦ issued
      ]
