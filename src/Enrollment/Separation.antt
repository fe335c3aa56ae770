-- ===== src/Enrollment/Separation.antt =====
-- src/enrollment.rs, src/request.rs: one key signs enrollment proofs and requests.
use infernal_client_rs.Common.{ℕ, ◌≡◌, ◌≢◌, sym, ap, ◌∙◌, ◌∷◌, [], arith}
use infernal_client_rs.Common.Text.{Bytes, Str, utf8, utf8_char}
use infernal_client_rs.Deps.{Deps}
use infernal_client_rs.Credential.{ClientPublicKey}
use infernal_client_rs.Wire.{signature_base}
use infernal_client_rs.Request.{RequestParts, base_bytes}
use infernal_client_rs.Enrollment.{proof_fields, proof_message, to_be_bytes}
use infernal_client_rs.Enrollment.Frames.{frames, extend_message_lem}

abbrev first_byte : Bytes → ℕ
first_byte [] = 0
first_byte (b ∷ _) = b

module _ ⦃d : Deps⦄ where
  -- No message of an enrollment proof has the bytes that a request is signed over.
  pub proof_message-ne-base_bytes :
      (c : Bytes) (k k' : ClientPublicKey) (e p t : Str) (parts : RequestParts)
      (digest parameters : Str)
      → proof_message c k e p t ≢ base_bytes parts k' digest parameters
  unfolding proof_message signature_base to_be_bytes utf8 utf8_char
  proof_message-ne-base_bytes c k k' e p t parts digest parameters h =
      let same : frames (proof_fields c k e p t) ≡ base_bytes parts k' digest parameters =
        sym (extend_message_lem [] (proof_fields c k e p t)) ∙ h in
      absurd (omega (arith, ap first_byte same))
