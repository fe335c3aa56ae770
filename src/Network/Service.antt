-- ===== src/Network/Service.antt =====
-- The whole way of a workload: it enrolls, and what it then signs is served.
use infernal_client_rs.Common.{◌≡◌, refl, sym, ◌∷◌}
use infernal_client_rs.Common.Int.{ℤ, ◌≤ℤ◌, IsI64}
use mathlib.Core.List.{Memᴰ}
use infernal_client_rs.Deps.{Deps, UuidLaws, Base64Laws, Sha256Laws, Ed25519Laws}
use infernal_client_rs.Credential.{generate}
use infernal_client_rs.Wire.Metadata.{validate_signature_metadata-ok_iff}
use infernal_client_rs.Request.Signing.{sign_with-ok}
use infernal_client_rs.Verify.Refuse.{IsFresh}
use infernal_client_rs.Verify.Received.{SignsFor}
use infernal_client_rs.Network.{Parties, Issue, World, Reach, later, tick, issue}
use infernal_client_rs.Network.Accounts.{WasSigned}
use infernal_client_rs.Network.Progress.{signed_issue, entry_of, Reach-accepted}
use infernal_client_rs.Network.Registration.{
  Applicant, CanEnroll, credential_of, proof_by, Reach-registered,
}

module _ ⦃d : Deps⦄ where
  open d use {sign_bytes}

  -- The signatures of a generated credential pass under its public key.
  generated-SignsFor :
      Ed25519Laws
      → (a : Applicant) → SignsFor (credential_of a).public_key (sign_bytes a.signing_key)
  unfolding generate
  generated-SignsFor ed a m = (
    ed.sign-IsBytes a.signing_key m,
    ed.length-sign a.signing_key m,
    ed.verify-sign a.signing_key m,
  )

  -- In every world that is reached from an i64 clock, a workload with a generated credential, valid
  -- texts, a challenge of 32 bytes and a token can enroll, be registered, sign a valid request with
  -- valid metadata, and have it accepted at any later i64 time at which it is fresh, with its key's
  -- ids and the times as the answer.
  pub Reach-served :
      UuidLaws
      → Base64Laws
      → Sha256Laws
      → Ed25519Laws
      → (ps : Parties) {t : ℤ} {w : World} (a : Applicant) (i : Issue) (now : ℤ) → CanEnroll a
      → i.key ≡ (credential_of a).public_key
      → ps.signer i.key ≡ sign_bytes a.signing_key
      → WasSigned i
      → IsI64 t
      → Reach ps t w
      → IsI64 now
      → w.now ≤ℤ now
      → IsFresh i.created i.expires now
      → Reach ps t (record {
        now = now;
        proofs = proof_by a ∷ w.proofs;
        registered = proof_by a ∷ w.registered;
        issued = i ∷ w.issued;
        accepted = entry_of ps i now ∷ w.accepted;
      })
  unfolding generate
  Reach-served uuid base64 sha ed ps a i now can from signer (parts, hc, he, h0, hw, hn) ht r hnow
        le fresh =
      let metadata =
        (validate_signature_metadata-ok_iff i.created i.expires i.nonce hc he).1 (h0, hw, hn) in
      let signed =
        sign_with-ok i.parts i.key i.created i.expires i.nonce (ps.signer i.key) metadata in
      let registered = Reach-registered uuid base64 ed ps a can r in
      let issued = later registered (issue i (signed_issue ps i) parts hc he signed) in
      let waited = later issued (tick now hnow le) in
      Reach-accepted uuid base64 sha ps i (proof_by a, Memᴰ.head refl, sym from)
        (rw from (ed.from_bytes-verifying_key a.signing_key))
        (rw (signer, from) (generated-SignsFor ed a)) ht waited (Memᴰ.head refl) fresh
