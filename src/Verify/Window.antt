-- ===== src/Verify/Window.antt =====
-- src/verify.rs: for how long one signature is accepted. The verifier keeps no record of nonces, so
-- this bounds how long a captured request can be replayed.
use infernal_client_rs.Common.{◌≡◌, sym, ◌∙◌, ap, arith}
use infernal_client_rs.Common.Int.{ℤ, pos, ◌≤ℤ◌, ◌+ℤ◌, IsI64}
use infernal_client_rs.Error.{ok, ok-injective}
use infernal_client_rs.Deps.{Deps, UuidLaws}
use infernal_client_rs.Credential.{ClientPublicKey}
use infernal_client_rs.Wire.Metadata.{IsWindow}
use infernal_client_rs.Verify.{
  IncomingRequest, VerifiedRequest, parse_signature_input, verify_incoming,
}
use infernal_client_rs.Verify.Refuse.{IsFresh}
use infernal_client_rs.Verify.Input.{parse_signature_input_complete}
use infernal_client_rs.Verify.Accept.{Attests, verify_incoming-ok_iff}

-- Two times at which a signature of at most 30 seconds is fresh
pub fresh_apart : (c e t t' : ℤ) → IsWindow c e → IsFresh c e t → IsFresh c e t' → t' ≤ℤ t +ℤ pos 40
unfolding ◌+ℤ◌
fresh_apart c e t t' w f f' = ground arith

module _ ⦃d : Deps⦄ where
  -- One header is read as one pair of times.
  same_times :
      UuidLaws
      → (r r' : IncomingRequest) (key : ClientPublicKey) (t t' : ℤ) (v v' : VerifiedRequest)
      → r.signature_input ≡ r'.signature_input
      → Attests r key t v
      → Attests r' key t' v'
      → (v'.created ≡ v.created) × (v'.expires ≡ v.expires)
  same_times laws r r' key t t' v v' same a a' =
      let both = ok-injective (
        sym (parse_signature_input_complete laws r'.signature_input _ a'.input)
        ∙ ap parse_signature_input (sym same)
        ∙ parse_signature_input_complete laws r.signature_input _ a.input) in
      (ap (λ x. x.created) both, ap (λ x. x.expires) both)

  -- At i64 clocks, two requests under one header Signature-Input (a replay, or parts put together
  -- anew) are accepted at times at most 40 seconds apart: 30 of validity, and 5 of skew on either
  -- side.
  pub replay-window :
      UuidLaws
      → (r r' : IncomingRequest) (key : ClientPublicKey) (t t' : ℤ) (v v' : VerifiedRequest)
      → IsI64 t
      → IsI64 t'
      → r.signature_input ≡ r'.signature_input
      → verify_incoming r key t ≡ ok v
      → verify_incoming r' key t' ≡ ok v'
      → t' ≤ℤ t +ℤ pos 40
  replay-window laws r r' key t t' v v' ht ht' same h h' =
      let a = (verify_incoming-ok_iff laws r key t v ht).0 h in
      let a' = (verify_incoming-ok_iff laws r' key t' v' ht').0 h' in
      let (ec, ee) = same_times laws r r' key t t' v v' same a a' in
      fresh_apart v.created v.expires t t' a.input.window a.fresh (rw (← ec, ← ee) a'.fresh)
