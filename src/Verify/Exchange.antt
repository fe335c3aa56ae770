-- ===== src/Verify/Exchange.antt =====
-- src/request.rs and src/verify.rs together: every end of signing a request and verifying it.
use infernal_client_rs.Common.{◌≡◌, ◌↔◌, ◌⊎◌, inl, inr, refl, sym, true, arith}
use mathlib.Core.Path.{subst}
use infernal_client_rs.Common.Int.{ℤ, pos, negsuc, ◌≤ℤ◌, ◌+ℤ◌, IsI64}
use infernal_client_rs.Common.Text.{Bytes, Str, codes}
use infernal_client_rs.Error.{Result, ok, err, ClientError, Result-cases, invalid_request_part}
use infernal_client_rs.Deps.{Deps, UuidLaws, Base64Laws}
use infernal_client_rs.Credential.{ClientPublicKey}
use infernal_client_rs.Wire.{validate_signature_metadata}
use infernal_client_rs.Wire.Metadata.{
  IsWindow, IsNonce, validate_signature_metadata-ok_iff, validate_signature_metadata-err_iff,
  validate_signature_metadata_cases,
}
use infernal_client_rs.Request.{RequestParts, sign_with}
use infernal_client_rs.Request.Signing.{signed_as, sign_with-ok}
use infernal_client_rs.Verify.{VerifiedRequest, validate_signature_time}
use infernal_client_rs.Verify.Timestamp.{validate_signature_time-ok_iff}
use infernal_client_rs.Verify.Received.{verified_as, SignsFor}
use infernal_client_rs.Verify.Refuse.{IsFresh}
use infernal_client_rs.Verify.RoundTrip.{exchange, exchange-ok}
use infernal_client_rs.Verify.Tampered.{exchange-stale}

IsFresh-cases :
    (created expires now : ℤ)
    → IsI64 created
    → IsI64 expires
    → IsI64 now
    → IsFresh created expires now ⊎ ¬ IsFresh created expires now
IsFresh-cases created expires now hc he hn =
    elim (Result-cases (validate_signature_time created expires now)) [
      | inl (tt, h) ↦ inl ((validate_signature_time-ok_iff created expires now hc he hn).0 h)
      | inr (e, h) ↦ inr (λ fresh.
          let k = (validate_signature_time-ok_iff created expires now hc he hn).1 fresh in cc)
    ]

module _ ⦃d : Deps⦄ where
  open d use {key_from_bytes}

  module _ (parts : RequestParts) (key : ClientPublicKey) (created expires : ℤ) (nonce : Str)
      (now : ℤ) where
    -- The end of an exchange, by what is wrong with it first
    pub data ExchangeOutcome : Result VerifiedRequest → Type 0 where
      before_epoch :
          created +ℤ pos 1 ≤ℤ pos 0 → ExchangeOutcome (err (invalid_request_part (codes "created")))
      not_a_window :
          pos 0 ≤ℤ created
          → ¬ IsWindow created expires
          → ExchangeOutcome (err (invalid_request_part (codes "expires")))
      not_a_nonce :
          pos 0 ≤ℤ created
          → IsWindow created expires
          → ¬ IsNonce nonce
          → ExchangeOutcome (err (invalid_request_part (codes "nonce")))
      not_in_time :
          pos 0 ≤ℤ created
          → IsWindow created expires
          → IsNonce nonce
          → ¬ IsFresh created expires now
          → ExchangeOutcome (err (invalid_request_part (codes "freshness")))
      accepted :
          pos 0 ≤ℤ created
          → IsWindow created expires
          → IsNonce nonce
          → IsFresh created expires now
          → ExchangeOutcome (ok (verified_as parts key created expires))

  module _ (uuid : UuidLaws) (base64 : Base64Laws) (parts : RequestParts) (key : ClientPublicKey)
      (created expires : ℤ) (nonce : Str) (signer : Bytes → Bytes) (now : ℤ)
      (valid : key_from_bytes key.public_key ≡ true) (signs : SignsFor key signer)
      (hc : IsI64 created) (he : IsI64 expires) (hn : IsI64 now) where
    abbrev Outcome : Result VerifiedRequest → Type 0
    Outcome = ExchangeOutcome parts key created expires nonce now

    abbrev ended : Result VerifiedRequest
    ended = exchange parts key created expires nonce signer now

    -- Metadata that is refused is not signed.
    exchange-unsigned :
        (e : ClientError)
        → validate_signature_metadata created expires nonce ≡ err e
        → ended ≡ err e
    unfolding exchange sign_with
    exchange-unsigned e h = rw h refl

    Outcome-ended : (result : Result VerifiedRequest) → Outcome result → ended ≡ result
    Outcome-ended result (before_epoch early) =
        exchange-unsigned _
          ((validate_signature_metadata-err_iff created expires nonce hc he).0.1 early)
    Outcome-ended result (not_a_window h0 w) =
        exchange-unsigned _
          ((validate_signature_metadata-err_iff created expires nonce hc he).1.1 (h0, w))
    Outcome-ended result (not_a_nonce h0 w m) =
        exchange-unsigned _
          ((validate_signature_metadata-err_iff created expires nonce hc he).2.1 (h0, w, m))
    Outcome-ended result (not_in_time h0 w m late) =
        let metadata =
          (validate_signature_metadata-ok_iff created expires nonce hc he).1 (h0, w, m) in
        exchange-stale uuid parts key created expires nonce signer now
          (signed_as parts key created expires nonce signer) hc he hn
          (sign_with-ok parts key created expires nonce signer metadata) late
    Outcome-ended result (accepted h0 w m fresh) =
        exchange-ok uuid base64 parts key created expires nonce signer now valid signs hc he hn h0 w
          m fresh

    -- What can be said of the end is said of the exchange.
    reached : (result : Result VerifiedRequest) → Outcome result → Outcome ended
    reached result o = subst Outcome (sym (Outcome-ended _ o)) o

  module _ (uuid : UuidLaws) (base64 : Base64Laws) (parts : RequestParts)
      (key : ClientPublicKey) where
    exchange-ExchangeOutcome :
        (created expires : ℤ) (nonce : Str) (signer : Bytes → Bytes) (now : ℤ)
        → key_from_bytes key.public_key ≡ true
        → SignsFor key signer
        → IsI64 created
        → IsI64 expires
        → IsI64 now
        → ExchangeOutcome parts key created expires nonce now
            (exchange parts key created expires nonce signer now)
    unfolding ◌+ℤ◌
    exchange-ExchangeOutcome (negsuc c) expires nonce signer now valid signs hc he hn =
        reached uuid base64 parts key _ expires nonce signer now valid signs hc he hn _
          (before_epoch (ground arith))
    exchange-ExchangeOutcome (pos c) expires nonce signer now valid signs hc he hn =
        let ends =
          reached uuid base64 parts key (pos c) expires nonce signer now valid signs hc he hn in
        elim (validate_signature_metadata_cases c expires nonce hc he) [
          | inr (inl (w, _)) ↦ ends _ (not_a_window (omega arith) w)
          | inr (inr ((w, m), _)) ↦ ends _ (not_a_nonce (omega arith) w m)
          | inl ((w, m), _) ↦ elim (IsFresh-cases (pos c) expires now hc he hn) [
            | inl fresh ↦ ends _ (accepted (omega arith) w m fresh)
            | inr late ↦ ends _ (not_in_time (omega arith) w m late)
          ]
        ]

    -- A request that is signed, by a signer that matches the public key, read off the wire and
    -- verified at i64 times ends as ExchangeOutcome lists, and so for every metadata and clock: a
    -- time of creation that is negative is refused, then a window that is not of 1 to 30 seconds,
    -- then a nonce that is not of 16 to 128 letters, digits, - and _, all by the signer; then a
    -- signature that is not fresh, by the verifier; and in all other cases the request is accepted,
    -- with the signer's ids, the request's id and the times as the answer.
    pub exchange-ExchangeOutcome_iff :
        (created expires : ℤ) (nonce : Str) (signer : Bytes → Bytes) (now : ℤ)
        (result : Result VerifiedRequest)
        → key_from_bytes key.public_key ≡ true
        → SignsFor key signer
        → IsI64 created
        → IsI64 expires
        → IsI64 now
        → (exchange parts key created expires nonce signer now ≡ result)
          ↔ ExchangeOutcome parts key created expires nonce now result
    exchange-ExchangeOutcome_iff created expires nonce signer now result valid signs hc he hn = (
      λ h.
          subst (ExchangeOutcome parts key created expires nonce now) h
            (exchange-ExchangeOutcome created expires nonce signer now valid signs hc he hn),
      Outcome-ended uuid base64 parts key created expires nonce signer now valid signs hc he hn
          result,
    )
