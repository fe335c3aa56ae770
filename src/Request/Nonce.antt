-- ===== src/Request/Nonce.antt =====
-- src/request.rs: the nonces that `generate_nonce` makes.
use infernal_client_rs.Common.{
  ℕ, ◌≡◌, ◌⊎◌, inl, inr, Option, none, some, length, All-mono, arith, Option-cases,
}
use infernal_client_rs.Common.Text.{Bytes, Str}
use infernal_client_rs.Error.{ok, err, random_source}
use infernal_client_rs.Deps.{Deps, Base64Laws, IsBytes, IsUrlSafeChar}
use infernal_client_rs.Wire.Metadata.{IsNonce, IsNonceChar}
use infernal_client_rs.Request.{generate_nonce}

module _ ⦃d : Deps⦄ where
  open d use {url_safe_encode, url_safe_decode}

  pub generate_nonce-ok :
      Base64Laws
      → (fill : ℕ → Option Bytes) (b : Bytes) → fill 24 ≡ some b
      → length b ≡ 24
      → IsBytes b
      → (generate_nonce fill ≡ ok (url_safe_encode b))
        × (length (url_safe_encode b) ≡ 32)
        × IsNonce (url_safe_encode b)
  unfolding generate_nonce
  generate_nonce-ok base64 fill b e len bytes =
      let size : length (url_safe_encode b) ≡ 32 = omega (arith, base64.length-url_safe b) in
      (
        rw e,
        size,
        (
          omega arith,
          omega arith,
          All-mono IsUrlSafeChar IsNonceChar (λ c h. ground arith) _
              (base64.url_safe_chars b bytes),
        ),
      )

  -- With a random source that gives as many bytes as it is asked for, `generate_nonce` either
  -- fails with `random_source`, because the source does, or gives a nonce of 32 characters that
  -- passes the check of signature metadata and decodes to the 24 bytes drawn.
  pub generate_nonce_cases :
      Base64Laws
      → (fill : ℕ → Option Bytes)
      → ((n : ℕ) (b : Bytes) → fill n ≡ some b → (length b ≡ n) × IsBytes b)
      → ((fill 24 ≡ none) × (generate_nonce fill ≡ err random_source))
        ⊎ ((b : Bytes) × (nonce : Str) × (fill 24 ≡ some b)
            × (generate_nonce fill ≡ ok nonce)
            × (length nonce ≡ 32)
            × IsNonce nonce
            × (url_safe_decode nonce ≡ some b))
  unfolding generate_nonce
  generate_nonce_cases base64 fill exact = elim (Option-cases (fill 24)) [
    | inl e ↦ inl (e, rw e)
    | inr (b, e) ↦
        let (len, bytes) = exact 24 b e in
        let (h, size, is_nonce) = generate_nonce-ok base64 fill b e len bytes in
        inr (b, url_safe_encode b, e, h, size, is_nonce, base64.url_safe_round_trip b bytes)
  ]
