-- ===== src/Wire/Metadata.antt =====
-- src/wire.rs: which signature metadata `validate_signature_metadata` accepts, and which header
-- and URI values pass.
use infernal_client_rs.Common.{
  ℕ, ◌≤◌, ◌≡◌, ◌↔◌, ◌⊎◌, Bool, true, false, not, ◌&&◌, ◌||◌, length, All, All-mono, ap, all, leb,
  inl, inr, Bool-cases, arith, true_of_not,
}
use infernal_client_rs.Common.Int.{ℤ, pos, negsuc, ◌+ℤ◌, ◌≤ℤ◌, IsI64, sub_i64, ltb_ℤ, leb_ℤ}
use infernal_client_rs.Common.Text.{Str, codes, utf8}
use infernal_client_rs.Common.Utf8.{IsAscii, all-utf8_iff, utf8_ascii}
use infernal_client_rs.Error.{ok, err, invalid_request_part}
use infernal_client_rs.Wire.{
  validate_signature_metadata, is_nonce_byte, signature_validity_seconds, min_nonce_length,
  max_nonce_length,
}

abbrev pub IsNonceChar : ℕ → Type 0
IsNonceChar c =
    (c ≡ b'-')
    ⊎ (c ≡ b'_')
    ⊎ (b'0' ≤ c) × (c ≤ b'9')
    ⊎ (b'A' ≤ c) × (c ≤ b'Z')
    ⊎ (b'a' ≤ c) × (c ≤ b'z')

-- 16 to 128 letters, digits, `-` and `_`
abbrev pub IsNonce : Str → Type 0
IsNonce nonce = (16 ≤ length nonce) × (length nonce ≤ 128) × All IsNonceChar nonce

-- Created at a time that is not negative, and expiring 1 to 30 seconds later
abbrev pub IsWindow : ℤ → ℤ → Type 0
IsWindow created expires = (created +ℤ pos 1 ≤ℤ expires) × (expires ≤ℤ created +ℤ pos 30)

nonce_chars_iff : (nonce : Str) → (all is_nonce_byte (utf8 nonce) ≡ true) ↔ All IsNonceChar nonce
nonce_chars_iff =
    all-utf8_iff is_nonce_byte IsNonceChar (λ b h. ground arith) (λ b h. ground arith)
      (λ b h. omega arith)

pub nonce_ascii : (nonce : Str) → All IsNonceChar nonce → utf8 nonce ≡ nonce
nonce_ascii nonce h = utf8_ascii nonce (All-mono IsNonceChar IsAscii (λ b k. omega arith) nonce h)

-- The whole test on a nonce
abbrev nonce_test : Str → Bool
nonce_test nonce =
    not (leb min_nonce_length (length (utf8 nonce)) && leb (length (utf8 nonce)) max_nonce_length)
    || not (all is_nonce_byte (utf8 nonce))

nonce_test_iff : (nonce : Str) → (nonce_test nonce ≡ false) ↔ IsNonce nonce
nonce_test_iff nonce = (
  λ h.
      let chars : All IsNonceChar nonce = (nonce_chars_iff nonce).0 (ground arith) in
      let same : utf8 nonce ≡ nonce = nonce_ascii nonce chars in
      (ground (arith, ap length same), ground (arith, ap length same), chars),
  λ (lo, hi, chars).
      let bytes : all is_nonce_byte (utf8 nonce) ≡ true = (nonce_chars_iff nonce).1 chars in
      ground (arith, bytes, ap length (nonce_ascii nonce chars)),
)

-- The test on the validity window, at a time of creation that is not negative
IsWindow-test_iff :
    (c : ℕ) (expires : ℤ)
    → IsI64 (pos c)
    → IsI64 expires
    → ((leb_ℤ expires (pos c) || ltb_ℤ (pos signature_validity_seconds) (sub_i64 expires (pos c)))
        ≡ false)
      ↔ IsWindow (pos c) expires
unfolding ◌+ℤ◌ sub_i64
IsWindow-test_iff c (pos e) hc he = (λ h. ground arith, λ h. ground arith)
IsWindow-test_iff c (negsuc e) hc he = (λ h. ground arith, λ h. ground arith)

-- On i64 times, metadata is accepted exactly when the time of creation is not negative, the window
-- is 1 to 30 seconds, and the nonce is 16 to 128 letters, digits, - and _.
pub validate_signature_metadata-ok_iff :
    (created expires : ℤ) (nonce : Str)
    → IsI64 created
    → IsI64 expires
    → (validate_signature_metadata created expires nonce ≡ ok tt)
      ↔ ((pos 0 ≤ℤ created) × IsWindow created expires × IsNonce nonce)
unfolding validate_signature_metadata
validate_signature_metadata-ok_iff (negsuc c) expires nonce hc he =
    (λ h. ground arith, λ (h, _, _). absurd (omega arith))
validate_signature_metadata-ok_iff (pos c) expires nonce hc he =
    let (w0, w1) = IsWindow-test_iff c expires hc he in
    let (n0, n1) = nonce_test_iff nonce in
    (
      λ h. (omega arith, w0 (ground arith), n0 (ground arith)),
      λ (_, w, n). rw (w1 w, n1 n) (ground arith),
    )

-- A refusal of metadata names a negative time of creation first, then the window, then the nonce.
pub validate_signature_metadata-err_iff :
    (created expires : ℤ) (nonce : Str)
    → IsI64 created
    → IsI64 expires
    → let v = validate_signature_metadata created expires nonce in
      ((v ≡ err (invalid_request_part (codes "created"))) ↔ (created +ℤ pos 1 ≤ℤ pos 0))
      × ((v ≡ err (invalid_request_part (codes "expires")))
          ↔ ((pos 0 ≤ℤ created) × ¬ IsWindow created expires))
      × ((v ≡ err (invalid_request_part (codes "nonce")))
          ↔ ((pos 0 ≤ℤ created) × IsWindow created expires × ¬ IsNonce nonce))
unfolding validate_signature_metadata ◌+ℤ◌
validate_signature_metadata-err_iff (negsuc c) expires nonce hc he = (
  (λ h. ground arith, λ h. ground arith),
  (λ h. ground arith, λ (h, _). absurd (omega arith)),
  (λ h. ground arith, λ (h, _, _). absurd (omega arith)),
)
validate_signature_metadata-err_iff (pos c) expires nonce hc he =
    let (w0, w1) = IsWindow-test_iff c expires hc he in
    let (n0, n1) = nonce_test_iff nonce in
    (
      (λ h. ground arith, λ h. absurd (ground arith)),
      (λ h. (omega arith, λ w. ground (arith, w1 w)), λ (_, w). ground (arith, true_of_not _ w0 w)),
      (
        λ h. (omega arith, w0 (ground arith), λ n. ground (arith, n1 n)),
        λ (_, w, n). ground (arith, w1 w, true_of_not _ n0 n),
      ),
    )

-- What the checks come to, at a time of creation that is not negative
pub validate_signature_metadata_cases :
    (c : ℕ) (expires : ℤ) (nonce : Str)
    → IsI64 (pos c)
    → IsI64 expires
    → let v = validate_signature_metadata (pos c) expires nonce in
      ((IsWindow (pos c) expires × IsNonce nonce) × (v ≡ ok tt))
      ⊎ ((¬ IsWindow (pos c) expires) × (v ≡ err (invalid_request_part (codes "expires"))))
      ⊎ ((IsWindow (pos c) expires × ¬ IsNonce nonce)
          × (v ≡ err (invalid_request_part (codes "nonce"))))
validate_signature_metadata_cases c expires nonce hc he =
    let (w0, w1) = IsWindow-test_iff c expires hc he in
    let (n0, n1) = nonce_test_iff nonce in
    let (_, (_, x1), (_, y1)) = validate_signature_metadata-err_iff (pos c) expires nonce hc he in
    elim (Bool-cases
      (leb_ℤ expires (pos c) || ltb_ℤ (pos signature_validity_seconds) (sub_i64 expires (pos c)))) [
        | inl t ↦
            let no : ¬ IsWindow (pos c) expires = λ w. ground (arith, w1 w) in
            inr (inl (no, x1 (omega arith, no)))
        | inr f ↦ elim (Bool-cases (nonce_test nonce)) [
          | inl t ↦
              let no : ¬ IsNonce nonce = λ n. ground (arith, n1 n) in
              inr (inr ((w0 f, no), y1 (omega arith, w0 f, no)))
          | inr g ↦ inl (
            (w0 f, n0 g),
            (validate_signature_metadata-ok_iff (pos c) expires nonce hc he).1
                (omega arith, w0 f, n0 g),
          )
        ]
      ]
