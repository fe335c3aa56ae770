-- ===== src/Verify/Signature.antt =====
-- src/verify.rs, src/wire.rs: `parse_signature` reads back what `encode_signature` wrote, and
-- accepts nothing but a label around the encoding of 64 bytes.
use infernal_client_rs.Common.{
  ◌≡◌, ◌↔◌, ◌++◌, [], ◌∷◌, append_assoc, sym, ◌∙◌, ap, some, length, and_then, and_then-eq-some,
}
use infernal_client_rs.Common.Text.{Bytes, Str, codes, format, strip_prefix, strip_suffix}
use infernal_client_rs.Common.Split.{
  strip_prefix-append, strip_prefix_sound, strip_suffix-append, strip_suffix_sound,
}
use infernal_client_rs.Error.{
  fails_rules, err, ClientError, invalid_request_part, FailsWith, FailsWith-err_iff, ok,
  ok_or-eq-ok, ok_or->>=-eq-ok,
}
use infernal_client_rs.Deps.{Deps, Base64Laws, IsBytes}
use infernal_client_rs.Credential.{to_array_exact, to_array_sound, signature_length}
use infernal_client_rs.Wire.{signature_label, encode_signature}
use infernal_client_rs.Verify.{parse_signature}

module _ ⦃d : Deps⦄ where
  open d use {standard_decode, standard_encode}

  -- The header `Signature` around an encoding
  abbrev signature_layout : Str → Str
  signature_layout encoded = format (signature_label ∷ codes "=:" ∷ encoded ∷ codes ":" ∷ [])

  -- The label around an encoding of 64 bytes
  abbrev pub IsSignatureHeader : Str → Bytes → Type 0
  IsSignatureHeader value b =
      (encoded : Str) × (value ≡ signature_layout encoded)
      × (standard_decode encoded ≡ some b)
      × (length b ≡ 64)

  -- A header is accepted only as the label around an encoding of exactly 64 bytes.
  parse_signature_sound :
      (value : Str) {b : Bytes} → parse_signature value ≡ ok b → IsSignatureHeader value b
  unfolding parse_signature
  parse_signature_sound value {b} h =
      let (e, h1, k1) =
        ok_or->>=-eq-ok
          (and_then (strip_prefix value (signature_label ++ codes "=:")) λ v. strip_suffix v b':') _
          _ h in
      let (a, h2, k2) = ok_or->>=-eq-ok (standard_decode e) _ _ k1 in
      let (same, long) = to_array_sound signature_length a (ok_or-eq-ok _ _ k2) in
      let (v, hv, hw) =
        and_then-eq-some (strip_prefix value (signature_label ++ codes "=:")) _ h1 in
      (
        e,
        strip_prefix_sound value (signature_label ++ codes "=:") hv
            ∙ append_assoc signature_label (codes "=:") v
            ∙ ap (λ t. signature_label ++ (codes "=:" ++ t)) (strip_suffix_sound v b':' hw),
        h2 ∙ ap some (sym same),
        long,
      )

  parse_signature_complete :
      (encoded : Str) (b : Bytes)
      → standard_decode encoded ≡ some b
      → length b ≡ 64
      → parse_signature (signature_layout encoded) ≡ ok b
  unfolding parse_signature
  parse_signature_complete e b h l = rw (
    ← append_assoc signature_label (codes "=:") _,
    strip_prefix-append (signature_label ++ codes "=:"),
    strip_suffix-append e b':',
    h,
    to_array_exact signature_length b l,
  )

  pub parse_signature-ok_iff :
      (value : Str) (b : Bytes) → (parse_signature value ≡ ok b) ↔ IsSignatureHeader value b
  parse_signature-ok_iff value b = (
    λ h. parse_signature_sound value h,
    λ (encoded, layout, decoded, long).
        ap parse_signature layout ∙ parse_signature_complete encoded b decoded long,
  )

  parse_signature-FailsWith :
      (value : Str) → FailsWith (invalid_request_part (codes "signature")) (parse_signature value)
  unfolding parse_signature
  parse_signature-FailsWith value = search fails_rules

  -- Any other header is refused with the one error of this header.
  pub parse_signature-err_iff :
      (value : Str) (e : ClientError)
      → (parse_signature value ≡ err e) ↔ (
          (¬ ((b : Bytes) × IsSignatureHeader value b))
          × (e ≡ invalid_request_part (codes "signature")))
  parse_signature-err_iff value e =
      let (none_there, refused) =
        FailsWith-err_iff (invalid_request_part (codes "signature")) (parse_signature value)
          (parse_signature-FailsWith value) (parse_signature-ok_iff value) in
      (
        λ h.
            let same = (parse_signature-FailsWith value).only e h in
            (none_there (h ∙ ap err same), same),
        λ (n, same). refused n ∙ ap err (sym same),
      )

  -- Every 64 bytes are read back from the header Signature that holds them.
  pub parse-encode :
      Base64Laws
      → (b : Bytes) → IsBytes b
      → length b ≡ 64
      → parse_signature (encode_signature b) ≡ ok b
  unfolding encode_signature
  parse-encode laws b hb l = parse_signature_complete _ b (laws.standard_round_trip b hb) l
