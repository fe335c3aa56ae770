-- ===== src/Verify/Input.antt =====
-- src/verify.rs: what `parse_signature_input` accepts, as a layout.
use infernal_client_rs.Common.{
  ℕ, ◌<◌, ◌^◌, ◌≡◌, ◌≢◌, ◌↔◌, [], sym, ◌∙◌, ap, some, All, Lacks, All-mono, arith,
}
use infernal_client_rs.Common.Int.{pos, IsI64}
use infernal_client_rs.Common.Text.{Str}
use infernal_client_rs.Common.Decimal.{IsDigit, value}
use infernal_client_rs.Error.{ok, ok_or->>=-eq-ok, >>=-eq-ok}
use infernal_client_rs.Deps.{Deps, UuidLaws, IsUuidInputChar}
use infernal_client_rs.Wire.{validate_signature_metadata}
use infernal_client_rs.Wire.Layout.{parameters_layout, input_layout}
use infernal_client_rs.Wire.Metadata.{
  IsNonce, IsNonceChar, IsWindow, validate_signature_metadata-ok_iff,
}
use infernal_client_rs.Verify.Timestamp.{parse_timestamp-ok_iff}
use infernal_client_rs.Verify.{parse_timestamp, parse_signature_input, SignatureMetadata}
use infernal_client_rs.Verify.Texts.{Texts, HasTexts, HasTexts-layout, layout-HasTexts}
use infernal_client_rs.Verify.Search.{HasTexts-cases, parse-HasTexts, read_texts, read_found}
use infernal_client_rs.Error.{err-ne-ok}
use infernal_client_rs.Common.{inl, inr}

abbrev value_of : Str → ℕ
value_of = value 0

module _ ⦃d : Deps⦄ where
  open d use {Uuid, uuid_parse}

  read_texts-eq-ok :
      (p c e n k : Str) {m : SignatureMetadata}
      → read_texts p c e n k ≡ ok m
      → (parse_timestamp c ≡ ok m.created)
        × (parse_timestamp e ≡ ok m.expires)
        × (validate_signature_metadata m.created m.expires n ≡ ok tt)
        × (uuid_parse k ≡ some m.key_id)
        × (m.parameters ≡ p)
  read_texts-eq-ok p c e n k h =
      let (t, h1, k1) = >>=-eq-ok (parse_timestamp c) _ h in
      let (u, h2, k2) = >>=-eq-ok (parse_timestamp e) _ k1 in
      let (_, h3, k3) = >>=-eq-ok (validate_signature_metadata t u n) _ k2 in
      let (i, h4, k4) = ok_or->>=-eq-ok (uuid_parse k) _ _ k3 in
      (ground arith, ground arith, ground arith, ground arith, ground arith)

  -- The label and a layout of four texts: two timestamps, a nonce and a UUID, with valid metadata
  pub record IsSignatureInput (value : Str) (m : SignatureMetadata) : Type 0 where
    pub created : Str
    pub expires : Str
    pub nonce : Str
    pub key_id : Str
    pub layout : value ≡ input_layout m.parameters
    pub parameters : m.parameters ≡ parameters_layout created expires nonce key_id
    pub created_digits : (created ≢ []) × All IsDigit created
    pub created_value : (value_of created < 2 ^ 63) × (m.created ≡ pos (value_of created))
    pub expires_digits : (expires ≢ []) × All IsDigit expires
    pub expires_value : (value_of expires < 2 ^ 63) × (m.expires ≡ pos (value_of expires))
    pub window : IsWindow m.created m.expires
    pub is_nonce : IsNonce nonce
    pub is_key_id : uuid_parse key_id ≡ some m.key_id

  -- What is read in the texts of a header
  read_sound :
      (value : Str) (t : Texts) (m : SignatureMetadata)
      → HasTexts value t
      → read_found t ≡ ok m
      → IsSignatureInput value m
  read_sound value t m w h =
      let (hc, he, hv, hk, hp) =
        read_texts-eq-ok t.parameters t.created t.expires t.nonce t.key_id h in
      let (c1, c2, c3, c4) = (parse_timestamp-ok_iff t.created m.created).0 hc in
      let (e1, e2, e3, e4) = (parse_timestamp-ok_iff t.expires m.expires).0 he in
      let (_, window, is_nonce) =
        (validate_signature_metadata-ok_iff m.created m.expires t.nonce (rw c4 (c3, omega arith))
            (rw e4 (e3, omega arith))).0
          hv in
      record {
        created = t.created;
        expires = t.expires;
        nonce = t.nonce;
        key_id = t.key_id;
        layout = w.label ∙ ap input_layout (sym hp);
        parameters = hp ∙ HasTexts-layout value t w;
        created_digits = (c1, c2);
        created_value = (c3, c4);
        expires_digits = (e1, e2);
        expires_value = (e3, e4);
        window = window;
        is_nonce = is_nonce;
        is_key_id = hk;
      }

  pub parse_signature_input_sound :
      (value : Str) (m : SignatureMetadata)
      → parse_signature_input value ≡ ok m
      → IsSignatureInput value m
  parse_signature_input_sound value m h = elim (HasTexts-cases value) [
    | inr (_, refused) ↦ absurd (err-ne-ok _ m (sym refused ∙ h))
    | inl (t, w) ↦ read_sound value t m w (sym (parse-HasTexts value t w) ∙ h)
  ]

  -- Digits hold no semicolon, and a nonce no quotation mark.
  digits-Lacks : (s : Str) → All IsDigit s → Lacks b';' s
  digits-Lacks s = All-mono IsDigit _ (λ c h. omega arith) s

  nonce-Lacks : (s : Str) → IsNonce s → Lacks b'"' s
  nonce-Lacks s (_, _, h) = All-mono IsNonceChar _ (λ c h. omega arith) s h

  pub parse_signature_input_complete :
      UuidLaws
      → (value : Str) (m : SignatureMetadata) → IsSignatureInput value m
      → parse_signature_input value ≡ ok m
  parse_signature_input_complete laws value m w =
      let hc =
        (parse_timestamp-ok_iff w.created m.created).1
          (w.created_digits.0, w.created_digits.1, w.created_value.0, w.created_value.1) in
      let he =
        (parse_timestamp-ok_iff w.expires m.expires).1
          (w.expires_digits.0, w.expires_digits.1, w.expires_value.0, w.expires_value.1) in
      let hv =
        (validate_signature_metadata-ok_iff m.created m.expires w.nonce
            (rw w.created_value.1 (w.created_value.0, omega arith))
            (rw w.expires_value.1 (w.expires_value.0, omega arith))).1
          (rw w.created_value.1 (omega arith), w.window, w.is_nonce) in
      ap parse_signature_input (w.layout ∙ ap input_layout w.parameters)
      ∙ parse-HasTexts _ _ (
          layout-HasTexts w.created w.expires w.nonce w.key_id (digits-Lacks _ w.created_digits.1)
            (digits-Lacks _ w.expires_digits.1) (nonce-Lacks w.nonce w.is_nonce)
            (All-mono IsUuidInputChar _ (λ c h. h.1) _
              (laws.parse_chars w.key_id m.key_id w.is_key_id)))
      ∙ rw (hc, he, hv, w.is_key_id, w.parameters)

  -- The times of a header that is accepted are `i64` values.
  pub input_times :
      (value : Str) (m : SignatureMetadata)
      → IsSignatureInput value m
      → IsI64 m.created × IsI64 m.expires
  input_times value m w = (
    rw w.created_value.1 (w.created_value.0, omega arith),
    rw w.expires_value.1 (w.expires_value.0, omega arith),
  )

  -- parse_signature_input accepts a header with given metadata exactly when the header is the label
  -- and a layout of two timestamps, a nonce and a UUID with valid metadata.
  pub parse_signature_input-ok_iff :
      UuidLaws
      → (value : Str) (m : SignatureMetadata)
      → (parse_signature_input value ≡ ok m) ↔ IsSignatureInput value m
  parse_signature_input-ok_iff laws value m =
      (parse_signature_input_sound value m, parse_signature_input_complete laws value m)
