-- ===== src/Wire/Layout.antt =====
-- src/wire.rs: the signature base and the signature parameters determine what they are made of.
use infernal_client_rs.Common.{
  ◌≡◌, ◌≢◌, [], ◌∷◌, ◌++◌, Lacks, All, All-mono, All-append, All-labelled, append_cancel,
  field_split, arith,
}
use infernal_client_rs.Common.Int.{ℤ}
use infernal_client_rs.Common.Text.{Str, codes, format}
use infernal_client_rs.Common.Decimal.{
  display_i64, display_i64_chars, display_i64_injective, IsDigitOrMinus,
}
use infernal_client_rs.Wire.Values.{IsPrintable}
use infernal_client_rs.Wire.Metadata.{IsNonce, IsNonceChar}
use infernal_client_rs.Deps.{Deps, UuidLaws, IsUuidChar}
use infernal_client_rs.Wire.{
  signature_label, signature_parameters, signature_base, covered_components,
}

-- The signature parameters around four texts
unfoldable pub parameters_layout : Str → Str → Str → Str → Str
parameters_layout created expires nonce key_id = format (
    covered_components
    ∷ codes ";created="
    ∷ created
    ∷ codes ";expires="
    ∷ expires
    ∷ codes ";nonce=\""
    ∷ nonce
    ∷ codes "\";keyid=\""
    ∷ key_id
    ∷ codes "\";alg=\"ed25519\""
    ∷ [])

-- The header `Signature-Input` over parameters
abbrev pub input_layout : Str → Str
input_layout parameters = format (signature_label ∷ codes "=" ∷ parameters ∷ [])

pub input_layout_injective : (p q : Str) → input_layout p ≡ input_layout q → p ≡ q
unfolding signature_label
input_layout_injective p q h = append_cancel (codes "sig1=") p q h

-- A layout of printable texts is printable.
pub layout-IsPrintable :
    (c e n k : Str)
    → All IsPrintable c × All IsPrintable e × All IsPrintable n × All IsPrintable k
    → All IsPrintable (parameters_layout c e n k)
unfolding parameters_layout covered_components
layout-IsPrintable c e n k (hc, he, hn, hk) =
    let alg = codes "\";alg=\"ed25519\"" in
    let tail4 = codes "\";keyid=\"" ++ (k ++ alg) in
    let tail3 = codes ";nonce=\"" ++ (n ++ tail4) in
    let tail2 = codes ";expires=" ++ (e ++ tail3) in
    let tail1 = codes ";created=" ++ (c ++ tail2) in
    let h4 = All-labelled IsPrintable (codes "\";keyid=\"") k alg (omega arith) hk (omega arith) in
    let h3 = All-labelled IsPrintable (codes ";nonce=\"") n tail4 (omega arith) hn h4 in
    let h2 = All-labelled IsPrintable (codes ";expires=") e tail3 (omega arith) he h3 in
    let h1 = All-labelled IsPrintable (codes ";created=") c tail2 (omega arith) hc h2 in
    All-append IsPrintable covered_components tail1 (omega arith) h1

pub nonce-IsPrintable : (n : Str) → IsNonce n → All IsPrintable n
nonce-IsPrintable n (_, _, h) = All-mono IsNonceChar IsPrintable (λ c k. ground arith) n h

module _ ⦃d : Deps⦄ (laws : UuidLaws) where
  open d use {Uuid, uuid_to_string, uuid_parse}

  to_string_injective : (u v : Uuid) → uuid_to_string u ≡ uuid_to_string v → u ≡ v
  to_string_injective u v e = cc (laws.parse-to_string u, laws.parse-to_string v)

  to_string-Lacks_newline : (u : Uuid) → Lacks b'\n' (uuid_to_string u)
  to_string-Lacks_newline u = All-mono IsUuidChar _ (λ c h. omega arith) _ (laws.to_string_chars u)

  -- Fields on lines of their own are read back from the signature base, if none holds a newline.
  pub signature_base_injective :
      (m m' t t' g g' c c' : Str) (s s' i i' r r' : Uuid) (p p' : Str)
      → Lacks b'\n' m × Lacks b'\n' t × Lacks b'\n' g × Lacks b'\n' c
      → Lacks b'\n' m' × Lacks b'\n' t' × Lacks b'\n' g' × Lacks b'\n' c'
      → signature_base m t g c s i r p ≡ signature_base m' t' g' c' s' i' r' p'
      → (m ≡ m') × (t ≡ t') × (g ≡ g') × (c ≡ c') × (s ≡ s') × (i ≡ i') × (r ≡ r') × (p ≡ p')
  unfolding signature_base
  signature_base_injective m m' t t' g g' c c' s s' i i' r r' p p' (hm, ht, hg, hc)
        (hm', ht', hg', hc') e =
      let n = to_string-Lacks_newline in
      let (em, e1) = field_split b'\n' (codes "\"@method\": ") m m' _ _ hm hm' e in
      let (et, e2) = field_split b'\n' (codes "\"@target-uri\": ") t t' _ _ ht ht' e1 in
      let (eg, e3) = field_split b'\n' (codes "\"content-digest\": ") g g' _ _ hg hg' e2 in
      let (ec, e4) = field_split b'\n' (codes "\"content-type\": ") c c' _ _ hc hc' e3 in
      let (es, e5) =
        field_split b'\n' (codes "\"infernal-service-id\": ") _ _ _ _ (n s) (n s') e4 in
      let (ei, e6) =
        field_split b'\n' (codes "\"infernal-instance-id\": ") _ _ _ _ (n i) (n i') e5 in
      let (er, e7) =
        field_split b'\n' (codes "\"infernal-request-id\": ") _ _ _ _ (n r) (n r') e6 in
      (
        em,
        et,
        eg,
        ec,
        to_string_injective s s' es,
        to_string_injective i i' ei,
        to_string_injective r r' er,
        append_cancel (codes "\"@signature-params\": ") p p' e7,
      )

  -- Equal signature parameters hold the same times, nonce and key, if the nonces hold no quotation
  -- mark.
  signature_parameters_injective :
      (c c' e e' : ℤ) (n n' : Str) (k k' : Uuid)
      → Lacks b'"' n
      → Lacks b'"' n'
      → signature_parameters c e n k ≡ signature_parameters c' e' n' k'
      → (c ≡ c') × (e ≡ e') × (n ≡ n') × (k ≡ k')
  unfolding signature_parameters
  signature_parameters_injective c c' e e' n n' k k' hn hn' h =
      let semi = λ (t : ℤ).
        All-mono IsDigitOrMinus (λ x. x ≢ b';') (λ x q. omega arith) _ (display_i64_chars t) in
      let quote = λ (u : Uuid).
        All-mono IsUuidChar (λ x. x ≢ b'"') (λ x q. omega arith) _ (laws.to_string_chars u) in
      let (ec, h1) =
        field_split b';' (codes ";created=") _ _ _ _ (semi c) (semi c')
          (append_cancel covered_components _ _ h) in
      let (ee, h2) = field_split b';' (codes "expires=") _ _ _ _ (semi e) (semi e') h1 in
      let (en, h3) = field_split b'"' (codes "nonce=\"") _ _ _ _ hn hn' h2 in
      let (ek, _) = field_split b'"' (codes ";keyid=\"") _ _ _ _ (quote k) (quote k') h3 in
      (
        display_i64_injective c c' ec,
        display_i64_injective e e' ee,
        en,
        to_string_injective k k' ek,
      )

  pub uuid-IsPrintable : (u : Uuid) → All IsPrintable (uuid_to_string u)
  uuid-IsPrintable u =
      All-mono IsUuidChar IsPrintable (λ c h. ground arith) _ (laws.to_string_chars u)

  pub parameters-IsPrintable :
      (c e : ℤ) (n : Str) (k : Uuid) → IsNonce n → All IsPrintable (signature_parameters c e n k)
  unfolding signature_parameters parameters_layout
  parameters-IsPrintable c e n k h =
      let digits = λ (t : ℤ).
        All-mono IsDigitOrMinus IsPrintable (λ x q. ground arith) _ (display_i64_chars t) in
      layout-IsPrintable (display_i64 c) (display_i64 e) n (uuid_to_string k)
        (digits c, digits e, nonce-IsPrintable n h, uuid-IsPrintable k)
