-- ===== src/Transport/Pem.antt =====
-- src/transport.rs: which root certificates pass, and that nothing else gets into a client.
use infernal_client_rs.Common.{
  sym, ◌≡◌, ◌↔◌, ◌⊎◌, inl, inr, ap, ◌∙◌, true, not, none, some, [], ◌∷◌, ◌++◌, All, Lacks, arith,
  ==_iff, Option-cases,
}
use infernal_client_rs.Common.Text.{Bytes, Str, codes, utf8, split_once}
use infernal_client_rs.Common.Utf8.{IsScalar}
use infernal_client_rs.Common.Split.{split_once-append}
use infernal_client_rs.Common.First.{IsFirst, split_once_iff}
use infernal_client_rs.Common.FromUtf8.{from_utf8}
use infernal_client_rs.Common.FromUtf8.Encoded.{from_utf8-utf8, from_utf8_iff}
use mathlib.Core.Path.{subst}
use infernal_client_rs.Error.{
  fails_rules, Result, ok, err, transport, invalid_trust_anchor, ok_or->>=-eq-ok,
  refuse_if->>-eq-ok, FailsWith, err-ne-ok, Result-cases,
}
use infernal_client_rs.Deps.{Deps}
use infernal_client_rs.Transport.{
  Http, done, failed, pem_certificate_begin, pem_certificate_end, without_whitespace, is_sequence,
  validate_pem_certificate, with_extra_root_certificate,
}
use infernal_client_rs.Transport.Outcome.{Attempt-cases}

-- A text with a certificate between the two markers
abbrev pub pem_layout : Str → Str → Str → Str
pem_layout before body after =
    before ++ (pem_certificate_begin ++ (body ++ (pem_certificate_end ++ after)))

is_sequence_sound : (b : Bytes) → is_sequence b ≡ true → (rest : Bytes) × (b ≡ 0x30 ∷ rest)
unfolding is_sequence
is_sequence_sound [] h = cc
is_sequence_sound (x ∷ b) h = (b, ap (λ y. y ∷ b) ((==_iff x 0x30).0 h))

module _ ⦃d : Deps⦄ where
  open d use {standard_decode}

  -- Bytes that pass for a certificate: the UTF-8 of a text, and what stands in it from the first marker
  -- to the next end marker is, blanks left out, base64 of bytes of which the first is 0x30, the tag of
  -- a sequence. Nothing is asked of the bytes behind it.
  pub record PassesForCertificate (pem : Bytes) : Type 0 where
    pub text : Str
    pub before : Str
    pub rest : Str
    pub body : Str
    pub after : Str
    pub after_tag : Bytes
    pub encodes : (utf8 text ≡ pem) × All IsScalar text
    pub begins : IsFirst text pem_certificate_begin before rest
    pub ends : IsFirst rest pem_certificate_end body after
    pub is_base64 : standard_decode (without_whitespace body) ≡ some (0x30 ∷ after_tag)

  validate_pem_certificate_sound :
      (pem : Bytes) → validate_pem_certificate pem ≡ ok tt → PassesForCertificate pem
  unfolding validate_pem_certificate
  validate_pem_certificate_sound pem h =
      let (text, ht, h1) = ok_or->>=-eq-ok (from_utf8 pem) _ _ h in
      let ((before, rest), hb, h2) =
        ok_or->>=-eq-ok (split_once text pem_certificate_begin) _ _ h1 in
      let ((body, after), he, h3) = ok_or->>=-eq-ok (split_once rest pem_certificate_end) _ _ h2 in
      let (decoded, hd, h4) = ok_or->>=-eq-ok (standard_decode (without_whitespace body)) _ _ h3 in
      let (hs, _) = refuse_if->>-eq-ok (not (is_sequence decoded)) _ _ h4 in
      let (after_tag, e) = is_sequence_sound decoded (ground arith) in
      record {
        text = text;
        before = before;
        rest = rest;
        body = body;
        after = after;
        after_tag = after_tag;
        encodes = (from_utf8_iff pem text).0 ht;
        begins = (split_once_iff text pem_certificate_begin before rest).0 hb;
        ends = (split_once_iff rest pem_certificate_end body after).0 he;
        is_base64 = hd ∙ ap some e;
      }

  validate_pem_certificate_complete :
      (pem : Bytes) → PassesForCertificate pem → validate_pem_certificate pem ≡ ok tt
  unfolding validate_pem_certificate is_sequence
  validate_pem_certificate_complete pem w = rw (
    (from_utf8_iff pem w.text).1 w.encodes,
    (split_once_iff w.text pem_certificate_begin w.before w.rest).1 w.begins,
    (split_once_iff w.rest pem_certificate_end w.body w.after).1 w.ends,
    w.is_base64,
  )

  validate_pem_certificate-FailsWith :
      (pem : Bytes) → FailsWith invalid_trust_anchor (validate_pem_certificate pem)
  unfolding validate_pem_certificate
  validate_pem_certificate-FailsWith pem = search fails_rules depth 12

  -- The check lets through bytes that pass for a certificate, and refuses all others with one error.
  validate_pem_certificate_cases :
      (pem : Bytes)
      → (PassesForCertificate pem × (validate_pem_certificate pem ≡ ok tt))
        ⊎ ((¬ PassesForCertificate pem) × (validate_pem_certificate pem ≡ err invalid_trust_anchor))
  validate_pem_certificate_cases pem = elim (Result-cases (validate_pem_certificate pem)) [
    | inl (tt, h) ↦ inl (validate_pem_certificate_sound pem h, h)
    | inr (e, h) ↦ inr (
      λ w. err-ne-ok e tt (sym h ∙ validate_pem_certificate_complete pem w),
      h ∙ ap err ((validate_pem_certificate-FailsWith pem).only e h),
    )
  ]

  -- The bytes of a text with both markers, with no hyphen before the first and none between
  -- them, pass if what stands between them, blanks left out, is base64 of bytes of which the
  -- first is 0x30.
  pem_layout-ok :
      (before body after : Str) (after_tag : Bytes)
      → Lacks b'-' before
      → Lacks b'-' body
      → All IsScalar (pem_layout before body after)
      → standard_decode (without_whitespace body) ≡ some (0x30 ∷ after_tag)
      → validate_pem_certificate (utf8 (pem_layout before body after)) ≡ ok tt
  unfolding validate_pem_certificate is_sequence
  pem_layout-ok before body after after_tag hb hm hs h = rw (
    from_utf8-utf8 (pem_layout before body after) hs,
    split_once-append before b'-' (codes "----BEGIN CERTIFICATE-----")
        (body ++ (pem_certificate_end ++ after)) hb,
    split_once-append body b'-' (codes "----END CERTIFICATE-----") after hm,
    h,
  )

  module _ (http : Http) where
    open http use {HttpClient, certificate_from_pem, build}

    -- The end of the building of a client with an extra root certificate
    pub data RootOutcome (pem : Bytes) : Result HttpClient → Type 0 where
      no_certificate : ¬ PassesForCertificate pem → RootOutcome pem (err invalid_trust_anchor)
      not_taken :
          PassesForCertificate pem
          → certificate_from_pem pem ≡ none
          → RootOutcome pem (err invalid_trust_anchor)
      not_built :
          (certificate : http.Certificate) (m : Str)
          → PassesForCertificate pem
          → certificate_from_pem pem ≡ some certificate
          → build (some certificate) ≡ failed m
          → RootOutcome pem (err (transport m))
      trusted :
          (certificate : http.Certificate) (client : HttpClient)
          → PassesForCertificate pem
          → certificate_from_pem pem ≡ some certificate
          → build (some certificate) ≡ done client
          → RootOutcome pem (ok client)

    outcome_root :
        (pem : Bytes) (result : Result HttpClient)
        → RootOutcome pem result
        → with_extra_root_certificate http pem ≡ result
    unfolding with_extra_root_certificate
    outcome_root pem result (no_certificate n) = elim (validate_pem_certificate_cases pem) [
      | inl (w, _) ↦ absurd (n w)
      | inr (_, h) ↦ rw h
    ]
    outcome_root pem result (not_taken w hc) = rw (validate_pem_certificate_complete pem w, hc)
    outcome_root pem result (not_built c m w hc hb) =
        rw (validate_pem_certificate_complete pem w, hc, hb)
    outcome_root pem result (trusted c client w hc hb) =
        rw (validate_pem_certificate_complete pem w, hc, hb)

    -- What can be said of the end is said of the building.
    built :
        (pem : Bytes) {result : Result HttpClient}
        → RootOutcome pem result
        → RootOutcome pem (with_extra_root_certificate http pem)
    built pem o = subst (RootOutcome pem) (sym (outcome_root pem _ o)) o

    root_outcome : (pem : Bytes) → RootOutcome pem (with_extra_root_certificate http pem)
    root_outcome pem = elim (validate_pem_certificate_cases pem) [
      | inr (n, _) ↦ built pem (no_certificate n)
      | inl (w, _) ↦ elim (Option-cases (certificate_from_pem pem)) [
        | inl hc ↦ built pem (not_taken w hc)
        | inr (c, hc) ↦ elim (Attempt-cases (build (some c))) [
          | inl (m, hb) ↦ built pem (not_built c m w hc hb)
          | inr (client, hb) ↦ built pem (trusted c client w hc hb)
        ]
      ]
    ]

    -- Building a client with an extra root certificate ends as RootOutcome lists: bytes that do not
    -- pass for a certificate are refused as invalid_trust_anchor, a certificate that the HTTP
    -- client does not take likewise, a client that is not built fails as the transport does, and
    -- else that client is the result. Bytes pass for a certificate if they are the UTF-8 of a text
    -- in which, from the first begin marker to the next end marker and blanks left out, stands
    -- base64 of bytes of which the first is 0x30, the tag of a sequence, whatever follows it.
    pub with_extra_root_certificate-RootOutcome_iff :
        (pem : Bytes) (result : Result HttpClient)
        → (with_extra_root_certificate http pem ≡ result) ↔ RootOutcome pem result
    with_extra_root_certificate-RootOutcome_iff pem result =
        (λ h. subst (RootOutcome pem) h (root_outcome pem), outcome_root pem result)
