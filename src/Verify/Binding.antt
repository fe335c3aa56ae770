-- ===== src/Verify/Binding.antt =====
-- src/wire.rs, src/request.rs, src/verify.rs: what a signature over the signature base commits to.
use infernal_client_rs.Common.{
  ◌<◌, ◌≡◌, ◌≢◌, ◌∷◌, [], ◌++◌, sym, ◌∙◌, ap, Lacks, All, All-append, All-labelled, All-mono,
  append_cancel, delimited_split, field_split, arith,
}
use infernal_client_rs.Common.Text.{Bytes, Str, codes}
use infernal_client_rs.Common.Utf8.{utf8_injective}
use infernal_client_rs.Deps.{Deps, UuidLaws, Base64Laws, Sha256Laws, IsBase64Char}
use infernal_client_rs.Credential.{ClientPublicKey}
use infernal_client_rs.Wire.{signature_base, content_digest}
use infernal_client_rs.Wire.Layout.{signature_base_injective, uuid-IsPrintable}
use infernal_client_rs.Wire.Values.{IsVisible, IsPrintable}
use infernal_client_rs.Request.{RequestParts, target_uri, base_bytes}
use infernal_client_rs.Request.Parts.{IsValid, IsAuthority}

-- Printable ASCII: no newline, and its own UTF-8
abbrev pub IsLine : Str → Type 0
IsLine = All IsPrintable

line-Lacks : (s : Str) → IsLine s → Lacks b'\n' s
line-Lacks s = All-mono IsPrintable _ (λ c h. omega arith) s

abbrev pub IsScalarText : Str → Type 0
IsScalarText = All (λ c. c < 0x11_0000)

line-scalar : (s : Str) → IsLine s → IsScalarText s
line-scalar s = All-mono IsPrintable _ (λ c h. omega arith) s

-- A label of the signature base, a line, and what follows
scalar_step :
    (label s rest : Str)
    → IsScalarText label
    → IsLine s
    → IsScalarText rest
    → IsScalarText (label ++ (s ++ rest))
scalar_step label s rest hl hs hr = All-labelled _ label s rest hl (line-scalar s hs) hr

module _ ⦃d : Deps⦄ where
  open d use {Uuid, uuid_to_string, sha256, standard_encode, standard_decode}

  -- The same digest header means the same SHA-256.
  pub content_digest_injective :
      Base64Laws
      → Sha256Laws
      → (a b : Bytes) → content_digest a ≡ content_digest b
      → sha256 a ≡ sha256 b
  unfolding content_digest
  content_digest_injective base64 sha a b e =
      let colon = λ (x : Bytes).
        All-mono IsBase64Char (λ c. c ≢ b':') (λ c h. omega arith) _
          (base64.standard_chars (sha256 x) (sha.sha256-IsBytes x)) in
      let (same, _) = field_split b':' (codes "sha-256=:") _ _ [] [] (colon a) (colon b) e in
      cc (
        ap standard_decode same,
        base64.standard_round_trip (sha256 a) (sha.sha256-IsBytes a),
        base64.standard_round_trip (sha256 b) (sha.sha256-IsBytes b),
      )

  method-IsLine : (p : RequestParts) → IsValid p → IsLine p.method
  method-IsLine p v = All-mono _ IsPrintable (λ c h. omega arith) p.method v.method.1

  uri-IsLine : (p : RequestParts) → IsValid p → IsLine (target_uri p)
  unfolding target_uri
  uri-IsLine p v = All-append IsPrintable (codes "https://") _ (omega arith) (
      All-append IsPrintable p.authority p.path_and_query
        (All-mono IsVisible IsPrintable (λ c h. omega arith) p.authority v.authority.1)
        (All-mono IsVisible IsPrintable (λ c h. omega arith) p.path_and_query v.path_and_query.2))

  -- The target URI of valid parts determines the authority and the path.
  target_uri_injective :
      (p q : RequestParts)
      → IsValid p
      → IsValid q
      → target_uri p ≡ target_uri q
      → (p.authority ≡ q.authority) × (p.path_and_query ≡ q.path_and_query)
  unfolding target_uri
  target_uri_injective p q v w e =
      let ((r, pr), _, _) = v.path_and_query in
      let ((t, qt), _, _) = w.path_and_query in
      let slash = λ (s : Str) (h : IsAuthority s). All-mono _ (λ c. c ≢ b'/') (λ c k. k.0) s h.2 in
      let same : p.authority ++ (b'/' ∷ r) ≡ q.authority ++ (b'/' ∷ t) =
        ap (λ x. p.authority ++ x) (sym pr)
        ∙ append_cancel (codes "https://") _ _ e
        ∙ ap (λ x. q.authority ++ x) qt in
      let (ea, er) =
        delimited_split b'/' _ _ r t (slash _ v.authority) (slash _ w.authority) same in
      (ea, pr ∙ ap (λ x. b'/' ∷ x) er ∙ sym qt)

  base_scalar :
      UuidLaws
      → (m t g c : Str) (s i r : Uuid) (p : Str)
      → IsLine m × IsLine t × IsLine g × IsLine c × IsLine p
      → IsScalarText (signature_base m t g c s i r p)
  unfolding signature_base
  base_scalar laws m t g c s i r p (hm, ht, hg, hc, hp) =
      let id = uuid-IsPrintable laws in
      scalar_step (codes "\"@method\": ") m _ (omega arith) hm (
        scalar_step (codes "\n\"@target-uri\": ") t _ (omega arith) ht (
          scalar_step (codes "\n\"content-digest\": ") g _ (omega arith) hg (
            scalar_step (codes "\n\"content-type\": ") c _ (omega arith) hc (
              scalar_step (codes "\n\"infernal-service-id\": ") _ _ (omega arith) (id s) (
                scalar_step (codes "\n\"infernal-instance-id\": ") _ _ (omega arith) (id i) (
                  scalar_step (codes "\n\"infernal-request-id\": ") _ _ (omega arith) (id r) (
                    All-append _ (codes "\n\"@signature-params\": ") p (omega arith)
                      (line-scalar p hp))))))))

  -- Two valid requests, each with a digest and parameters that are lines of printable characters,
  -- that lead to the same bytes to sign have the same method, authority, path, content type,
  -- request id, service id, instance id, digest and parameters.
  pub base_bytes_injective :
      UuidLaws
      → (p q : RequestParts) (key key' : ClientPublicKey) (g g' params params' : Str) → IsValid p
      → IsValid q
      → IsLine g × IsLine params
      → IsLine g' × IsLine params'
      → base_bytes p key g params ≡ base_bytes q key' g' params'
      → (p.method ≡ q.method)
        × (p.authority ≡ q.authority)
        × (p.path_and_query ≡ q.path_and_query)
        × (p.content_type ≡ q.content_type)
        × (p.request_id ≡ q.request_id)
        × (key.service_id ≡ key'.service_id)
        × (key.instance_id ≡ key'.instance_id)
        × (g ≡ g')
        × (params ≡ params')
  base_bytes_injective laws p q key key' g g' params params' v w (hg, hp) (hg', hp') e =
      let same =
        utf8_injective _ _
          (base_scalar laws _ _ _ _ _ _ _ _
            (method-IsLine p v, uri-IsLine p v, hg, v.content_type.2, hp))
          (base_scalar laws _ _ _ _ _ _ _ _
            (method-IsLine q w, uri-IsLine q w, hg', w.content_type.2, hp'))
          e in
      let l = line-Lacks in
      let (em, et, eg, ec, es, ei, er, ep) =
        signature_base_injective laws _ _ _ _ _ _ _ _ _ _ _ _ _ _ _ _
          (l _ (method-IsLine p v), l _ (uri-IsLine p v), l g hg, l _ v.content_type.2)
          (l _ (method-IsLine q w), l _ (uri-IsLine q w), l g' hg', l _ w.content_type.2) same in
      let (ea, eq) = target_uri_injective p q v w et in (em, ea, eq, ec, er, es, ei, eg, ep)
