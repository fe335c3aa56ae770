-- ===== src/Request/Parts.antt =====
-- src/request.rs: what `RequestParts::new` accepts, and the error that it gives for the rest.
use infernal_client_rs.Common.{
  ℕ, ◌≤◌, ◌≡◌, ◌≢◌, ◌↔◌, [], ◌∷◌, sym, false, not, ◌||◌, All, Lacks, all, any, ◌==◌, is_empty,
  All-mono, any-false→All, All→any-false, arith, true_of_not,
}
use mathlib.Core.Path.{subst}
use infernal_client_rs.Common.Text.{
  Bytes, Str, codes, utf8, trim, starts_with, contains, is_ascii_uppercase,
}
use infernal_client_rs.Common.Utf8.{IsAscii, all-utf8_iff, utf8_ascii}
use infernal_client_rs.Common.Split.{starts_with_iff}
use infernal_client_rs.Error.{ok, err, invalid_request_part}
use infernal_client_rs.Deps.{Deps}
use infernal_client_rs.Wire.{valid_header_value, valid_uri_value}
use infernal_client_rs.Wire.Values.{
  IsVisible, IsPrintable, is_empty_iff, valid_uri_value_iff, valid_header_value_iff,
}
use infernal_client_rs.Request.{RequestParts, new, is_authority_delimiter}

abbrev IsUppercase : ℕ → Type 0
IsUppercase c = (b'A' ≤ c) × (c ≤ b'Z')

abbrev IsNoDelimiter : ℕ → Type 0
IsNoDelimiter c = (c ≢ b'/') × (c ≢ b'@') × (c ≢ b'?') × (c ≢ b'#')

-- One or more upper-case letters
abbrev pub IsMethod : Str → Type 0
IsMethod s = (s ≢ []) × All IsUppercase s

-- One or more visible ASCII characters, none of them `/`, `@`, `?` or `#`
abbrev pub IsAuthority : Str → Type 0
IsAuthority s = (s ≢ []) × All IsVisible s × All IsNoDelimiter s

-- Visible ASCII characters without `#`, the first of them `/`
abbrev pub IsPath : Str → Type 0
IsPath s = ((r : Str) × (s ≡ b'/' ∷ r)) × Lacks b'#' s × All IsVisible s

-- One or more printable ASCII characters, with no blank at either end
abbrev pub IsContentType : Str → Type 0
IsContentType s = (s ≢ []) × (trim s ≡ s) × All IsPrintable s

IsMethod-iff :
    (s : Str) → ((is_empty s || not (all is_ascii_uppercase (utf8 s))) ≡ false) ↔ IsMethod s
IsMethod-iff s =
    let (e0, e1) = is_empty_iff s in
    let (u0, u1) =
      all-utf8_iff is_ascii_uppercase IsUppercase (λ b h. ground arith) (λ b h. ground arith)
        (λ b h. omega arith) s in
    (λ h. (e0 (ground arith), u0 (ground arith)), λ (e, u). rw (e1 e, u1 u))

IsAuthority-iff :
    (s : Str)
    → ((not (valid_uri_value s) || any is_authority_delimiter (utf8 s)) ≡ false) ↔ IsAuthority s
IsAuthority-iff s =
    let (v0, v1) = valid_uri_value_iff s in
    let bytes =
      λ (v : All IsVisible s). utf8_ascii s (All-mono IsVisible IsAscii (λ b h. omega arith) s v) in
    (
      λ h.
          let (e, v) = v0 (ground arith) in
          let lacks : any is_authority_delimiter (utf8 s) ≡ false = ground arith in
          (
            e,
            v,
            any-false→All is_authority_delimiter IsNoDelimiter (λ b k. ground arith) s
                (rw (bytes v) at lacks),
          ),
      λ (e, v, n). rw (
        v1 (e, v),
        bytes v,
        All→any-false is_authority_delimiter IsNoDelimiter (λ b k. ground arith) s n,
      ),
    )

IsPath-iff :
    (s : Str)
    → ((not (starts_with s (codes "/")) || contains s b'#' || not (valid_uri_value s)) ≡ false)
      ↔ IsPath s
IsPath-iff s =
    let (v0, v1) = valid_uri_value_iff s in
    let (p0, p1) = starts_with_iff s (codes "/") in
    (
      λ h.
          let lacks : contains s b'#' ≡ false = ground arith in
          let (_, v) = v0 (ground arith) in
          (p0 (ground arith), any-false→All _ (λ c. c ≢ b'#') (λ b k. ground arith) s lacks, v),
      λ ((r, e), n, v). rw (
        p1 (r, e),
        v1 (rw e (λ k. cc), v),
        All→any-false (λ c. c == b'#') (λ c. c ≢ b'#') (λ b k. ground arith) s n,
      ),
    )

IsContentType-iff : (s : Str) → (not (valid_header_value s) ≡ false) ↔ IsContentType s
IsContentType-iff s =
    let (v0, v1) = valid_header_value_iff s in (λ h. v0 (ground arith), λ c. rw (v1 c))

module _ ⦃d : Deps⦄ where
  open d use {Uuid}

  -- The parts of a request that `new` made
  pub record IsValid (parts : RequestParts) : Type 0 where
    pub method : IsMethod parts.method
    pub authority : IsAuthority parts.authority
    pub path_and_query : IsPath parts.path_and_query
    pub content_type : IsContentType parts.content_type

  new-eq-ok :
      (m a p c : Str) (b : Bytes) (r : Uuid) {parts : RequestParts}
      → new m a p c b r ≡ ok parts
      → parts ≡ record {
        method = m;
        authority = a;
        path_and_query = p;
        content_type = c;
        body = b;
        request_id = r;
      }
  unfolding new
  new-eq-ok m a p c b r h = ground arith

  -- RequestParts::new succeeds exactly on a valid method, authority, path and content type, and
  -- keeps its arguments as they are.
  pub new-ok_iff :
      (method authority path_and_query content_type : Str) (body : Bytes) (request_id : Uuid)
      (parts : RequestParts)
      → (new method authority path_and_query content_type body request_id ≡ ok parts) ↔ (
          IsValid parts
          × (parts ≡ record {
            method = method;
            authority = authority;
            path_and_query = path_and_query;
            content_type = content_type;
            body = body;
            request_id = request_id;
          }))
  unfolding new
  new-ok_iff m a p c b r parts =
      let (m0, m1) = IsMethod-iff m in
      let (a0, a1) = IsAuthority-iff a in
      let (p0, p1) = IsPath-iff p in
      let (c0, c1) = IsContentType-iff c in
      (
        λ h.
            let e = new-eq-ok m a p c b r h in
            (
              subst IsValid (sym e) (record {
                method = m0 (ground arith);
                authority = a0 (ground arith);
                path_and_query = p0 (ground arith);
                content_type = c0 (ground arith);
              }),
              e,
            ),
        λ (v, e).
            let w = subst IsValid e v in
            rw (e, m1 w.method, a1 w.authority, p1 w.path_and_query, c1 w.content_type),
      )

  -- A refusal of RequestParts::new names the first part that is not valid, in the order method,
  -- authority, path, content type.
  new-err_iff :
      (method authority path_and_query content_type : Str) (body : Bytes) (request_id : Uuid)
      → let made = new method authority path_and_query content_type body request_id in
        ((made ≡ err (invalid_request_part (codes "method"))) ↔ (¬ IsMethod method))
        × ((made ≡ err (invalid_request_part (codes "authority")))
            ↔ (IsMethod method × ¬ IsAuthority authority))
        × ((made ≡ err (invalid_request_part (codes "path_and_query")))
            ↔ (IsMethod method × IsAuthority authority × ¬ IsPath path_and_query))
        × ((made ≡ err (invalid_request_part (codes "content_type"))) ↔ (
            IsMethod method
            × IsAuthority authority
            × IsPath path_and_query
            × ¬ IsContentType content_type))
  unfolding new
  new-err_iff m a p c b r =
      let (m0, m1) = IsMethod-iff m in
      let (a0, a1) = IsAuthority-iff a in
      let (p0, p1) = IsPath-iff p in
      let (c0, c1) = IsContentType-iff c in
      (
        (λ h v. ground (arith, m1 v), λ n. ground (arith, true_of_not _ m0 n)),
        (
          λ h. (m0 (ground arith), λ v. ground (arith, a1 v)),
          λ (vm, n). ground (arith, m1 vm, true_of_not _ a0 n),
        ),
        (
          λ h. (m0 (ground arith), a0 (ground arith), λ v. ground (arith, p1 v)),
          λ (vm, va, n). ground (arith, m1 vm, a1 va, true_of_not _ p0 n),
        ),
        (
          λ h. (m0 (ground arith), a0 (ground arith), p0 (ground arith), λ v. ground (arith, c1 v)),
          λ (vm, va, vp, n). ground (arith, m1 vm, a1 va, p1 vp, true_of_not _ c0 n),
        ),
      )
