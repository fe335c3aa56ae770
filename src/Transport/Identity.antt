-- ===== src/Transport/Identity.antt =====
-- src/transport.rs: what fetching a kernel's identity gives.
use infernal_client_rs.Common.{
  ◌≡◌, ◌↔◌, inl, inr, refl, sym, ap, ap₂, ◌∙◌, Bool-cases, true, false, not, [], ◌++◌,
}
use infernal_client_rs.Common.Text.{Str, codes}
use mathlib.Core.Path.{subst}
use infernal_client_rs.Error.{Result, err, ◌>>=◌, ◌>>◌, refuse_if, transport}
use infernal_client_rs.Deps.{Deps}
use infernal_client_rs.KernelIdentity.{KernelIdentity, from_json}
use infernal_client_rs.Transport.{
  Attempt, or_transport, done, failed, HttpRequest, HttpResponse, Http, no_payload,
}
use infernal_client_rs.Transport.Client.{fetch_kernel_identity}
use infernal_client_rs.Call
use infernal_client_rs.Call.{Call, lift}
use infernal_client_rs.Transport.Outcome.{Attempt-cases}

abbrev pub identity_request : Str → HttpRequest
identity_request base_url = record {
  method = codes "GET";
  url = base_url ++ codes "/v1/kernel-identity";
  headers = [];
  payload = no_payload;
}

module _ ⦃d : Deps⦄ (http : Http) where
  open http use {HttpClient, World, execute, is_success, parse_identity}

  -- The end of a fetch. The status is looked at before the body is read.
  pub data FetchOutcome (answer : Attempt HttpResponse) : Result KernelIdentity → Type 0 where
    no_response : (m : Str) → answer ≡ failed m → FetchOutcome answer (err (transport m))
    bad_status :
        (response : HttpResponse)
        → answer ≡ done response
        → is_success response.status ≡ false
        → FetchOutcome answer
            (err (transport (codes "kernel identity fetch returned " ++ response.status_text)))
    no_body :
        (response : HttpResponse) (m : Str)
        → answer ≡ done response
        → is_success response.status ≡ true
        → response.text ≡ failed m
        → FetchOutcome answer (err (transport m))
    read :
        (response : HttpResponse) (body : Str)
        → answer ≡ done response
        → is_success response.status ≡ true
        → response.text ≡ done body
        → FetchOutcome answer (from_json parse_identity body)

  abbrev fetch_result : Attempt HttpResponse → Result KernelIdentity
  fetch_result answer = do
    response ← or_transport answer
    refuse_if (not (is_success response.status))
        (transport (codes "kernel identity fetch returned " ++ response.status_text))
    body ← or_transport response.text
    from_json parse_identity body

  outcome_fetch :
      (answer : Attempt HttpResponse) (result : Result KernelIdentity)
      → FetchOutcome answer result
      → fetch_result answer ≡ result
  outcome_fetch answer result (no_response m h) = rw h
  outcome_fetch answer result (bad_status response h hs) = rw (h, hs)
  outcome_fetch answer result (no_body response m h hs ht) = rw (h, hs, ht)
  outcome_fetch answer result (read response body h hs ht) = rw (h, hs, ht)

  -- What can be said of the end of a fetch is said of the fetch.
  fetched :
      (answer : Attempt HttpResponse) {result : Result KernelIdentity}
      → FetchOutcome answer result
      → FetchOutcome answer (fetch_result answer)
  fetched answer o = subst (FetchOutcome answer) (sym (outcome_fetch answer _ o)) o

  fetch_outcome : (answer : Attempt HttpResponse) → FetchOutcome answer (fetch_result answer)
  fetch_outcome (failed m) = no_response m refl
  fetch_outcome (done response) = elim (Bool-cases (is_success response.status)) [
    | inr hs ↦ fetched (done response) (bad_status response refl hs)
    | inl hs ↦ elim (Attempt-cases response.text) [
      | inl (m, ht) ↦ fetched (done response) (no_body response m refl hs ht)
      | inr (body, ht) ↦ fetched (done response) (read response body refl hs ht)
    ]
  ]

  pub fetch_result-FetchOutcome_iff :
      (answer : Attempt HttpResponse) (result : Result KernelIdentity)
      → (fetch_result answer ≡ result) ↔ FetchOutcome answer result
  fetch_result-FetchOutcome_iff answer result =
      (λ h. subst (FetchOutcome answer) h (fetch_outcome answer), outcome_fetch answer result)

  -- What a fetch makes of the answer of its one exchange
  after_fetch : Attempt HttpResponse → Call World KernelIdentity
  after_fetch answer = Call.◌>>=◌ (lift (or_transport answer)) (λ response.
      Call.◌>>◌
        (lift (
          refuse_if (not (is_success response.status))
            (transport (codes "kernel identity fetch returned " ++ response.status_text))))
        (Call.◌>>=◌ (lift (or_transport response.text))
          (λ body. lift (from_json parse_identity body))))

  after_fetch_lem :
      (answer : Attempt HttpResponse) (w : World) → after_fetch answer w ≡ (fetch_result answer, w)
  unfolding after_fetch
  after_fetch_lem (failed m) w = refl
  after_fetch_lem (done response) w = elim (Bool-cases (is_success response.status)) [
    | inr hs ↦ rw hs refl
    | inl hs ↦ elim (Attempt-cases response.text) [
      | inl (m, ht) ↦ rw (hs, ht) refl
      | inr (body, ht) ↦ rw (hs, ht) refl
    ]
  ]

  pub fetch_kernel_identity_lem :
      (client : HttpClient) (base_url : Str) (world : World)
      → let sent = execute client (identity_request base_url) world in
        fetch_kernel_identity http client base_url world ≡ (fetch_result sent.0, sent.1)
  unfolding fetch_kernel_identity after_fetch
  fetch_kernel_identity_lem client base_url world =
      let sent = execute client (identity_request base_url) world in after_fetch_lem sent.0 sent.1

  -- Fetching an identity makes exactly one exchange, a GET: the world it leaves is the one that
  -- this exchange leads to. Its result is the one that FetchOutcome lists for the answer, in this
  -- order: the transport's error without a response, an error that names the status if it is no
  -- success, the transport's error if the body cannot be read, and else what from_json makes of the
  -- text of the body.
  pub fetch_kernel_identity-FetchOutcome_iff :
      (client : HttpClient) (base_url : Str) (world left : World) (result : Result KernelIdentity)
      → let sent = execute client (identity_request base_url) world in
        (fetch_kernel_identity http client base_url world ≡ (result, left))
        ↔ (FetchOutcome sent.0 result × (left ≡ sent.1))
  fetch_kernel_identity-FetchOutcome_iff client base_url world left result =
      let sent = execute client (identity_request base_url) world in
      let ends = fetch_kernel_identity_lem client base_url world in
      let (to, from) = fetch_result-FetchOutcome_iff sent.0 result in
      (
        λ h. (to (ap (λ x. x.0) (sym ends ∙ h)), ap (λ x. x.1) (sym h ∙ ends)),
        λ (o, e). ends ∙ ap₂ (λ x y. (x, y)) (from o) (sym e),
      )
