-- ===== src/Suite/Sockets.antt =====
-- src/transport.rs: its tests with a server on a socket. What the server's thread writes is a function
-- of the UUIDs it draws; that the client gets to read it is what `execute` gives.
use infernal_client_rs.Common.{
  list_eq, replicate, length, false, ◌≡◌, refl, Bool, true, none, some, ◌∷◌, [],
}
use infernal_client_rs.Common.Text.{Bytes, Str, codes, format, utf8}
use infernal_client_rs.Common.Decimal.{display_ℕ}
use infernal_client_rs.Error.{Result, ok, err, transport, ◌>>=◌}
use infernal_client_rs.Deps.{Deps, UuidLaws, Base64Laws}
use infernal_client_rs.KernelIdentity.{KernelIdentity}
use infernal_client_rs.Transport.{Http, HttpResponse, Attempt, new, done}
use infernal_client_rs.Transport.Client.{fetch_kernel_identity}
use infernal_client_rs.Transport.Identity.{identity_request}
use infernal_client_rs.Suite.KernelIdentity.{response_body, response, response_body-ok}

-- A response of HTTP with a body and its length in bytes
abbrev with_body : Str → Bytes
with_body body = utf8 (
    format (
      codes "HTTP/1.1 200 OK\r\nContent-Type: application/json\r\nContent-Length: "
      ∷ display_ℕ (length (utf8 body))
      ∷ codes "\r\nConnection: close\r\n\r\n"
      ∷ body
      ∷ []))

-- What the server of the second test writes
abbrev unavailable_server : Bytes
unavailable_server =
    codes "HTTP/1.1 503 Service Unavailable\r\nContent-Length: 0\r\nConnection: close\r\n\r\n"

-- HTTP/1.1: how such responses are read
record ReadsHttp (reads : Bytes → Attempt HttpResponse) : Type 0 where
  pub with_body_read :
      (body : Str)
      → (r : HttpResponse) × (reads (with_body body) ≡ done r)
        × (r.status ≡ 200)
        × (r.text ≡ done body)
  pub unavailable_read : (r : HttpResponse) × (reads unavailable_server ≡ done r) × (r.status ≡ 503)

module _ ⦃d : Deps⦄ where
  open d use {Uuid, url_safe_encode, uuid_to_string}

  -- What the server of the first test writes
  identity_server : Uuid → Uuid → Bytes
  identity_server instance_id key_id =
      let body = format (
        codes "{\"algorithm\":\"ed25519\",\"instance_id\":\""
        ∷ uuid_to_string instance_id
        ∷ codes "\",\"key_id\":\""
        ∷ uuid_to_string key_id
        ∷ codes "\",\"public_key\":\""
        ∷ url_safe_encode (replicate 32 1)
        ∷ codes "\",\"fingerprint\":\""
        ∷ url_safe_encode (replicate 32 2)
        ∷ codes "\"}"
        ∷ []) in
      with_body body

module _ ⦃d : Deps⦄ (http : Http) where
  open d use {Uuid}
  open http use {HttpClient, World, build, execute, is_success, parse_identity}

  fetch_kernel_identity_parses_a_real_http_response : Str → World → Result Bool
  fetch_kernel_identity_parses_a_real_http_response base_url world = do
    client ← new http
    identity ← (fetch_kernel_identity http client base_url world).0
    ok (list_eq identity.public_key (replicate 32 1))

  -- `matches!(result, Err(ClientError::Transport(_)))`
  is_transport : Result KernelIdentity → Bool
  is_transport (err (transport _)) = true
  is_transport _ = false

  fetch_kernel_identity_reports_a_non_success_status_as_a_transport_error :
      Str → World → Result Bool
  unfolding is_transport
  fetch_kernel_identity_reports_a_non_success_status_as_a_transport_error base_url world = do
    client ← new http
    let (result, _) = fetch_kernel_identity http client base_url world
    ok (is_transport result)

  -- Each test passes, over a client that reads HTTP.
  module _ (reads : Bytes → Attempt HttpResponse) (laws : ReadsHttp reads) where
    fetch_kernel_identity_parses_a_real_http_response_lem :
        UuidLaws
        → Base64Laws
        → (client : HttpClient) (base_url : Str) (world : World) (instance_id key_id : Uuid)
        → build none ≡ done client
        → (execute client (identity_request base_url) world).0
          ≡ reads (identity_server instance_id key_id)
        → is_success 200 ≡ true
        → parse_identity
            (response_body (codes "ed25519") instance_id key_id (replicate 32 1) (replicate 32 2))
          ≡ some (response (codes "ed25519") instance_id key_id (replicate 32 1) (replicate 32 2))
        → fetch_kernel_identity_parses_a_real_http_response base_url world ≡ ok true
    unfolding fetch_kernel_identity_parses_a_real_http_response new fetch_kernel_identity list_eq
        identity_server response_body
    fetch_kernel_identity_parses_a_real_http_response_lem uuid base64 client base_url world i kid hb
          he hs hp =
        let (r, read, status, text) =
          laws.with_body_read
            (response_body (codes "ed25519") i kid (replicate 32 1) (replicate 32 2)) in
        rw (hb, he, read, status, hs, text, response_body-ok parse_identity uuid base64 i kid hp)
          refl

    fetch_kernel_identity_reports_a_non_success_status_as_a_transport_error_lem :
        (client : HttpClient) (base_url : Str) (world : World)
        → build none ≡ done client
        → (execute client (identity_request base_url) world).0 ≡ reads unavailable_server
        → is_success 503 ≡ false
        → fetch_kernel_identity_reports_a_non_success_status_as_a_transport_error base_url world
          ≡ ok true
    unfolding fetch_kernel_identity_reports_a_non_success_status_as_a_transport_error new
        fetch_kernel_identity is_transport
    fetch_kernel_identity_reports_a_non_success_status_as_a_transport_error_lem client base_url
          world hb he hs =
        let (r, read, status) = laws.unavailable_read in rw (hb, he, read, status, hs) refl
