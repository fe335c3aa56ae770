-- ===== src/Transport/Evaluator.antt =====
-- src/transport.rs, src/kernel_identity.rs, src/credential.rs and src/verify.rs: a service that the
-- kernel calls, such as a policy evaluator. It fetches the identity that the kernel publishes, makes a
-- public key of it, and verifies what it receives.
use infernal_client_rs.Common.{◌≡◌, true, some, [], ap, sym, refl}
use mathlib.Core.Path.{subst}
use infernal_client_rs.Common.Int.{ℤ, pos, ◌≤ℤ◌, ◌+ℤ◌, IsI64}
use infernal_client_rs.Common.Text.{Str}
use infernal_client_rs.Error.{ok, >>=-eq-ok}
use infernal_client_rs.Call.{Call, lift, ◌>>=◌}
use infernal_client_rs.Deps.{Deps, UuidLaws, Base64Laws, Sha256Laws, Ed25519Laws}
use infernal_client_rs.Credential.{ClientPublicKey, ClientCredential, restore, generate}
use infernal_client_rs.Wire.Metadata.{IsWindow, IsNonce}
use infernal_client_rs.Request.{RequestParts, sign}
use infernal_client_rs.KernelIdentity.Published.{response_of, identity_of, published-ok}
use infernal_client_rs.Verify.{IncomingRequest, VerifiedRequest, verify_incoming}
use infernal_client_rs.Verify.Received.{incoming_from, verified_as}
use infernal_client_rs.Verify.RoundTrip.{sign_exchange-ok}
use infernal_client_rs.Transport.{Http, HttpResponse, done}
use infernal_client_rs.Transport.Client.{fetch_kernel_identity}
use infernal_client_rs.Transport.Identity.{
  FetchOutcome, identity_request, read, fetch_kernel_identity-FetchOutcome_iff,
}

module _ ⦃d : Deps⦄ where
  open d use {Uuid, SigningKey}

  module _ (http : Http) where
    open http use {HttpClient, World, execute, is_success, parse_identity}

    -- The key that the kernel publishes, under the kernel's service id
    unfoldable pub published_key : HttpClient → Str → Uuid → Call World ClientPublicKey
    published_key client base_url service_id = do
      identity ← fetch_kernel_identity http client base_url
      lift (restore service_id identity.instance_id identity.key_id identity.public_key)

    -- The calls of a service that takes requests from the kernel
    unfoldable pub evaluate :
        HttpClient → Str → Uuid → IncomingRequest → ℤ → Call World VerifiedRequest
    evaluate client base_url service_id request now = do
      public_key ← published_key client base_url service_id
      lift (verify_incoming request public_key now)

    -- A kernel that publishes a credential's identity, in a world that a request of it changes to
    -- another
    pub record Publishes (client : HttpClient) (base_url : Str) (credential : ClientCredential)
        (world left : World) : Type 0 where
      pub response : HttpResponse
      pub body : Str
      pub responds : execute client (identity_request base_url) world ≡ (done response, left)
      pub succeeds : is_success response.status ≡ true
      pub text : response.text ≡ done body
      pub parses : parse_identity body ≡ some (response_of credential)

    module _ (uuid : UuidLaws) (base64 : Base64Laws) (sha : Sha256Laws) (ed : Ed25519Laws) where
      -- The key is the credential's own.
      pub published_key-ok :
          (client : HttpClient) (base_url : Str) (k : SigningKey) (i kid s : Uuid)
          (world left : World)
          → Publishes client base_url (generate k i kid s) world left
          → published_key client base_url s world ≡ (ok (generate k i kid s).public_key, left)
      unfolding published_key restore generate
      published_key-ok client base_url k i kid s world left kernel =
          let credential = generate k i kid s in
          let (identity, _) =
            published-ok uuid base64 sha ed parse_identity kernel.body k i kid s [] kernel.parses in
          let answer = ap (λ x. x.0) kernel.responds in
          let sent = execute client (identity_request base_url) world in
          let fetched =
            (fetch_kernel_identity-FetchOutcome_iff http client base_url world left
                (ok (identity_of credential))).1
              (
                subst (FetchOutcome http sent.0) identity
                    (read kernel.response kernel.body answer kernel.succeeds kernel.text),
                ap (λ x. x.1) (sym kernel.responds),
              ) in
          rw (fetched, ed.from_bytes-verifying_key k) refl

      -- A service that fetches the identity a kernel publishes, restores a public key from it under
      -- the kernel's service id, and verifies with that key, accepts what the kernel's generated
      -- credential signs with valid metadata while it is fresh, and reports the kernel's ids, the
      -- request's id and the times; the one exchange that it makes is the request for the identity.
      pub evaluate-ok :
          (client : HttpClient) (base_url : Str) (parts : RequestParts) (signing_key : SigningKey)
          (instance_id key_id service_id : Uuid) (created expires : ℤ) (nonce : Str) (now : ℤ)
          (world left : World)
          → Publishes client base_url
              (generate signing_key instance_id key_id service_id)
              world
              left
          → IsI64 created
          → IsI64 expires
          → IsI64 now
          → pos 0 ≤ℤ created
          → IsWindow created expires
          → IsNonce nonce
          → (pos 0 ≤ℤ now) × (created ≤ℤ now +ℤ pos 5) × (now ≤ℤ expires +ℤ pos 5)
          → let credential = generate signing_key instance_id key_id service_id in
            (do
              signed ← lift (sign parts credential created expires nonce)
              incoming ← lift (incoming_from signed)
              evaluate client base_url service_id incoming now)
              world
            ≡ (ok (verified_as parts credential.public_key created expires), left)
      unfolding evaluate
      evaluate-ok client base_url parts k i kid s created expires nonce now world left kernel hc he
            hn h0 w n fresh =
          let accepted =
            sign_exchange-ok uuid base64 ed parts k i kid s created expires nonce now hc he hn h0 w
              n fresh in
          let (signed, e, rest) =
            >>=-eq-ok (sign parts (generate k i kid s) created expires nonce) _ accepted in
          let (incoming, e', h) = >>=-eq-ok (incoming_from signed) _ rest in
          rw (e, e', published_key-ok client base_url k i kid s world left kernel, h) refl
