-- ===== src/KernelIdentity/Published.antt =====
-- src/kernel_identity.rs: which responses `from_json` accepts, how it fails, and what an identity
-- that a key's owner published verifies.
use infernal_client_rs.Common.{
  ℕ, ◌≡◌, ◌↔◌, refl, sym, not, Option, some, list_eq, list_eq_iff, length, arith,
}
use infernal_client_rs.Common.Text.{Bytes, Str, codes}
use infernal_client_rs.Error.{
  fails_rules, ok, err, FailsWith-err_iff, FailsWith, >>=-eq-ok, ok_or->>=-eq-ok,
  refuse_if->>-eq-ok, ok-injective, malformed_kernel_identity,
}
use infernal_client_rs.Deps.{Deps, UuidLaws, Base64Laws, Sha256Laws, Ed25519Laws}
use infernal_client_rs.Credential
use infernal_client_rs.Credential.{
  to_array, public_key_length, fingerprint, ClientCredential, generate,
}
use infernal_client_rs.KernelIdentity.{
  KernelIdentityResponse, KernelIdentity, decode_fixed, decode_fixed-ok_iff, from_json, verify,
}

module _ ⦃d : Deps⦄ where
  open d use {Uuid, uuid_to_string, uuid_parse, url_safe_encode, url_safe_decode, SigningKey}

  -- A response that states the identity, in every field
  pub record States (response : KernelIdentityResponse) (identity : KernelIdentity) : Type 0 where
    pub algorithm : response.algorithm ≡ codes "ed25519"
    pub instance_id : uuid_parse response.instance_id ≡ some identity.instance_id
    pub key_id : uuid_parse response.key_id ≡ some identity.key_id
    pub public_key : url_safe_decode response.public_key ≡ some identity.public_key
    pub length-public_key : length identity.public_key ≡ 32
    pub fingerprint : url_safe_decode response.fingerprint ≡ some identity.fingerprint
    pub length-fingerprint : length identity.fingerprint ≡ 32

  -- `from_json` gives an identity exactly when the body parses to a response that states it: the
  -- algorithm ed25519, two UUIDs, and a key and a fingerprint of 32 bytes each.
  pub from_json-ok_iff :
      (parse_json : Str → Option KernelIdentityResponse) (body : Str) (identity : KernelIdentity)
      → (from_json parse_json body ≡ ok identity) ↔ (
          (response : KernelIdentityResponse) × (parse_json body ≡ some response)
          × States response identity)
  unfolding from_json
  from_json-ok_iff parse_json body identity = (
    λ h.
        let (response, hr, h1) = ok_or->>=-eq-ok (parse_json body) _ _ h in
        let (ha, h2) =
          refuse_if->>-eq-ok (not (list_eq response.algorithm (codes "ed25519"))) _ _ h1 in
        let (i, hi, h3) = ok_or->>=-eq-ok (uuid_parse response.instance_id) _ _ h2 in
        let (k, hk, h4) = ok_or->>=-eq-ok (uuid_parse response.key_id) _ _ h3 in
        let (p, hp, h5) = >>=-eq-ok (decode_fixed public_key_length response.public_key) _ h4 in
        let (f, hf, h6) = >>=-eq-ok (decode_fixed 32 response.fingerprint) _ h5 in
        let same : ◌≡◌ {A = KernelIdentity}
            (record { instance_id = i; key_id = k; public_key = p; fingerprint = f }) identity =
          ok-injective h6 in
        let (dp, lp) = (decode_fixed-ok_iff public_key_length response.public_key p).0 hp in
        let (df, lf) = (decode_fixed-ok_iff 32 response.fingerprint f).0 hf in
        (
          response,
          hr,
          rw (sym same) (record {
            algorithm = (list_eq_iff _ _).0 (ground arith);
            instance_id = hi;
            key_id = hk;
            public_key = dp;
            length-public_key = lp;
            fingerprint = df;
            length-fingerprint = lf;
          }),
        ),
    λ (response, hr, s). rw (
      hr,
      (list_eq_iff _ _).1 s.algorithm,
      s.instance_id,
      s.key_id,
      (decode_fixed-ok_iff public_key_length response.public_key identity.public_key).1
          (s.public_key, s.length-public_key),
      (decode_fixed-ok_iff 32 response.fingerprint identity.fingerprint).1
          (s.fingerprint, s.length-fingerprint),
    ),
  )

  decode_fixed-FailsWith :
      (n : ℕ) (value : Str) → FailsWith malformed_kernel_identity (decode_fixed n value)
  unfolding decode_fixed
  decode_fixed-FailsWith n value = search fails_rules

  from_json-FailsWith :
      (parse_json : Str → Option KernelIdentityResponse) (body : Str)
      → FailsWith malformed_kernel_identity (from_json parse_json body)
  unfolding from_json
  from_json-FailsWith parse_json body = search (fails_rules, decode_fixed-FailsWith) depth 12

  -- `from_json` fails with `malformed_kernel_identity` exactly on a body that parses to no response that
  -- states an identity: no failure is of another kind.
  from_json-err_iff :
      (parse_json : Str → Option KernelIdentityResponse) (body : Str)
      → (from_json parse_json body ≡ err malformed_kernel_identity) ↔ (
          ¬ (
            (identity : KernelIdentity) × ((response : KernelIdentityResponse) × (parse_json body
                ≡ some response)
              × States response identity)))
  from_json-err_iff parse_json body =
      FailsWith-err_iff malformed_kernel_identity (from_json parse_json body)
        (from_json-FailsWith parse_json body) (from_json-ok_iff parse_json body)

  -- The response that a process publishes of its own credential
  unfoldable pub response_of : ClientCredential → KernelIdentityResponse
  response_of credential = record {
    algorithm = codes "ed25519";
    instance_id = uuid_to_string credential.public_key.instance_id;
    key_id = uuid_to_string credential.public_key.key_id;
    public_key = url_safe_encode credential.public_key.public_key;
    fingerprint = url_safe_encode (fingerprint credential.public_key);
  }

  abbrev pub identity_of : ClientCredential → KernelIdentity
  identity_of credential = record {
    instance_id = credential.public_key.instance_id;
    key_id = credential.public_key.key_id;
    public_key = credential.public_key.public_key;
    fingerprint = fingerprint credential.public_key;
  }

  -- A body that parses to what a generated credential publishes gives the identity of that
  -- credential, and the identity verifies every message that the credential signs.
  pub published-ok :
      UuidLaws
      → Base64Laws
      → Sha256Laws
      → Ed25519Laws
      → (parse_json : Str → Option KernelIdentityResponse) (body : Str) (signing_key : SigningKey)
        (instance_id key_id service_id : Uuid) (message : Bytes)
      → let credential = generate signing_key instance_id key_id service_id in
        parse_json body ≡ some (response_of credential)
        → (from_json parse_json body ≡ ok (identity_of credential))
          × (verify (identity_of credential) message (Credential.sign credential message) ≡ ok tt)
  unfolding generate response_of fingerprint verify Credential.verify Credential.sign
  published-ok uuid base64 sha ed parse_json body k i kid s message h = (
    (from_json-ok_iff parse_json body (identity_of (generate k i kid s))).1 (
      response_of (generate k i kid s),
      h,
      record {
        algorithm = refl;
        instance_id = uuid.parse-to_string i;
        key_id = uuid.parse-to_string kid;
        public_key = base64.url_safe_round_trip _ (ed.verifying_key-IsBytes k);
        length-public_key = ed.length-verifying_key k;
        fingerprint = base64.url_safe_round_trip _ (sha.sha256-IsBytes _);
        length-fingerprint = sha.length-sha256 _;
      },
    ),
    rw (ed.from_bytes-verifying_key k, ed.verify-sign k message),
  )
