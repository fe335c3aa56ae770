-- ===== src/Suite/KernelIdentity.antt =====
-- src/kernel_identity.rs: its tests. `parse_json` is `serde_json::from_str`, and a test that parses
-- a body passes if that body parses to the record it is printed from.
use infernal_client_rs.Common.{
  ◌≡◌, refl, Bool, true, false, ◌&&◌, Option, none, some, list_eq, replicate, [], ◌∷◌, arith,
}
use infernal_client_rs.Common.Text.{Bytes, Str, codes, format}
use infernal_client_rs.Error.{Result, ok, ◌>>=◌, malformed_kernel_identity, invalid_signature}
use infernal_client_rs.Deps.{Deps, UuidLaws, Base64Laws, Sha256Laws, Ed25519Laws}
use infernal_client_rs.Credential
use infernal_client_rs.Credential.{ClientCredential, generate, fingerprint}
use infernal_client_rs.KernelIdentity.{KernelIdentityResponse, from_json, verify}
use infernal_client_rs.KernelIdentity.Published.{from_json-ok_iff, response_of, published-ok}
use infernal_client_rs.Suite.{fails_with, error_eq, is_ok}

module _ ⦃d : Deps⦄ where
  open d use {
    Uuid, uuid_to_string, url_safe_encode, SigningKey, verifying_key, sign_bytes, verify_strict,
  }

  unfoldable pub response_body : Str → Uuid → Uuid → Bytes → Bytes → Str
  response_body algorithm instance_id key_id key fp = format (
      codes "{\"algorithm\":\""
      ∷ algorithm
      ∷ codes "\",\"instance_id\":\""
      ∷ uuid_to_string instance_id
      ∷ codes "\",\"key_id\":\""
      ∷ uuid_to_string key_id
      ∷ codes "\",\"public_key\":\""
      ∷ url_safe_encode key
      ∷ codes "\",\"fingerprint\":\""
      ∷ url_safe_encode fp
      ∷ codes "\"}"
      ∷ [])

  -- The record that such a body is printed from
  abbrev pub response : Str → Uuid → Uuid → Bytes → Bytes → KernelIdentityResponse
  response algorithm instance_id key_id key fp = record {
    algorithm = algorithm;
    instance_id = uuid_to_string instance_id;
    key_id = uuid_to_string key_id;
    public_key = url_safe_encode key;
    fingerprint = url_safe_encode fp;
  }

  module _ (parse_json : Str → Option KernelIdentityResponse) where
    parses_a_well_formed_kernel_identity_response : Uuid → Uuid → Result Bool
    parses_a_well_formed_kernel_identity_response instance_id key_id = do
      let body =
          response_body (codes "ed25519") instance_id key_id (replicate 32 1) (replicate 32 2)
      identity ← from_json parse_json body
      ok (
          list_eq identity.public_key (replicate 32 1)
          && list_eq identity.fingerprint (replicate 32 2))

    rejects_an_unknown_algorithm : Uuid → Uuid → Bool
    rejects_an_unknown_algorithm instance_id key_id =
        let body =
          response_body (codes "rsa") instance_id key_id (replicate 32 1) (replicate 32 2) in
        fails_with (from_json parse_json body) malformed_kernel_identity

    rejects_malformed_json : Bool
    rejects_malformed_json =
        fails_with (from_json parse_json (codes "not json")) malformed_kernel_identity

    a_fetched_identity_verifies_a_message_the_matching_key_signed : ClientCredential → Result Bool
    a_fetched_identity_verifies_a_message_the_matching_key_signed credential = do
      let signature = Credential.sign credential (codes "kernel says hello")
      let body =
          response_body (codes "ed25519") credential.public_key.instance_id
            credential.public_key.key_id credential.public_key.public_key
            (fingerprint credential.public_key)
      identity ← from_json parse_json body
      ok (
          is_ok (verify identity (codes "kernel says hello") signature)
          && fails_with (verify identity (codes "forged") signature) invalid_signature)

    -- The identity that the tests' server publishes is read.
    pub response_body-ok :
        UuidLaws
        → Base64Laws
        → (instance_id key_id : Uuid)
        → parse_json
            (response_body (codes "ed25519") instance_id key_id (replicate 32 1) (replicate 32 2))
          ≡ some (response (codes "ed25519") instance_id key_id (replicate 32 1) (replicate 32 2))
        → from_json parse_json
            (response_body (codes "ed25519") instance_id key_id (replicate 32 1) (replicate 32 2))
          ≡ ok (record {
            instance_id = instance_id;
            key_id = key_id;
            public_key = replicate 32 1;
            fingerprint = replicate 32 2;
          })
    response_body-ok uuid base64 i kid h = (from_json-ok_iff parse_json _ _).1 (
      response (codes "ed25519") i kid (replicate 32 1) (replicate 32 2),
      h,
      record {
        algorithm = refl;
        instance_id = uuid.parse-to_string i;
        key_id = uuid.parse-to_string kid;
        public_key = base64.url_safe_round_trip _ (omega arith);
        length-public_key = refl;
        fingerprint = base64.url_safe_round_trip _ (omega arith);
        length-fingerprint = refl;
      },
    )

    -- Each test passes.
    parses_a_well_formed_kernel_identity_response_lem :
        UuidLaws
        → Base64Laws
        → (instance_id key_id : Uuid)
        → parse_json
            (response_body (codes "ed25519") instance_id key_id (replicate 32 1) (replicate 32 2))
          ≡ some (response (codes "ed25519") instance_id key_id (replicate 32 1) (replicate 32 2))
        → parses_a_well_formed_kernel_identity_response instance_id key_id ≡ ok true
    unfolding parses_a_well_formed_kernel_identity_response list_eq
    parses_a_well_formed_kernel_identity_response_lem uuid base64 i kid h =
        rw (response_body-ok uuid base64 i kid h) refl

    rejects_an_unknown_algorithm_lem :
        (instance_id key_id : Uuid)
        → parse_json
            (response_body (codes "rsa") instance_id key_id (replicate 32 1) (replicate 32 2))
          ≡ some (response (codes "rsa") instance_id key_id (replicate 32 1) (replicate 32 2))
        → rejects_an_unknown_algorithm instance_id key_id ≡ true
    unfolding rejects_an_unknown_algorithm from_json list_eq fails_with error_eq
    rejects_an_unknown_algorithm_lem i kid h = rw h refl

    rejects_malformed_json_lem :
        parse_json (codes "not json") ≡ none → rejects_malformed_json ≡ true
    unfolding rejects_malformed_json from_json fails_with error_eq
    rejects_malformed_json_lem h = rw h refl

    -- It passes if the signature passes for no other message of the test.
    a_fetched_identity_verifies_a_message_the_matching_key_signed_lem :
        UuidLaws
        → Base64Laws
        → Sha256Laws
        → Ed25519Laws
        → (k : SigningKey) (i kid s : Uuid)
        → let credential = generate k i kid s in
          parse_json (
              response_body
                (codes "ed25519")
                i
                kid
                credential.public_key.public_key
                (fingerprint credential.public_key))
            ≡ some (response_of credential)
          → verify_strict
              (verifying_key k)
              (codes "forged")
              (sign_bytes k (codes "kernel says hello"))
            ≡ false
          → a_fetched_identity_verifies_a_message_the_matching_key_signed credential ≡ ok true
    unfolding a_fetched_identity_verifies_a_message_the_matching_key_signed generate verify is_ok
        fails_with error_eq Credential.verify Credential.sign
    a_fetched_identity_verifies_a_message_the_matching_key_signed_lem uuid base64 sha ed k i kid s h
          forged =
        let (read, passes) =
          published-ok uuid base64 sha ed parse_json _ k i kid s (codes "kernel says hello") h in
        rw
          (
            read,
            ed.from_bytes-verifying_key k,
            ed.verify-sign k (codes "kernel says hello"),
            forged,
          )
          refl
