-- ===== src/Suite/Credential.antt =====
-- src/credential.rs: its tests.
use infernal_client_rs.Common.{
  ◌≡◌, ◌≢◌, refl, true, false, Bool, not, ◌&&◌, list_eq, list_eq_iff, false_of_not,
}
use infernal_client_rs.Common.Text.{codes}
use infernal_client_rs.Error.{invalid_signature}
use infernal_client_rs.Deps.{Deps, UuidLaws, Ed25519Laws}
use infernal_client_rs.Credential.{generate, sign, verify}
use infernal_client_rs.Suite.{fails_with, error_eq, is_ok}

module _ ⦃d : Deps⦄ where
  open d use {Uuid, uuid_eq, SigningKey, verifying_key, verify_strict, sign_bytes}

  pub uuid_eq_refl : UuidLaws → (u : Uuid) → uuid_eq u u ≡ true
  uuid_eq_refl laws u = (laws.uuid_eq_iff u u).1 refl

  pub uuid_ne : UuidLaws → (u v : Uuid) → u ≢ v → uuid_eq u v ≡ false
  uuid_ne laws u v n = false_of_not _ (laws.uuid_eq_iff u v).0 n

  generates_a_distinct_instance_and_key_per_credential :
      Uuid → SigningKey → Uuid → Uuid → SigningKey → Uuid → Uuid → Bool
  generates_a_distinct_instance_and_key_per_credential service_id k i kid k' i' kid' =
      let first = generate k i kid service_id in
      let second = generate k' i' kid' service_id in
      uuid_eq first.public_key.service_id service_id
      && not (uuid_eq first.public_key.instance_id second.public_key.instance_id)
      && not (uuid_eq first.public_key.key_id second.public_key.key_id)
      && not (list_eq first.public_key.public_key second.public_key.public_key)

  -- It passes if two draws differ.
  generates_a_distinct_instance_and_key_per_credential_lem :
      UuidLaws
      → (service_id : Uuid) (k : SigningKey) (i kid : Uuid) (k' : SigningKey) (i' kid' : Uuid)
      → i ≢ i'
      → kid ≢ kid'
      → verifying_key k ≢ verifying_key k'
      → generates_a_distinct_instance_and_key_per_credential service_id k i kid k' i' kid' ≡ true
  unfolding generates_a_distinct_instance_and_key_per_credential generate
  generates_a_distinct_instance_and_key_per_credential_lem laws s k i kid k' i' kid' ni nk nv =
      rw
        (
          uuid_eq_refl laws s,
          uuid_ne laws i i' ni,
          uuid_ne laws kid kid' nk,
          false_of_not _ (list_eq_iff (verifying_key k) (verifying_key k')).0 nv,
        )
        refl

  a_signature_verifies_only_the_original_message_under_the_signing_keys_own_public_key :
      SigningKey → Uuid → Uuid → Uuid → SigningKey → Uuid → Uuid → Uuid → Bool
  a_signature_verifies_only_the_original_message_under_the_signing_keys_own_public_key k i kid s k'
        i' kid' s' =
      let credential = generate k i kid s in
      let signature = sign credential (codes "message") in
      let other = generate k' i' kid' s' in
      is_ok (verify credential.public_key.public_key (codes "message") signature)
      && fails_with (verify credential.public_key.public_key (codes "altered") signature)
          invalid_signature
      && fails_with (verify other.public_key.public_key (codes "message") signature)
          invalid_signature

  -- It passes if the signature passes for no other message, and under no other key, of the test.
  a_signature_verifies_only_the_original_message_under_the_signing_keys_own_public_key_lem :
      Ed25519Laws
      → (k : SigningKey) (i kid s : Uuid) (k' : SigningKey) (i' kid' s' : Uuid)
      → verify_strict (verifying_key k) (codes "altered") (sign_bytes k (codes "message")) ≡ false
      → verify_strict (verifying_key k') (codes "message") (sign_bytes k (codes "message")) ≡ false
      → a_signature_verifies_only_the_original_message_under_the_signing_keys_own_public_key k i kid
          s k' i' kid' s'
        ≡ true
  unfolding a_signature_verifies_only_the_original_message_under_the_signing_keys_own_public_key
      generate sign verify is_ok fails_with error_eq
  a_signature_verifies_only_the_original_message_under_the_signing_keys_own_public_key_lem ed k i
        kid s k' i' kid' s' altered other =
      rw
        (
          ed.from_bytes-verifying_key k,
          ed.from_bytes-verifying_key k',
          ed.verify-sign k (codes "message"),
          altered,
          other,
        )
        refl
