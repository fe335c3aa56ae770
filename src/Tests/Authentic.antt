-- ===== src/Tests/Authentic.antt =====
-- What a signature commits to, at a concrete request and under a key with which anything can be
-- signed.
use infernal_client_rs.Common.{◌≡◌, refl, sym, ap, arith}
use infernal_client_rs.Common.Int.{ℤ, pos, ◌+ℤ◌}
use infernal_client_rs.Common.Text.{Str, codes}
use infernal_client_rs.Error.{ok}
use infernal_client_rs.Credential.{ClientPublicKey}
use infernal_client_rs.Request.{RequestParts}
use infernal_client_rs.Verify.{verify_incoming}
use infernal_client_rs.Wire.Layout.{input_layout_injective}
use infernal_client_rs.Verify.Accept.{incoming_base}
use infernal_client_rs.Verify.Received.{received_as, verified_as, received_as-ok}
use infernal_client_rs.Verify.Binding.{base_bytes_injective}
use infernal_client_rs.Verify.Authentic.{IsSigned, IsUnforged, Agrees, authentic}
use infernal_client_rs.Tests.Toy.{toy, toy_uuid, toy_base64, toy_sha256}
use infernal_client_rs.Tests.Request.{parts_01, parts_01-IsValid}
use infernal_client_rs.Tests.Verify.{key_01, signs_05, signed_01}
use infernal_client_rs.Tests.Wire.{nonce_01}

-- The one request that was issued
abbrev Issued : RequestParts → ClientPublicKey → ℤ → ℤ → Str → Type 0
Issued p k c e n = (p ≡ parts_01) × (k ≡ key_01) × (c ≡ pos 1000) × (e ≡ pos 1020) × (n ≡ nonce_01)

issued :
    (p : RequestParts) (k : ClientPublicKey) (c e : ℤ) (n : Str)
    → Issued p k c e n
    → IsSigned p c e n
unfolding ◌+ℤ◌
issued p k c e n (hp, _, hc, he, hn) =
    rw (hp, hc, he, hn)
      (parts_01-IsValid, omega arith, omega arith, omega arith, omega arith, omega arith)

-- The request on the wire carries the signature that was issued.
unforged : IsUnforged Issued (received_as signed_01) key_01
unforged parameters signature layout _ _ = (
  parts_01,
  key_01,
  pos 1000,
  pos 1020,
  nonce_01,
  (refl, refl, refl, refl, refl),
  ap (incoming_base (received_as signed_01)) (sym (input_layout_injective _ parameters layout)),
)

accepted :
    verify_incoming (received_as signed_01) key_01 (pos 1005)
    ≡ ok (verified_as parts_01 key_01 (pos 1000) (pos 1020))
unfolding ◌+ℤ◌
accepted =
    received_as-ok toy_uuid toy_base64 parts_01 key_01 (pos 1000) (pos 1020) nonce_01
      (toy.sign_bytes 5) (pos 1005) refl signs_05 (omega arith) (omega arith) (omega arith)
      (omega arith) (omega arith) (omega arith) (omega arith)

authentic_example :
    (p : RequestParts) × (k : ClientPublicKey) × (c : ℤ) × (e : ℤ) × (n : Str) × Issued p k c e n
    × Agrees (received_as signed_01) (verified_as parts_01 key_01 (pos 1000) (pos 1020)) p k c e
authentic_example =
    authentic toy_uuid toy_base64 toy_sha256 Issued (received_as signed_01) key_01 (pos 1005)
      (verified_as parts_01 key_01 (pos 1000) (pos 1020)) issued unforged parts_01-IsValid
      (omega arith) accepted

base_bytes_injective_example :
    (parts_01.method ≡ parts_01.method)
    × (parts_01.authority ≡ parts_01.authority)
    × (parts_01.path_and_query ≡ parts_01.path_and_query)
    × (parts_01.content_type ≡ parts_01.content_type)
    × (parts_01.request_id ≡ parts_01.request_id)
    × (key_01.service_id ≡ key_01.service_id)
    × (key_01.instance_id ≡ key_01.instance_id)
    × (codes "sha-256=:AA==:" ≡ codes "sha-256=:AA==:")
    × (codes "p" ≡ codes "p")
base_bytes_injective_example =
    base_bytes_injective toy_uuid parts_01 parts_01 key_01 key_01 (codes "sha-256=:AA==:")
      (codes "sha-256=:AA==:") (codes "p") (codes "p") parts_01-IsValid parts_01-IsValid
      (omega arith, omega arith) (omega arith, omega arith) refl
