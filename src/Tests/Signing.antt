-- ===== src/Tests/Signing.antt =====
-- src/request.rs at concrete inputs: a signed request, its headers, and a nonce.
use infernal_client_rs.Common.{
  ℕ, ◌≡◌, ◌↔◌, ◌⊎◌, refl, Option, none, some, length, replicate, All, ◌==◌, if◌then◌else◌, arith,
}
use infernal_client_rs.Common.Int.{pos, ◌+ℤ◌, ◌≤ℤ◌}
use infernal_client_rs.Common.Text.{Bytes, Str}
use infernal_client_rs.Error.{ok, err, random_source}
use infernal_client_rs.Deps.{IsBytes}
use infernal_client_rs.Wire.Metadata.{IsWindow, IsNonce}
use infernal_client_rs.Request.{sign_with, headers, generate_nonce}
use infernal_client_rs.Request.Signing.{
  signed_as, IsPrintableHeader, sign_with-ok_iff, headers-IsPrintable,
}
use infernal_client_rs.Request.Nonce.{generate_nonce_cases}
use infernal_client_rs.Tests.Toy.{toy, toy_uuid, toy_base64, toy_sha256}
use infernal_client_rs.Tests.Request.{parts_01, parts_01-IsValid}
use infernal_client_rs.Tests.Verify.{key_01}
use infernal_client_rs.Tests.Wire.{nonce_01}

abbrev pub signer_01 : Bytes → Bytes
signer_01 message = replicate 64 1

sign_with-ok_iff_example :
    let signed = signed_as parts_01 key_01 (pos 1000) (pos 1020) nonce_01 signer_01 in
    (sign_with parts_01 key_01 (pos 1000) (pos 1020) nonce_01 signer_01 ≡ ok signed)
    ↔ ((pos 0 ≤ℤ pos 1000) × IsWindow (pos 1000) (pos 1020) × IsNonce nonce_01 × (signed ≡ signed))
sign_with-ok_iff_example =
    sign_with-ok_iff parts_01 key_01 (pos 1000) (pos 1020) nonce_01 signer_01
      (signed_as parts_01 key_01 (pos 1000) (pos 1020) nonce_01 signer_01) (omega arith)
      (omega arith)

signs :
    sign_with parts_01 key_01 (pos 1000) (pos 1020) nonce_01 signer_01
    ≡ ok (signed_as parts_01 key_01 (pos 1000) (pos 1020) nonce_01 signer_01)
unfolding ◌+ℤ◌
signs = sign_with-ok_iff_example.1 (omega arith, omega arith, omega arith, refl)

headers-IsPrintable_example :
    All IsPrintableHeader
      (headers (signed_as parts_01 key_01 (pos 1000) (pos 1020) nonce_01 signer_01))
headers-IsPrintable_example =
    headers-IsPrintable toy_uuid toy_base64 toy_sha256 parts_01 key_01 (pos 1000) (pos 1020)
      nonce_01 signer_01 (signed_as parts_01 key_01 (pos 1000) (pos 1020) nonce_01 signer_01)
      parts_01-IsValid (λ message. omega arith) (omega arith) (omega arith) signs

-- A source that has the 24 bytes and nothing else
abbrev fill_01 : ℕ → Option Bytes
fill_01 n = if n == 24 then some (replicate 24 7) else none

fill_01-exact : (n : ℕ) (b : Bytes) → fill_01 n ≡ some b → (length b ≡ n) × IsBytes b
fill_01-exact n b h = ground arith

generate_nonce_cases_example :
    ((fill_01 24 ≡ none) × (generate_nonce fill_01 ≡ err random_source))
    ⊎ ((b : Bytes) × (nonce : Str) × (fill_01 24 ≡ some b)
        × (generate_nonce fill_01 ≡ ok nonce)
        × (length nonce ≡ 32)
        × IsNonce nonce
        × (toy.url_safe_decode nonce ≡ some b))
generate_nonce_cases_example = generate_nonce_cases toy_base64 fill_01 fill_01-exact
