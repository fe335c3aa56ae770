-- ===== src/Tests/Verify.antt =====
-- src/verify.rs at concrete inputs.
use infernal_client_rs.Common.{◌≡◌, ◌↔◌, refl, true, length, arith}
use infernal_client_rs.Common.Int.{pos, ◌+ℤ◌}
use infernal_client_rs.Common.Text.{Bytes}
use infernal_client_rs.Error.{ok, ◌>>=◌}
use infernal_client_rs.Credential.{ClientPublicKey, generate}
use infernal_client_rs.Deps.{IsBytes}
use infernal_client_rs.Wire.{signature_parameters}
use infernal_client_rs.Request.{SignedRequest, sign}
use infernal_client_rs.Request.Signing.{signed_as}
use infernal_client_rs.Verify.{SignatureMetadata, parse_signature_input, verify_incoming}
use infernal_client_rs.Verify.Input.{IsSignatureInput, parse_signature_input-ok_iff}
use infernal_client_rs.Verify.Accept.{Attests, verify_incoming-ok_iff}
use infernal_client_rs.Verify.RoundTrip.{exchange, sign_exchange-ok}
use infernal_client_rs.Verify.Exchange.{ExchangeOutcome, exchange-ExchangeOutcome_iff}
use infernal_client_rs.Verify.Received.{verified_as, received_as, incoming_from}
use infernal_client_rs.Tests.Toy.{toy, toy_uuid, toy_base64, toy_ed25519, one, two, three}
use infernal_client_rs.Tests.Request.{parts_01}
use infernal_client_rs.Tests.Wire.{nonce_01}

abbrev pub key_01 : ClientPublicKey
key_01 = record {
  service_id = one;
  instance_id = two;
  key_id = three;
  public_key = toy.verifying_key 5;
}

pub signs_05 :
    (m : Bytes)
    → IsBytes (toy.sign_bytes 5 m)
      × (length (toy.sign_bytes 5 m) ≡ 64)
      × (toy.verify_strict key_01.public_key m (toy.sign_bytes 5 m) ≡ true)
signs_05 m =
    (toy_ed25519.sign-IsBytes 5 m, toy_ed25519.length-sign 5 m, toy_ed25519.verify-sign 5 m)

exchange-ExchangeOutcome_iff_example :
    (exchange parts_01 key_01 (pos 1000) (pos 1020) nonce_01 (toy.sign_bytes 5) (pos 1005)
      ≡ ok (verified_as parts_01 key_01 (pos 1000) (pos 1020)))
    ↔ ExchangeOutcome parts_01 key_01
        (pos 1000)
        (pos 1020)
        nonce_01
        (pos 1005)
        (ok (verified_as parts_01 key_01 (pos 1000) (pos 1020)))
exchange-ExchangeOutcome_iff_example =
    exchange-ExchangeOutcome_iff toy_uuid toy_base64 parts_01 key_01 (pos 1000) (pos 1020) nonce_01
      (toy.sign_bytes 5) (pos 1005) (ok (verified_as parts_01 key_01 (pos 1000) (pos 1020))) refl
      signs_05 (omega arith) (omega arith) (omega arith)

sign_exchange-ok_example :
    (let credential = generate 5 two three one in
      do
        signed ← sign parts_01 credential (pos 1000) (pos 1020) nonce_01
        incoming ← incoming_from signed
        verify_incoming incoming credential.public_key (pos 1005))
    ≡ ok (verified_as parts_01 (generate 5 two three one).public_key (pos 1000) (pos 1020))
unfolding ◌+ℤ◌
sign_exchange-ok_example =
    sign_exchange-ok toy_uuid toy_base64 toy_ed25519 parts_01 5 two three one (pos 1000) (pos 1020)
      nonce_01 (pos 1005) (omega arith) (omega arith) (omega arith) (omega arith) (omega arith)
      (omega arith) (omega arith)

-- The headers that the tests' request arrives with
abbrev pub signed_01 : SignedRequest
signed_01 = signed_as parts_01 key_01 (pos 1000) (pos 1020) nonce_01 (toy.sign_bytes 5)

verify_incoming-ok_iff_example :
    (verify_incoming (received_as signed_01) key_01 (pos 1005)
      ≡ ok (verified_as parts_01 key_01 (pos 1000) (pos 1020)))
    ↔ Attests
        (received_as signed_01)
        key_01
        (pos 1005)
        (verified_as parts_01 key_01 (pos 1000) (pos 1020))
verify_incoming-ok_iff_example =
    verify_incoming-ok_iff toy_uuid (received_as signed_01) key_01 (pos 1005)
      (verified_as parts_01 key_01 (pos 1000) (pos 1020)) (omega arith)

metadata_01 : SignatureMetadata
metadata_01 = record {
  parameters = signature_parameters (pos 1000) (pos 1020) nonce_01 three;
  created = pos 1000;
  expires = pos 1020;
  key_id = three;
}

parse_signature_input-ok_iff_example :
    (parse_signature_input signed_01.signature_input ≡ ok metadata_01)
    ↔ IsSignatureInput signed_01.signature_input metadata_01
parse_signature_input-ok_iff_example =
    parse_signature_input-ok_iff toy_uuid signed_01.signature_input metadata_01
