-- ===== src/Tests/Refuse.antt =====
-- src/verify.rs, src/request.rs and src/error.rs at concrete inputs: requests that are refused, and
-- what a server finds of one.
use infernal_client_rs.Common.{◌≡◌, ◌↔◌, ◌≢◌, refl, some, List, [], ◌∷◌, map, list_eq, arith}
use infernal_client_rs.Common.Int.{pos, ◌+ℤ◌, ◌≤ℤ◌}
use infernal_client_rs.Common.Text.{Str, codes}
use infernal_client_rs.Error.{ok, err, ◌>>=◌, invalid_request_part, invalid_signature}
use infernal_client_rs.Request.{headers}
use infernal_client_rs.Request.Headers.{IsExtra, Relays, lower_name, Finds, headers-from_wire}
use mathlib.Core.List.{perm_append_comm}
use infernal_client_rs.Request.Signing.{sign_with-ok}
use infernal_client_rs.Verify.{parse_signature_input, from_wire, verify_incoming}
use infernal_client_rs.Verify.Received.{received_as, verified_as, received_as-ok}
use infernal_client_rs.Verify.Refuse.{Refuses}
use infernal_client_rs.Verify.Refuse.Order.{verify_incoming-err_iff}
use infernal_client_rs.Wire.Layout.{input_layout, parameters_layout}
use infernal_client_rs.Verify.Malformed.{Unreadable, parse_signature_input-err_iff}
use infernal_client_rs.Verify.Window.{replay-window}
use infernal_client_rs.Verify.Tampered.{tampered_from, tampered_from-refused}
use infernal_client_rs.Tests.Toy.{toy, toy_sum, toy_uuid, toy_base64, toy_sha256}
use infernal_client_rs.Tests.Request.{parts_01, parts_01-IsValid}
use infernal_client_rs.Tests.Verify.{key_01, signs_05, signed_01}
use infernal_client_rs.Tests.Wire.{nonce_01, metadata_01-ok}

-- The test of an expired signature
verify_incoming-err_iff_example :
    (verify_incoming (received_as signed_01) key_01 (pos 2000)
      ≡ err (invalid_request_part (codes "freshness")))
    ↔ Refuses (received_as signed_01) key_01 (pos 2000) (invalid_request_part (codes "freshness"))
verify_incoming-err_iff_example =
    verify_incoming-err_iff toy_uuid (received_as signed_01) key_01 (pos 2000)
      (invalid_request_part (codes "freshness")) (omega arith)

accepted_at_1005 :
    verify_incoming (received_as signed_01) key_01 (pos 1005)
    ≡ ok (verified_as parts_01 key_01 (pos 1000) (pos 1020))
unfolding ◌+ℤ◌
accepted_at_1005 =
    received_as-ok toy_uuid toy_base64 parts_01 key_01 (pos 1000) (pos 1020) nonce_01
      (toy.sign_bytes 5) (pos 1005) refl signs_05 (omega arith) (omega arith) (omega arith)
      (omega arith) (omega arith) (omega arith) (omega arith)

accepted_at_1025 :
    verify_incoming (received_as signed_01) key_01 (pos 1025)
    ≡ ok (verified_as parts_01 key_01 (pos 1000) (pos 1020))
unfolding ◌+ℤ◌
accepted_at_1025 =
    received_as-ok toy_uuid toy_base64 parts_01 key_01 (pos 1000) (pos 1020) nonce_01
      (toy.sign_bytes 5) (pos 1025) refl signs_05 (omega arith) (omega arith) (omega arith)
      (omega arith) (omega arith) (omega arith) (omega arith)

-- A replay after twenty seconds
replay-window_example : pos 1025 ≤ℤ pos 1005 +ℤ pos 40
replay-window_example =
    replay-window toy_uuid (received_as signed_01) (received_as signed_01) key_01 (pos 1005)
      (pos 1025) (verified_as parts_01 key_01 (pos 1000) (pos 1020))
      (verified_as parts_01 key_01 (pos 1000) (pos 1020)) (omega arith) (omega arith) refl
      accepted_at_1005 accepted_at_1025

other_digest : toy.sha256 (codes "tampered body") ≢ toy.sha256 parts_01.body
unfolding toy_sum
other_digest e = cc

-- The test of a body that was altered after signing
tampered_from-refused_example :
    (do
      incoming ← tampered_from signed_01 (codes "tampered body")
      verify_incoming incoming key_01 (pos 1005))
    ≡ err invalid_signature
unfolding ◌+ℤ◌
tampered_from-refused_example =
    tampered_from-refused toy_uuid parts_01 key_01 (pos 1000) (pos 1020) nonce_01 (toy.sign_bytes 5)
      (pos 1005) signed_01 (omega arith) (omega arith) (omega arith)
      (sign_with-ok parts_01 key_01 (pos 1000) (pos 1020) nonce_01 (toy.sign_bytes 5)
        metadata_01-ok)
      toy_base64 toy_sha256 (codes "tampered body") parts_01-IsValid (omega arith) other_digest

-- A proxy that spells the names in lower case and puts a header of its own first
abbrev via_01 : Str × Str
via_01 = (codes "Via", codes "1.1 proxy")

via_01-IsExtra : IsExtra via_01
unfolding list_eq
via_01-IsExtra = (refl, (refl, (refl, (refl, (refl, (refl, (refl, tt)))))))

abbrev received_01 : List (Str × Str)
received_01 = via_01 ∷ map lower_name (headers signed_01)

received_01-Relays : Relays (headers signed_01) received_01
unfolding headers
received_01-Relays = record {
  extra = via_01 ∷ [];
  others = (via_01-IsExtra, tt);
  order = perm_append_comm (lower_name via_01 ∷ []) (map lower_name (headers signed_01));
}

headers-from_wire_example :
    let found = Finds received_01 in
    (service : Str) × (instance_ : Str) × (id : Str) × (digest : Str) × (input : Str)
    × (signature : Str) × found (codes "content-type") parts_01.content_type
    × found (codes "infernal-service-id") service
    × found (codes "infernal-instance-id") instance_
    × found (codes "infernal-request-id") id
    × found (codes "content-digest") digest
    × found (codes "signature-input") input
    × found (codes "signature") signature
    × (from_wire parts_01 service instance_ digest input signature ≡ ok (received_as signed_01))
    × (toy.uuid_parse id ≡ some parts_01.request_id)
headers-from_wire_example = headers-from_wire toy_uuid signed_01 received_01 received_01-Relays

-- A window of 40 seconds
parse_signature_input-err_iff_example :
    (parse_signature_input
        (input_layout (parameters_layout (codes "1000") (codes "1040") nonce_01 (codes "id")))
      ≡ err (invalid_request_part (codes "expires")))
    ↔ Unreadable
        (input_layout (parameters_layout (codes "1000") (codes "1040") nonce_01 (codes "id")))
        (invalid_request_part (codes "expires"))
parse_signature_input-err_iff_example =
    parse_signature_input-err_iff
      (input_layout (parameters_layout (codes "1000") (codes "1040") nonce_01 (codes "id")))
      (invalid_request_part (codes "expires"))
