-- ===== src/Tests/PanicFree.antt =====
-- What may panic in src/request.rs, src/verify.rs and src/transport.rs, at concrete
-- inputs: times with a difference that no i64 holds, and a certificate behind characters of two and
-- three bytes.
use infernal_client_rs.Common.{◌≡◌, refl, ◌<◌, ◌^◌, ◌-◌, length, arith}
use infernal_client_rs.Common.Int.{pos, negsuc, ◌-ℤ◌}
use infernal_client_rs.Common.Text.{Bytes, codes, utf8, utf8_char}
use infernal_client_rs.Panic.{finished, panicked, sub_i64_checked}
use infernal_client_rs.Request.{sign_with}
use infernal_client_rs.Request.PanicFree.{sign_with_run, sign_with_run_lem}
use infernal_client_rs.Verify.{verify_incoming}
use infernal_client_rs.Verify.Received.{received_as}
use infernal_client_rs.Verify.PanicFree.{verify_incoming_run, verify_incoming_run_lem}
use infernal_client_rs.Transport.{validate_pem_certificate}
use infernal_client_rs.Transport.Pem.{pem_layout}
use infernal_client_rs.Transport.PanicFree.{
  validate_pem_certificate_run, validate_pem_certificate_run_lem,
}
use infernal_client_rs.Tests.Toy.{toy}
use infernal_client_rs.Tests.Request.{parts_01}
use infernal_client_rs.Tests.Verify.{key_01, signed_01}
use infernal_client_rs.Tests.Wire.{nonce_01}

-- The subtraction alone does panic on such times.
sub-panics : sub_i64_checked (pos (2 ^ 63 - 1)) (negsuc 0) ≡ panicked
unfolding sub_i64_checked ◌-ℤ◌
sub-panics = refl

sign_with_run_lem_example :
    sign_with_run parts_01 key_01 (negsuc 0) (pos (2 ^ 63 - 1)) nonce_01 (toy.sign_bytes 5)
    ≡ finished (sign_with parts_01 key_01 (negsuc 0) (pos (2 ^ 63 - 1)) nonce_01 (toy.sign_bytes 5))
sign_with_run_lem_example =
    sign_with_run_lem parts_01 key_01 (negsuc 0) (pos (2 ^ 63 - 1)) nonce_01 (toy.sign_bytes 5)
      (omega arith) (omega arith)

verify_incoming_run_lem_example :
    verify_incoming_run (received_as signed_01) key_01 (pos 1005)
    ≡ finished (verify_incoming (received_as signed_01) key_01 (pos 1005))
verify_incoming_run_lem_example = verify_incoming_run_lem (received_as signed_01) key_01 (pos 1005)

abbrev pem_02 : Bytes
pem_02 = utf8 (pem_layout (codes "é…") (codes "\nMAMC\n") (codes "\n"))

length-pem_02 : length pem_02 < 2 ^ 63
unfolding utf8 utf8_char
length-pem_02 = omega arith

validate_pem_certificate_run_lem_example :
    validate_pem_certificate_run pem_02 ≡ finished (validate_pem_certificate pem_02)
validate_pem_certificate_run_lem_example = validate_pem_certificate_run_lem pem_02 length-pem_02
