-- ===== src/Tests/Wire.antt =====
-- src/wire.rs at concrete inputs.
use infernal_client_rs.Common.{◌≡◌, arith}
use infernal_client_rs.Common.Int.{pos, ◌+ℤ◌}
use infernal_client_rs.Common.Text.{Str, codes}
use infernal_client_rs.Error.{ok}
use infernal_client_rs.Wire.{validate_signature_metadata}
use infernal_client_rs.Wire.Metadata.{validate_signature_metadata-ok_iff}

abbrev pub nonce_01 : Str
nonce_01 = codes "verify_test_nonce_01"

pub metadata_01-ok : validate_signature_metadata (pos 1000) (pos 1020) nonce_01 ≡ ok tt
unfolding ◌+ℤ◌
metadata_01-ok =
    (validate_signature_metadata-ok_iff (pos 1000) (pos 1020) nonce_01 (omega arith)
        (omega arith)).1
      (omega arith, omega arith, omega arith)
