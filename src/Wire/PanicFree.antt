-- ===== src/Wire/PanicFree.antt =====
-- src/wire.rs: the check of signature metadata in a build where overflow panics.
use infernal_client_rs.Common.{
  ◌≡◌, ℕ, ◌||◌, ◌&&◌, false, not, leb, length, all, Bool-cases, inl, inr, arith,
}
use infernal_client_rs.Common.Int.{ℤ, pos, negsuc, ◌-ℤ◌, IsI64, sub_i64_exact, ltb_ℤ, leb_ℤ}
use infernal_client_rs.Common.Text.{Str, codes, utf8}
use infernal_client_rs.Error.{ok, refuse_if, invalid_request_part}
use infernal_client_rs.Panic.{
  Run, Gives, finished, ◌>>=◌, ◌>>◌, or_else, sub_i64_checked, sub_i64_checked_lem,
}
use infernal_client_rs.Wire.{
  validate_signature_metadata, is_nonce_byte, signature_validity_seconds, min_nonce_length,
  max_nonce_length,
}

unfoldable pub validate_signature_metadata_run : ℤ → ℤ → Str → Run (Unit {0})
validate_signature_metadata_run created expires nonce = do
  finished (refuse_if (ltb_ℤ created (pos 0)) (invalid_request_part (codes "created")))
  refused ← or_else (leb_ℤ expires created) (do
    window ← sub_i64_checked expires created
    finished (ok (ltb_ℤ (pos signature_validity_seconds) window)))
  finished (refuse_if refused (invalid_request_part (codes "expires")))
  finished (
      refuse_if
        (not (
            leb min_nonce_length (length (utf8 nonce))
            && leb (length (utf8 nonce)) max_nonce_length)
          || not (all is_nonce_byte (utf8 nonce)))
        (invalid_request_part (codes "nonce")))
  finished (ok tt)

-- Behind the test of the time of creation the difference is an i64.
difference-IsI64 :
    (c : ℕ) (expires : ℤ)
    → IsI64 expires
    → IsI64 (pos c)
    → leb_ℤ expires (pos c) ≡ false
    → IsI64 (expires -ℤ pos c)
unfolding ◌-ℤ◌
difference-IsI64 c (pos e) he hc h = ground arith
difference-IsI64 c (negsuc e) he hc h = ground arith

validate_signature_metadata_run_lem :
    (created expires : ℤ) (nonce : Str)
    → IsI64 created
    → IsI64 expires
    → validate_signature_metadata_run created expires nonce
      ≡ finished (validate_signature_metadata created expires nonce)
unfolding validate_signature_metadata_run validate_signature_metadata
validate_signature_metadata_run_lem (negsuc c) expires nonce hc he = ground arith
validate_signature_metadata_run_lem (pos c) expires nonce hc he =
    elim (Bool-cases (leb_ℤ expires (pos c))) [
      | inl e ↦ ground arith
      | inr e ↦
          let fits = difference-IsI64 c expires he hc e in
          ground
            (arith, sub_i64_checked_lem expires (pos c) fits, sub_i64_exact expires (pos c) fits)
    ]

-- On i64 times the check does not panic.
pub validate_signature_metadata_run-Gives :
    (created expires : ℤ) (nonce : Str)
    → IsI64 created
    → IsI64 expires
    → Gives
        (validate_signature_metadata_run created expires nonce)
        (validate_signature_metadata created expires nonce)
validate_signature_metadata_run-Gives created expires nonce hc he = record {
  ends = validate_signature_metadata_run_lem created expires nonce hc he;
}
