-- ===== src/Verify/Timestamp.antt =====
-- src/verify.rs: which texts are timestamps, and which times are fresh.
use infernal_client_rs.Common.{ℕ, ◌<◌, ◌^◌, ◌≡◌, ◌≢◌, ◌↔◌, [], true, some, All, all, arith}
use infernal_client_rs.Common.Int.{ℤ, pos, ◌≤ℤ◌, ◌+ℤ◌, IsI64, saturating_add}
use infernal_client_rs.Common.Text.{Str, utf8, is_ascii_digit}
use infernal_client_rs.Common.Utf8.{all-utf8_iff}
use infernal_client_rs.Common.Decimal.{
  IsDigit, value, parse_i64, parse_i64_complete, parse_i64_sound, display_i64, display_ℕ,
  display_ℕ_lem,
}
use infernal_client_rs.Error.{ok}
use infernal_client_rs.Wire.Values.{is_empty_iff}
use infernal_client_rs.Verify.{parse_timestamp, validate_signature_time}

digits_iff : (s : Str) → (all is_ascii_digit (utf8 s) ≡ true) ↔ All IsDigit s
digits_iff =
    all-utf8_iff is_ascii_digit IsDigit (λ b h. ground arith) (λ b h. ground arith)
      (λ b h. omega arith)

-- A text is a timestamp exactly when it is one or more digits that spell a number below 2^63, which
-- is then the result.
pub parse_timestamp-ok_iff :
    (s : Str) (t : ℤ)
    → (parse_timestamp s ≡ ok t)
      ↔ ((s ≢ []) × All IsDigit s × (value 0 s < 2 ^ 63) × (t ≡ pos (value 0 s)))
unfolding parse_timestamp
parse_timestamp-ok_iff s t =
    let (e0, e1) = is_empty_iff s in
    let (d0, d1) = digits_iff s in
    (
      λ h.
          let ds : All IsDigit s = d0 (ground arith) in
          let read : parse_i64 s ≡ some t = ground arith in
          let (full, exact, fits) = parse_i64_sound s ds read in (full, ds, fits, exact),
      λ (full, ds, fits, exact). rw (e1 full, d1 ds, parse_i64_complete s full ds fits, exact),
    )

parse_timestamp-display : (n : ℕ) → n < 2 ^ 63 → parse_timestamp (display_i64 (pos n)) ≡ ok (pos n)
unfolding display_i64
parse_timestamp-display n h =
    let (full, all_digits, exact) = display_ℕ_lem n in
    (parse_timestamp-ok_iff (display_ℕ n) (pos n)).1
      (full, all_digits, omega (arith, exact), rw exact)

-- On i64 times the saturation of the skew never shows: a signature is fresh exactly when the clock
-- is not negative, the signature was made at most 5 seconds ahead of it and expired at most 5
-- seconds ago.
pub validate_signature_time-ok_iff :
    (created expires now : ℤ)
    → IsI64 created
    → IsI64 expires
    → IsI64 now
    → (validate_signature_time created expires now ≡ ok tt)
      ↔ ((pos 0 ≤ℤ now) × (created ≤ℤ now +ℤ pos 5) × (now ≤ℤ expires +ℤ pos 5))
unfolding validate_signature_time saturating_add ◌+ℤ◌
validate_signature_time-ok_iff created expires now hc he hn = (λ h. ground arith, λ h. ground arith)
