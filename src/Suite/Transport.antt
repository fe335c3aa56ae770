-- ===== src/Suite/Transport.antt =====
-- src/transport.rs: its tests on root certificates.
use infernal_client_rs.Common.{all, ◌≡◌, refl, Bool, true, none, some, ◌∷◌, []}
use infernal_client_rs.Common.Text.{
  Bytes, Str, codes, format, split_once, strip_prefix, is_whitespace,
}
use infernal_client_rs.Common.FromUtf8.Encoded.{from_utf8_ascii}
use infernal_client_rs.Error.{invalid_trust_anchor}
use infernal_client_rs.Deps.{Deps}
use infernal_client_rs.Transport.{
  Http, done, without_whitespace, is_sequence, validate_pem_certificate,
  with_extra_root_certificate,
}
use infernal_client_rs.Suite.{fails_with, error_eq, is_ok}

-- A certificate of Ed25519 that signs itself
abbrev real_self_signed_certificate : Bytes
real_self_signed_certificate = format (
    codes "-----BEGIN CERTIFICATE-----\n"
    ∷ codes "MIIBQjCB9aADAgECAhRpqM8BLN6ZrntNN+EylrXXRppFfjAFBgMrZXAwFzEVMBMG\n"
    ∷ codes "A1UEAwwMdGVzdC5leGFtcGxlMB4XDTI2MDgzMDE1MDI1N1oXDTM2MDgyNzE1MDI1\n"
    ∷ codes "N1owFzEVMBMGA1UEAwwMdGVzdC5leGFtcGxlMCowBQYDK2VwAyEAQos0+A3ENFhQ\n"
    ∷ codes "/60s4B3ti+Mi3Du0JAFk9kBLqmh8KDOjUzBRMB0GA1UdDgQWBBRManztQrm98Wri\n"
    ∷ codes "61MjzWkVj91sJTAfBgNVHSMEGDAWgBRManztQrm98Wri61MjzWkVj91sJTAPBgNV\n"
    ∷ codes "HRMBAf8EBTADAQH/MAUGAytlcANBALhZET94apdND1IVLlWuPqX6o16GhDGQ45YF\n"
    ∷ codes "bZp8vx1JP4bVywoiLZdIL+IQ5EmolWR3cNzrmWwNIwAGZhEWfgk=\n"
    ∷ codes "-----END CERTIFICATE-----\n"
    ∷ [])

-- What stands between its markers, blanks left out
abbrev real_certificate_base64 : Str
real_certificate_base64 = format (
    codes "MIIBQjCB9aADAgECAhRpqM8BLN6ZrntNN+EylrXXRppFfjAFBgMrZXAwFzEVMBMG"
    ∷ codes "A1UEAwwMdGVzdC5leGFtcGxlMB4XDTI2MDgzMDE1MDI1N1oXDTM2MDgyNzE1MDI1"
    ∷ codes "N1owFzEVMBMGA1UEAwwMdGVzdC5leGFtcGxlMCowBQYDK2VwAyEAQos0+A3ENFhQ"
    ∷ codes "/60s4B3ti+Mi3Du0JAFk9kBLqmh8KDOjUzBRMB0GA1UdDgQWBBRManztQrm98Wri"
    ∷ codes "61MjzWkVj91sJTAfBgNVHSMEGDAWgBRManztQrm98Wri61MjzWkVj91sJTAPBgNV"
    ∷ codes "HRMBAf8EBTADAQH/MAUGAytlcANBALhZET94apdND1IVLlWuPqX6o16GhDGQ45YF"
    ∷ codes "bZp8vx1JP4bVywoiLZdIL+IQ5EmolWR3cNzrmWwNIwAGZhEWfgk="
    ∷ [])

module _ ⦃d : Deps⦄ (http : Http) where
  open d use {standard_decode}
  open http use {
    HttpClient, Certificate, certificate_from_pem, build, execute, is_success, parse_identity,
  }

  with_extra_root_certificate_rejects_malformed_pem : Bool
  with_extra_root_certificate_rejects_malformed_pem =
      fails_with (with_extra_root_certificate http (codes "not a certificate")) invalid_trust_anchor

  with_extra_root_certificate_rejects_markers_around_invalid_base64 : Bool
  with_extra_root_certificate_rejects_markers_around_invalid_base64 =
      let pem = codes "-----BEGIN CERTIFICATE-----\nnot base64 !!!\n-----END CERTIFICATE-----\n" in
      fails_with (with_extra_root_certificate http pem) invalid_trust_anchor

  with_extra_root_certificate_accepts_a_real_self_signed_certificate : Bool
  with_extra_root_certificate_accepts_a_real_self_signed_certificate =
      is_ok (with_extra_root_certificate http real_self_signed_certificate)

  -- Each test passes.
  with_extra_root_certificate_rejects_malformed_pem_lem :
      with_extra_root_certificate_rejects_malformed_pem ≡ true
  unfolding with_extra_root_certificate_rejects_malformed_pem with_extra_root_certificate
      validate_pem_certificate split_once all strip_prefix fails_with error_eq
  with_extra_root_certificate_rejects_malformed_pem_lem =
      rw (from_utf8_ascii (codes "not a certificate") refl) refl

  -- An exclamation mark is not of the alphabet of base64.
  with_extra_root_certificate_rejects_markers_around_invalid_base64_lem :
      standard_decode (codes "notbase64!!!") ≡ none
      → with_extra_root_certificate_rejects_markers_around_invalid_base64 ≡ true
  unfolding with_extra_root_certificate_rejects_markers_around_invalid_base64
      with_extra_root_certificate validate_pem_certificate split_once all strip_prefix
      without_whitespace is_whitespace fails_with error_eq
  with_extra_root_certificate_rejects_markers_around_invalid_base64_lem h =
      rw
        (
          from_utf8_ascii
              (codes "-----BEGIN CERTIFICATE-----\nnot base64 !!!\n-----END CERTIFICATE-----\n")
              refl,
          h,
        )
        refl

  -- The text decodes to bytes that start with the tag of a sequence, and the HTTP client takes the certificate.
  with_extra_root_certificate_accepts_a_real_self_signed_certificate_lem :
      (after_tag : Bytes) (certificate : Certificate) (client : HttpClient)
      → standard_decode real_certificate_base64 ≡ some (0x30 ∷ after_tag)
      → certificate_from_pem real_self_signed_certificate ≡ some certificate
      → build (some certificate) ≡ done client
      → with_extra_root_certificate_accepts_a_real_self_signed_certificate ≡ true
  unfolding with_extra_root_certificate_accepts_a_real_self_signed_certificate
      with_extra_root_certificate validate_pem_certificate split_once all strip_prefix
      without_whitespace is_whitespace is_sequence is_ok
  with_extra_root_certificate_accepts_a_real_self_signed_certificate_lem after_tag c client hd hc
        hb =
      rw (from_utf8_ascii real_self_signed_certificate refl, hd, hc, hb) refl
