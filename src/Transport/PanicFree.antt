-- ===== src/Transport/PanicFree.antt =====
-- src/transport.rs: the check of a root certificate as it is written, with the byte indices that
-- `find` gives, sums of `usize` and slices.
use infernal_client_rs.Common.{
  ◌≡◌, refl, ap, ◌∙◌, ◌<◌, ◌+◌, ◌^◌, inl, inr, not, length, arith, Option-cases, Option, ◌++◌,
}
use infernal_client_rs.Common.Text.{Bytes, split_once}
use infernal_client_rs.Common.Split.{split_once_sound}
use infernal_client_rs.Common.Slices.{
  byte_len, byte_len-utf8, find, slice_from, slice, find-some, find-none, le-byte_len,
  slice_from-found, slice-found,
}
use infernal_client_rs.Common.FromUtf8.{from_utf8, from_utf8_sound}
use infernal_client_rs.Error
use infernal_client_rs.Error.{refuse_if, ok_or, ok, invalid_trust_anchor}
use infernal_client_rs.Deps.{Deps}
use infernal_client_rs.Panic.{
  Run, Gives, gives_rules, finished, ◌>>=◌, ◌>>◌, or_panic, add_usize, add_usize_lem,
}
use infernal_client_rs.Transport.{
  pem_certificate_begin, pem_certificate_end, without_whitespace, is_sequence,
  validate_pem_certificate,
}

module _ ⦃d : Deps⦄ where
  open d use {standard_decode}

  unfoldable pub validate_pem_certificate_run : Bytes → Run (Unit {0})
  validate_pem_certificate_run pem = do
    text ← finished (ok_or (from_utf8 pem) invalid_trust_anchor)
    index ← finished (ok_or (find text pem_certificate_begin) invalid_trust_anchor)
    after_begin ← add_usize index (byte_len pem_certificate_begin)
    rest ← or_panic (slice_from text after_begin)
    body_len ← finished (ok_or (find rest pem_certificate_end) invalid_trust_anchor)
    last ← add_usize after_begin body_len
    body ← or_panic (slice text after_begin last)
    decoded ← finished (ok_or (standard_decode (without_whitespace body)) invalid_trust_anchor)
    finished (refuse_if (not (is_sequence decoded)) invalid_trust_anchor)
    finished (ok tt)

  -- The end of both checks
  decoded_run-Gives :
      (o : Option Bytes)
      → Gives {A = Unit {0}}
          (do
            decoded ← finished (ok_or o invalid_trust_anchor)
            finished (refuse_if (not (is_sequence decoded)) invalid_trust_anchor)
            finished (ok tt))
          (Error.◌>>=◌ (ok_or o invalid_trust_anchor) (λ decoded.
            Error.◌>>◌ (refuse_if (not (is_sequence decoded)) invalid_trust_anchor) (ok tt)))
  decoded_run-Gives o = search gives_rules

  -- On fewer bytes than half the range of a usize, which is as many as there can be, the check of a
  -- root certificate does not panic: no sum overflows, and no slice is out of range or begins or
  -- ends inside a character. It gives what cutting the text at the markers gives.
  pub validate_pem_certificate_run_lem :
      (pem : Bytes)
      → length pem < 2 ^ 63
      → validate_pem_certificate_run pem ≡ finished (validate_pem_certificate pem)
  unfolding validate_pem_certificate_run validate_pem_certificate
  validate_pem_certificate_run_lem pem small = elim (Option-cases (from_utf8 pem)) [
    | inl h ↦ rw h refl
    | inr (text, h) ↦ elim (Option-cases (split_once text pem_certificate_begin)) [
      | inl hb ↦ rw (h, hb, find-none text pem_certificate_begin hb) refl
      | inr ((before, rest), hb) ↦
          let begin = byte_len pem_certificate_begin in
          let found = find-some text pem_certificate_begin hb in
          let from = slice_from-found text pem_certificate_begin hb in
          let whole = byte_len-utf8 text ∙ ap length (from_utf8_sound pem h) in
          let fits = le-byte_len text pem_certificate_begin hb in
          let sum = add_usize_lem (byte_len before) begin (omega arith) in
          elim (Option-cases (split_once rest pem_certificate_end)) [
            | inl he ↦ rw (h, hb, found, sum, from, he, find-none rest pem_certificate_end he) refl
            | inr ((body, after), he) ↦
                let found' = find-some rest pem_certificate_end he in
                let fits' = le-byte_len rest pem_certificate_end he in
                let sum' = add_usize_lem (byte_len before + begin) (byte_len body) (omega arith) in
                let cut =
                  slice-found text pem_certificate_begin body (pem_certificate_end ++ after) hb
                    (split_once_sound rest pem_certificate_end he) in
                rw (h, hb, found, sum, from, he, found', sum', cut)
                  ((decoded_run-Gives (standard_decode (without_whitespace body))).ends)
          ]
    ]
  ]
