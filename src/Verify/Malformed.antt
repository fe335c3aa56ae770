-- ===== src/Verify/Malformed.antt =====
-- src/verify.rs: how `parse_signature_input` refuses a header.
use infernal_client_rs.Common.{
  ◌<◌, ◌^◌, ◌≡◌, ◌≢◌, ◌↔◌, ◌⊎◌, inl, inr, refl, sym, ap, ◌∙◌, none, [], All, arith, Option-cases,
}
use infernal_client_rs.Common.Int.{ℤ, pos, IsI64}
use infernal_client_rs.Common.Text.{Str, codes}
use infernal_client_rs.Common.Decimal.{IsDigit, value}
use infernal_client_rs.Error.{
  fails_rules, Result-cases, err-ne-ok, err-injective, ok, err, ClientError, invalid_request_part,
  FailsWith,
}
use infernal_client_rs.Deps.{Deps}
use infernal_client_rs.Wire.Metadata.{
  IsWindow, IsNonce, validate_signature_metadata_cases, validate_signature_metadata-ok_iff,
  validate_signature_metadata-err_iff,
}
use mathlib.Core.Path.{subst}
use infernal_client_rs.Verify.{
  SignatureMetadata, parse_timestamp, parse_signature_input, bad_signature_input,
}
use infernal_client_rs.Verify.Timestamp.{parse_timestamp-ok_iff}
use infernal_client_rs.Verify.Texts.{Texts, HasTexts}
use infernal_client_rs.Verify.Search.{read_texts, HasTexts-cases, parse-HasTexts}

-- One or more digits that spell a number below 2^63
abbrev pub IsTimestamp : Str → Type 0
IsTimestamp s = (s ≢ []) × All IsDigit s × (value 0 s < 2 ^ 63)

abbrev pub time_of : Str → ℤ
time_of s = pos (value 0 s)

parse_timestamp-FailsWith :
    (s : Str) → FailsWith (invalid_request_part (codes "timestamp")) (parse_timestamp s)
unfolding parse_timestamp
parse_timestamp-FailsWith s = search fails_rules

IsTimestamp-cases :
    (s : Str)
    → (IsTimestamp s × (parse_timestamp s ≡ ok (time_of s)))
      ⊎ ((¬ IsTimestamp s) × (parse_timestamp s ≡ err (invalid_request_part (codes "timestamp"))))
IsTimestamp-cases s = elim (Result-cases (parse_timestamp s)) [
  | inl (t, h) ↦
      let (full, ds, fits, same) = (parse_timestamp-ok_iff s t).0 h in
      inl ((full, ds, fits), h ∙ ap ok same)
  | inr (e, h) ↦ inr (
    λ (full, ds, fits).
        let read = (parse_timestamp-ok_iff s (time_of s)).1 (full, ds, fits, refl) in cc,
    h ∙ ap err ((parse_timestamp-FailsWith s).only e h),
  )
]

timestamp : (s : Str) → IsTimestamp s → parse_timestamp s ≡ ok (time_of s)
timestamp s (full, ds, fits) = (parse_timestamp-ok_iff s (time_of s)).1 (full, ds, fits, refl)

not_timestamp :
    (s : Str) → ¬ IsTimestamp s → parse_timestamp s ≡ err (invalid_request_part (codes "timestamp"))
not_timestamp s n = elim (IsTimestamp-cases s) [ inl (t, _) ↦ absurd (n t) | inr (_, h) ↦ h ]

time-IsI64 : (s : Str) → IsTimestamp s → IsI64 (time_of s)
time-IsI64 s (_, _, fits) = omega arith

module _ ⦃d : Deps⦄ where
  open d use {uuid_parse}

  -- The first of the four texts that is not what it should be, and the error that names it
  pub data Malformed (c e n k : Str) (x : ClientError) : Type 0 where
    not_created :
        ¬ IsTimestamp c → x ≡ invalid_request_part (codes "timestamp") → Malformed c e n k x
    not_expires :
        IsTimestamp c
        → ¬ IsTimestamp e
        → x ≡ invalid_request_part (codes "timestamp")
        → Malformed c e n k x
    not_window :
        IsTimestamp c
        → IsTimestamp e
        → ¬ IsWindow (time_of c) (time_of e)
        → x ≡ invalid_request_part (codes "expires")
        → Malformed c e n k x
    not_nonce :
        IsTimestamp c
        → IsTimestamp e
        → IsWindow (time_of c) (time_of e)
        → ¬ IsNonce n
        → x ≡ invalid_request_part (codes "nonce")
        → Malformed c e n k x
    not_key_id :
        IsTimestamp c
        → IsTimestamp e
        → IsWindow (time_of c) (time_of e)
        → IsNonce n
        → uuid_parse k ≡ none
        → x ≡ bad_signature_input
        → Malformed c e n k x

  module _ (p c e n k : Str) where
    Malformed-eq-err : (x : ClientError) → Malformed c e n k x → read_texts p c e n k ≡ err x
    Malformed-eq-err x (not_created nc same) = rw (not_timestamp c nc, same) refl
    Malformed-eq-err x (not_expires tc ne same) = rw (timestamp c tc, not_timestamp e ne, same) refl
    Malformed-eq-err x (not_window tc te nw same) =
        let (_, (_, refused), _) =
          validate_signature_metadata-err_iff (time_of c) (time_of e) n (time-IsI64 c tc)
            (time-IsI64 e te) in
        rw (timestamp c tc, timestamp e te, refused (omega arith, nw), same) refl
    Malformed-eq-err x (not_nonce tc te w nn same) =
        let (_, _, (_, refused)) =
          validate_signature_metadata-err_iff (time_of c) (time_of e) n (time-IsI64 c tc)
            (time-IsI64 e te) in
        rw (timestamp c tc, timestamp e te, refused (omega arith, w, nn), same) refl
    Malformed-eq-err x (not_key_id tc te w hnonce nk same) =
        let valid =
          (validate_signature_metadata-ok_iff (time_of c) (time_of e) n (time-IsI64 c tc)
              (time-IsI64 e te)).1
            (omega arith, w, hnonce) in
        rw (timestamp c tc, timestamp e te, valid, nk, same) refl

    read_texts_cases :
        ((m : SignatureMetadata) × (read_texts p c e n k ≡ ok m))
        ⊎ ((y : ClientError) × Malformed c e n k y)
    read_texts_cases = elim (IsTimestamp-cases c) [
      | inr (nc, _) ↦ inr (_, not_created nc refl)
      | inl (tc, hc') ↦ elim (IsTimestamp-cases e) [
        | inr (ne, _) ↦ inr (_, not_expires tc ne refl)
        | inl (te, he') ↦
            elim (validate_signature_metadata_cases (value 0 c) (time_of e) n (time-IsI64 c tc)
              (time-IsI64 e te)) [
                | inr (inl (nw, _)) ↦ inr (_, not_window tc te nw refl)
                | inr (inr ((w, nn), _)) ↦ inr (_, not_nonce tc te w nn refl)
                | inl ((w, hnonce), valid) ↦ elim (Option-cases (uuid_parse k)) [
                  | inl nk ↦ inr (_, not_key_id tc te w hnonce nk refl)
                  | inr (id, hid) ↦
                      let m : SignatureMetadata = record {
                        parameters = p;
                        created = time_of c;
                        expires = time_of e;
                        key_id = id;
                      } in
                      inl (m, rw (hc', he', valid, hid) refl)
                ]
              ]
      ]
    ]

  -- How a header is refused: it holds no texts, or it holds texts that are malformed.
  pub data Unreadable (value : Str) (x : ClientError) : Type 0 where
    no_texts : ¬ ((t : Texts) × HasTexts value t) → x ≡ bad_signature_input → Unreadable value x
    malformed :
        (t : Texts)
        → HasTexts value t
        → Malformed t.created t.expires t.nonce t.key_id x
        → Unreadable value x

  Unreadable-eq-err :
      (value : Str) (x : ClientError) → Unreadable value x → parse_signature_input value ≡ err x
  Unreadable-eq-err value x (no_texts none_there same) = elim (HasTexts-cases value) [
    | inl found ↦ absurd (none_there found)
    | inr (_, h) ↦ h ∙ ap err (sym same)
  ]
  Unreadable-eq-err value x (malformed t w bad) =
      parse-HasTexts value t w
      ∙ Malformed-eq-err t.parameters t.created t.expires t.nonce t.key_id x bad

  eq-err-Unreadable :
      (value : Str) (x : ClientError) → parse_signature_input value ≡ err x → Unreadable value x
  eq-err-Unreadable value x h = elim (HasTexts-cases value) [
    | inr (none_there, refused) ↦ no_texts none_there (err-injective (sym h ∙ refused))
    | inl (t, w) ↦ elim (read_texts_cases t.parameters t.created t.expires t.nonce t.key_id) [
      | inl (m, read) ↦ absurd (err-ne-ok x m (sym h ∙ parse-HasTexts value t w ∙ read))
      | inr (y, bad) ↦
          let same : y ≡ x = err-injective (
            sym (Malformed-eq-err t.parameters t.created t.expires t.nonce t.key_id y bad)
            ∙ sym (parse-HasTexts value t w)
            ∙ h) in
          malformed t w (subst (Malformed t.created t.expires t.nonce t.key_id) same bad)
    ]
  ]

  -- A header Signature-Input is refused with an error exactly as Unreadable says: if it does not hold
  -- the label, the covered components and four texts, each up to the first place where its
  -- delimiter stands, and the algorithm ed25519 at the end, the error is that of the header; else
  -- it is the error of the first text that is not what it should be, in the order: the time of
  -- creation, the time of expiry, the window, the nonce, the id.
  pub parse_signature_input-err_iff :
      (value : Str) (x : ClientError) → (parse_signature_input value ≡ err x) ↔ Unreadable value x
  parse_signature_input-err_iff value x = (eq-err-Unreadable value x, Unreadable-eq-err value x)
