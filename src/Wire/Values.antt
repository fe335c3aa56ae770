-- ===== src/Wire/Values.antt =====
-- src/wire.rs: which header and URI values pass, as predicates on characters.
use infernal_client_rs.Common.{
  ℕ, ◌≤◌, ◌≡◌, ◌≢◌, ◌↔◌, [], ◌∷◌, refl, true, false, ◌&&◌, All, all, leb, is_empty, list_eq_iff,
  arith,
}
use infernal_client_rs.Common.Text.{Str, utf8, trim}
use infernal_client_rs.Common.Utf8.{all-utf8_iff}
use infernal_client_rs.Wire.{valid_header_value, valid_uri_value}

-- The printable ASCII characters, without and with the blank
abbrev pub IsVisible : ℕ → Type 0
IsVisible c = (0x21 ≤ c) × (c ≤ 0x7e)

abbrev pub IsPrintable : ℕ → Type 0
IsPrintable c = (0x20 ≤ c) × (c ≤ 0x7e)

pub is_empty_iff : (s : Str) → (is_empty s ≡ false) ↔ (s ≢ [])
is_empty_iff [] = (λ h. cc, λ h. absurd (h refl))
is_empty_iff (c ∷ s) = (λ _ h. cc, λ _. refl)

IsVisible-iff :
    (s : Str) → (all (λ byte. leb 0x21 byte && leb byte 0x7e) (utf8 s) ≡ true) ↔ All IsVisible s
IsVisible-iff =
    all-utf8_iff _ IsVisible (λ b h. ground arith) (λ b h. ground arith) (λ b h. omega arith)

IsPrintable-iff :
    (s : Str) → (all (λ byte. leb 0x20 byte && leb byte 0x7e) (utf8 s) ≡ true) ↔ All IsPrintable s
IsPrintable-iff =
    all-utf8_iff _ IsPrintable (λ b h. ground arith) (λ b h. ground arith) (λ b h. omega arith)

pub valid_uri_value_iff :
    (value : Str) → (valid_uri_value value ≡ true) ↔ ((value ≢ []) × All IsVisible value)
unfolding valid_uri_value
valid_uri_value_iff value =
    let (e0, e1) = is_empty_iff value in
    let (v0, v1) = IsVisible-iff value in
    (λ h. (e0 (ground arith), v0 (ground arith)), λ (e, v). rw (e1 e, v1 v))

pub valid_header_value_iff :
    (value : Str)
    → (valid_header_value value ≡ true)
      ↔ ((value ≢ []) × (trim value ≡ value) × All IsPrintable value)
unfolding valid_header_value
valid_header_value_iff value =
    let (e0, e1) = is_empty_iff value in
    let (t0, t1) = list_eq_iff (trim value) value in
    let (v0, v1) = IsPrintable-iff value in
    (
      λ h. (e0 (ground arith), t0 (ground arith), v0 (ground arith)),
      λ (e, t, v). rw (e1 e, t1 t, v1 v),
    )
