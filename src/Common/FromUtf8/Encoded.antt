-- ===== src/Common/FromUtf8/Encoded.antt =====
-- `str::from_utf8` on the bytes of a text.
use infernal_client_rs.Common.Tests.{ltb, Bool-cases}
use mathlib.Core.Logic.{◌↔◌, inl, inr}
use infernal_client_rs.Common.Lists.{all, All, All-mono, all→All, list_eq_iff}
use infernal_client_rs.Common.Text.{Str, Bytes, utf8, utf8_char}
use infernal_client_rs.Common.Utf8.{IsScalar, IsAscii, utf8_ascii}
use Prim.Native.Nat.{ℕ, ◌+◌, ◌-◌, ◌*◌, ◌/◌, ◌%◌}
use mathlib.Core.Path.{◌≡◌, refl, sym, ap, ◌∙◌, subst}
use mathlib.Core.Bool.{true, false}
use mathlib.Core.List.{[], ◌∷◌, ◌++◌}
use mathlib.Core.Option.{some}
use native.Mathlib.Omega.{arith}
use infernal_client_rs.Common.FromUtf8.{
  between, is_encoding, emit, decode, from_utf8, from_utf8_sound, from_utf8-IsScalar,
}

encoding-is_encoding : (c : ℕ) → IsScalar c → is_encoding c (utf8_char c) ≡ true
encoding-is_encoding c h = ground (arith, list_eq_iff (utf8_char c) (utf8_char c))

emit-encoding :
    (c : ℕ) (v : ℕ) (bytes : Bytes) (s : Str)
    → IsScalar c
    → v ≡ c
    → bytes ≡ utf8_char c
    → emit (some (v, bytes)) (some s) ≡ some (c ∷ s)
emit-encoding c v bytes s h ev eb = rw (ev, eb, encoding-is_encoding c h)

-- The code point of each length that comes first is emitted.
module _ (a b c e : ℕ) (r : Bytes) (big : ltb a 0x80 ≡ false) where
  decode_two :
      ltb a 0xe0 ≡ true
      → decode between (a ∷ b ∷ r)
        ≡ emit (some ((a - 0xc0) * 64 + (b - 0x80), a ∷ b ∷ [])) (decode between r)
  unfolding decode
  decode_two h = rw (big, h)

  decode_three :
      ltb a 0xe0 ≡ false
      → ltb a 0xf0 ≡ true
      → decode between (a ∷ b ∷ c ∷ r)
        ≡ emit
            (some (((a - 0xe0) * 64 + (b - 0x80)) * 64 + (c - 0x80), a ∷ b ∷ c ∷ []))
            (decode between r)
  unfolding decode
  decode_three h k = rw (big, h, k)

  decode_four :
      ltb a 0xe0 ≡ false
      → ltb a 0xf0 ≡ false
      → decode between (a ∷ b ∷ c ∷ e ∷ r)
        ≡ emit
            (some (
              (((a - 0xf0) * 64 + (b - 0x80)) * 64 + (c - 0x80)) * 64 + (e - 0x80),
              a ∷ b ∷ c ∷ e ∷ [],
            ))
            (decode between r)
  unfolding decode
  decode_four h k = rw (big, h, k)

decode_one :
    (a : ℕ) (r : Bytes)
    → ltb a 0x80 ≡ true
    → decode between (a ∷ r) ≡ emit (some (a, a ∷ [])) (decode between r)
unfolding decode
decode_one a r h = rw h

-- Bytes that are decoded at once, if they encode the code point
decode-encoding :
    (c : ℕ) (r : Bytes) {s : Str} {v : ℕ} {bytes : Bytes}
    → IsScalar c
    → decode between r ≡ some s
    → decode between (bytes ++ r) ≡ emit (some (v, bytes)) (decode between r)
    → v ≡ c
    → bytes ≡ utf8_char c
    → decode between (utf8_char c ++ r) ≡ some (c ∷ s)
decode-encoding c r {s} {v} {bytes} h e step ev eb =
    ap (λ b. decode between (b ++ r)) (sym eb)
    ∙ step
    ∙ ap (emit (some (v, bytes))) e
    ∙ emit-encoding c v bytes s h ev eb

-- One encoded code point more
decode-step :
    (c : ℕ) (r : Bytes) {s : Str}
    → IsScalar c
    → decode between r ≡ some s
    → decode between (utf8_char c ++ r) ≡ some (c ∷ s)
unfolding utf8_char
decode-step c r h e = elim (Bool-cases (ltb c 0x80)) [
  | inl h1 ↦ decode-encoding c r {bytes = c ∷ []} h e (decode_one c r h1) refl (rw h1 refl)
  | inr h1 ↦ elim (Bool-cases (ltb c 0x800)) [
    | inl h2 ↦
        let lead = 0xc0 + c / 64 in
        let last = 0x80 + c % 64 in
        let step = decode_two lead last 0 0 r (ground arith) (ground arith) in
        decode-encoding c r {v = (lead - 0xc0) * 64 + (last - 0x80)} {bytes = lead ∷ last ∷ []} h e
          step (ground arith) (rw (h1, h2) refl)
    | inr h2 ↦ elim (Bool-cases (ltb c 0x1_0000)) [
      | inl h3 ↦
          let lead = 0xe0 + c / 4096 in
          let next = 0x80 + c / 64 % 64 in
          let last = 0x80 + c % 64 in
          let step = decode_three lead next last 0 r (ground arith) (ground arith) (ground arith) in
          decode-encoding c r {v = ((lead - 0xe0) * 64 + (next - 0x80)) * 64 + (last - 0x80)}
            {bytes = lead ∷ next ∷ last ∷ []} h e step (ground arith) (rw (h1, h2, h3) refl)
      | inr h3 ↦
          let lead = 0xf0 + c / 262144 in
          let next = 0x80 + c / 4096 % 64 in
          let third = 0x80 + c / 64 % 64 in
          let last = 0x80 + c % 64 in
          let step =
            decode_four lead next third last r (ground arith) (ground arith) (ground arith) in
          decode-encoding c r
            {v = (((lead - 0xf0) * 64 + (next - 0x80)) * 64 + (third - 0x80)) * 64 + (last - 0x80)}
            {bytes = lead ∷ next ∷ third ∷ last ∷ []} h e step (ground arith) (rw (h1, h2, h3) refl)
    ]
  ]
]

-- Every text of code points is read back from its bytes.
pub from_utf8-utf8 : (s : Str) → All IsScalar s → from_utf8 (utf8 s) ≡ some s
unfolding utf8 from_utf8 decode
from_utf8-utf8 [] _ = refl
from_utf8-utf8 (c ∷ s) (hc, hs) = decode-step c (utf8 s) hc (from_utf8-utf8 s hs)

-- What `from_utf8` reads is the text whose encoding it is given.
pub from_utf8_iff :
    (bytes : Bytes) (s : Str) → (from_utf8 bytes ≡ some s) ↔ ((utf8 s ≡ bytes) × All IsScalar s)
from_utf8_iff bytes s = (
  λ h. (from_utf8_sound bytes h, from_utf8-IsScalar bytes h),
  λ (e, scalars). ap from_utf8 (sym e) ∙ from_utf8-utf8 s scalars,
)

-- A text of ASCII is its own encoding.
pub from_utf8_ascii : (s : Str) → all (λ c. ltb c 0x80) s ≡ true → from_utf8 s ≡ some s
from_utf8_ascii s h =
    let ascii = all→All (λ c. ltb c 0x80) IsAscii (λ c e. ground arith) s h in
    let scalars = All-mono IsAscii IsScalar (λ c e. omega arith) s ascii in
    subst (λ b. from_utf8 b ≡ some s) (utf8_ascii s ascii) (from_utf8-utf8 s scalars)
