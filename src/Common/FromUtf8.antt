-- ===== src/Common/FromUtf8.antt =====
-- `str::from_utf8`: a decoder that accepts the encodings of Unicode code points and nothing else.
pub mod Encoded
use infernal_client_rs.Common.Tests.{ltb, leb, if◌then◌else◌, Bool-cases, &&_iff}
use mathlib.Core.Logic.{inl, inr}
use infernal_client_rs.Common.Lists.{All, list_eq, list_eq_iff}
use infernal_client_rs.Common.Text.{Str, Bytes, utf8, utf8_char}
use infernal_client_rs.Common.Utf8.{IsScalar}
use Prim.Native.Nat.{ℕ, ◌+◌, ◌-◌, ◌*◌, ◌/◌, ◌%◌}
use mathlib.Core.Path.{◌≡◌, refl, sym, ap, ◌∙◌}
use mathlib.Core.Bool.{Bool, true, false, ◌&&◌, ◌||◌}
use mathlib.Core.List.{[], ◌∷◌, ◌++◌, append_assoc}
use mathlib.Core.Option.{Option, none, some}
use native.Mathlib.Omega.{arith}

-- Where the decoder stands: between code points, or with one, two or three bytes to come, behind the
-- value so far and the bytes that gave it
data Place : Type 0 where
  between : Place
  one_more two_more three_more : ℕ → Bytes → Place

-- One byte: the new place, and the code point that it ends, with its bytes
abbrev feed : Place → ℕ → Place × Option (ℕ × Bytes)
feed between a =
    if ltb a 0x80
    then (between, some (a, a ∷ []))
    else if ltb a 0xe0
    then (one_more (a - 0xc0) (a ∷ []), none)
    else if ltb a 0xf0
    then (two_more (a - 0xe0) (a ∷ []), none)
    else (three_more (a - 0xf0) (a ∷ []), none)
feed (one_more v seen) b = (between, some (v * 64 + (b - 0x80), seen ++ b ∷ []))
feed (two_more v seen) b = (one_more (v * 64 + (b - 0x80)) (seen ++ b ∷ []), none)
feed (three_more v seen) b = (two_more (v * 64 + (b - 0x80)) (seen ++ b ∷ []), none)

-- A scalar value whose encoding the bytes are
abbrev is_encoding : ℕ → Bytes → Bool
is_encoding c bytes =
    ltb c 0x11_0000 && (ltb c 0xd800 || leb 0xe000 c) && list_eq (utf8_char c) bytes

-- A code point before the rest of the text
abbrev emit : Option (ℕ × Bytes) → Option Str → Option Str
emit none rest = rest
emit (some (c, bytes)) none = none
emit (some (c, bytes)) (some s) = if is_encoding c bytes then some (c ∷ s) else none

decode : Place → Bytes → Option Str
decode between [] = some []
decode (one_more _ _) [] = none
decode (two_more _ _) [] = none
decode (three_more _ _) [] = none
decode place (b ∷ rest) =
    let (next, out) = feed place b in let text = decode next rest in emit out text

pub from_utf8 : Bytes → Option Str
unfolding decode
from_utf8 bytes = decode between bytes

-- The bytes taken in so far
abbrev seen_at : Place → Bytes
seen_at between = []
seen_at (one_more _ seen) = seen
seen_at (two_more _ seen) = seen
seen_at (three_more _ seen) = seen

if_some_sound :
    (b : Bool) (x : Str) {y : Str} → (if b then some x else none) ≡ some y → (b ≡ true) × (x ≡ y)
if_some_sound true x h = (refl, cc)
if_some_sound false x h = cc

emit_sound :
    (c : ℕ) (bytes : Bytes) (rest : Option Str) {s : Str}
    → emit (some (c, bytes)) rest ≡ some s
    → (t : Str) × (rest ≡ some t) × (s ≡ c ∷ t) × (utf8_char c ≡ bytes) × IsScalar c
emit_sound c bytes none h = cc
emit_sound c bytes (some t) h =
    let (e, same) = if_some_sound (is_encoding c bytes) (c ∷ t) h in
    let (scalar, whole) = (&&_iff (ltb c 0x11_0000 && (ltb c 0xd800 || leb 0xe000 c)) _).0 e in
    (t, refl, sym same, (list_eq_iff _ _).0 whole, ground arith)

-- A code point that ends here, and the rest of the text
decode_sound :
    (place : Place) (bytes : Bytes) {s : Str}
    → decode place bytes ≡ some s
    → utf8 s ≡ seen_at place ++ bytes
unfolding decode utf8
decode_sound between [] h = ap utf8 (sym (if_some_sound true [] h).1)
decode_sound (one_more v seen) [] h = cc
decode_sound (two_more v seen) [] h = cc
decode_sound (three_more v seen) [] h = cc
decode_sound (one_more v seen) (b ∷ r) h =
    let (t, ht, es, ec, _) =
      emit_sound (v * 64 + (b - 0x80)) (seen ++ b ∷ []) (decode between r) h in
    rw (es, ec, decode_sound between r ht) (append_assoc seen (b ∷ []) r)
decode_sound (two_more v seen) (b ∷ r) h =
    decode_sound (one_more (v * 64 + (b - 0x80)) (seen ++ b ∷ [])) r h
    ∙ append_assoc seen (b ∷ []) r
decode_sound (three_more v seen) (b ∷ r) h =
    decode_sound (two_more (v * 64 + (b - 0x80)) (seen ++ b ∷ [])) r h
    ∙ append_assoc seen (b ∷ []) r
decode_sound between (a ∷ r) h = elim (Bool-cases (ltb a 0x80)) [
  | inl h1 ↦
      let (t, ht, es, ec, _) = emit_sound a (a ∷ []) (decode between r) (rw h1 at h) in
      rw (es, ec, decode_sound between r ht) refl
  | inr h1 ↦ elim (Bool-cases (ltb a 0xe0)) [
    | inl h2 ↦ decode_sound (one_more (a - 0xc0) (a ∷ [])) r (rw (h1, h2) at h)
    | inr h2 ↦ elim (Bool-cases (ltb a 0xf0)) [
      | inl h3 ↦ decode_sound (two_more (a - 0xe0) (a ∷ [])) r (rw (h1, h2, h3) at h)
      | inr h3 ↦ decode_sound (three_more (a - 0xf0) (a ∷ [])) r (rw (h1, h2, h3) at h)
    ]
  ]
]

-- Bytes that are read as a text are that text's bytes.
pub from_utf8_sound : (bytes : Bytes) {s : Str} → from_utf8 bytes ≡ some s → utf8 s ≡ bytes
unfolding from_utf8
from_utf8_sound bytes h = decode_sound between bytes h

decode-IsScalar :
    (place : Place) (bytes : Bytes) {s : Str} → decode place bytes ≡ some s → All IsScalar s
unfolding decode
decode-IsScalar between [] h = rw (← (if_some_sound true [] h).1) tt
decode-IsScalar (one_more v seen) [] h = cc
decode-IsScalar (two_more v seen) [] h = cc
decode-IsScalar (three_more v seen) [] h = cc
decode-IsScalar (one_more v seen) (b ∷ r) h =
    let (t, ht, es, _, hc) =
      emit_sound (v * 64 + (b - 0x80)) (seen ++ b ∷ []) (decode between r) h in
    rw es (hc, decode-IsScalar between r ht)
decode-IsScalar (two_more v seen) (b ∷ r) h =
    decode-IsScalar (one_more (v * 64 + (b - 0x80)) (seen ++ b ∷ [])) r h
decode-IsScalar (three_more v seen) (b ∷ r) h =
    decode-IsScalar (two_more (v * 64 + (b - 0x80)) (seen ++ b ∷ [])) r h
decode-IsScalar between (a ∷ r) h = elim (Bool-cases (ltb a 0x80)) [
  | inl h1 ↦
      let (t, ht, es, _, hc) = emit_sound a (a ∷ []) (decode between r) (rw h1 at h) in
      rw es (hc, decode-IsScalar between r ht)
  | inr h1 ↦ elim (Bool-cases (ltb a 0xe0)) [
    | inl h2 ↦ decode-IsScalar (one_more (a - 0xc0) (a ∷ [])) r (rw (h1, h2) at h)
    | inr h2 ↦ elim (Bool-cases (ltb a 0xf0)) [
      | inl h3 ↦ decode-IsScalar (two_more (a - 0xe0) (a ∷ [])) r (rw (h1, h2, h3) at h)
      | inr h3 ↦ decode-IsScalar (three_more (a - 0xf0) (a ∷ [])) r (rw (h1, h2, h3) at h)
    ]
  ]
]

-- What is read is a text of code points.
pub from_utf8-IsScalar : (bytes : Bytes) {s : Str} → from_utf8 bytes ≡ some s → All IsScalar s
unfolding from_utf8
from_utf8-IsScalar bytes h = decode-IsScalar between bytes h
