-- ===== src/Common/Slices.antt =====
-- Byte indices into a `str`: `find`, and the slices that panic out of range and inside a character.
use infernal_client_rs.Common.Tests.{leb, if◌then◌else◌, Option-cases}
use infernal_client_rs.Common.Lists.{length, length-append}
use infernal_client_rs.Common.Text.{Str, strip_prefix, split_once, utf8, utf8_char}
use Prim.Native.Nat.{ℕ, zero, suc, ◌+◌, ◌-◌, ◌<◌}
use mathlib.Core.Path.{◌≡◌, refl, sym, ap, ◌∙◌}
use mathlib.Core.Logic.{inl, inr}
use mathlib.Core.Bool.{true}
use mathlib.Core.List.{[], ◌∷◌, ◌++◌, append_assoc}
use infernal_client_rs.Common.Split.{split_once_sound}
use mathlib.Core.Option
use mathlib.Core.Option.{Option, none, some}
use native.Mathlib.Omega.{arith}

-- `char::len_utf8` and `str::len`
abbrev pub len_utf8 : ℕ → ℕ
unfolding utf8_char
len_utf8 c = length (utf8_char c)

unfoldable pub byte_len : Str → ℕ
byte_len [] = 0
byte_len (c ∷ s) = len_utf8 c + byte_len s

-- `str::find` with a text: the byte index of the first place where it stands
unfoldable pub find : Str → Str → Option ℕ
unfolding strip_prefix
find [] d = elim (strip_prefix [] d) [ none ↦ none | some _ ↦ some 0 ]
find (c ∷ s) d = elim (strip_prefix (c ∷ s) d) [
  | some _ ↦ some 0
  | none ↦ Option.map (λ index. len_utf8 c + index) (find s d)
]

-- `&s[index..]`, or none where it panics
unfoldable pub slice_from : Str → ℕ → Option Str
slice_from s zero = some s
slice_from [] (suc _) = none
slice_from (c ∷ s) (suc n) =
    let rest = slice_from s (suc n - len_utf8 c) in if leb (len_utf8 c) (suc n) then rest else none

-- `&s[..index]`, or none where it panics
unfoldable pub slice_to : Str → ℕ → Option Str
slice_to s zero = some []
slice_to [] (suc _) = none
slice_to (c ∷ s) (suc n) =
    let rest = slice_to s (suc n - len_utf8 c) in
    if leb (len_utf8 c) (suc n) then Option.map (λ r. c ∷ r) rest else none

-- `&s[first..last]`, or none where it panics
unfoldable pub slice : Str → ℕ → ℕ → Option Str
unfolding slice_from slice_to
slice s first last = elim (slice_from s first) [
  | none ↦ none
  | some rest ↦ if leb first last then slice_to rest (last - first) else none
]

pub byte_len-utf8 : (s : Str) → byte_len s ≡ length (utf8 s)
unfolding byte_len utf8 len_utf8 utf8_char
byte_len-utf8 [] = refl
byte_len-utf8 (c ∷ s) = omega (arith, byte_len-utf8 s, length-append (utf8_char c) (utf8 s))

pub byte_len-append : (s t : Str) → byte_len (s ++ t) ≡ byte_len s + byte_len t
unfolding byte_len
byte_len-append [] t = omega arith
byte_len-append (c ∷ s) t = omega (arith, byte_len-append s t)

len_utf8-positive : (c : ℕ) → 0 < len_utf8 c
unfolding utf8_char
len_utf8-positive c = ground arith

-- `find` gives the place at which `split_once` cuts.
pub find-split_once :
    (s d : Str) → find s d ≡ Option.map (λ (parts : Str × Str). byte_len parts.0) (split_once s d)
unfolding find split_once byte_len
find-split_once [] d = elim (Option-cases (strip_prefix [] d)) [
  | inl e ↦ rw (find, split_once, e) refl
  | inr (r, e) ↦ rw (find, split_once, e) refl
]
find-split_once (c ∷ s) d = elim (Option-cases (strip_prefix (c ∷ s) d)) [
  | inr (r, e) ↦ rw (find, split_once, e) refl
  | inl e ↦ elim (Option-cases (split_once s d)) [
    | inl f ↦ rw (find, split_once, e, find-split_once s d, f) refl
    | inr (parts, f) ↦ rw (find, split_once, e, find-split_once s d, f) refl
  ]
]

slice_from-step :
    (c : ℕ) (s : Str) (m n : ℕ) → m ≡ len_utf8 c + n → slice_from (c ∷ s) m ≡ slice_from s n
unfolding slice_from
slice_from-step c s zero n e = absurd (omega (arith, len_utf8-positive c))
slice_from-step c s (suc m) n e =
    let left : suc m - len_utf8 c ≡ n = omega arith in
    let fits : leb (len_utf8 c) (suc m) ≡ true = ground arith in rw (fits, left) refl

slice_to-step :
    (c : ℕ) (s : Str) (m n : ℕ)
    → m ≡ len_utf8 c + n
    → slice_to (c ∷ s) m ≡ Option.map (λ r. c ∷ r) (slice_to s n)
unfolding slice_to
slice_to-step c s zero n e = absurd (omega (arith, len_utf8-positive c))
slice_to-step c s (suc m) n e =
    let left : suc m - len_utf8 c ≡ n = omega arith in
    let fits : leb (len_utf8 c) (suc m) ≡ true = ground arith in rw (fits, left) refl

-- What is sliced at the end of a text that stands first is what follows it.
pub slice_from-append : (s t : Str) → slice_from (s ++ t) (byte_len s) ≡ some t
unfolding slice_from byte_len
slice_from-append [] t = refl
slice_from-append (c ∷ s) t = slice_from-step c (s ++ t) _ (byte_len s) refl ∙ slice_from-append s t

slice_to-append : (s t : Str) → slice_to (s ++ t) (byte_len s) ≡ some s
unfolding slice_to byte_len
slice_to-append [] t = refl
slice_to-append (c ∷ s) t =
    slice_to-step c (s ++ t) _ (byte_len s) refl
    ∙ ap (Option.map (λ r. c ∷ r)) (slice_to-append s t)

-- A text that stands between two others is sliced out.
pub slice-append :
    (s t u : Str) → slice (s ++ (t ++ u)) (byte_len s) (byte_len s + byte_len t) ≡ some t
unfolding slice
slice-append s t u =
    let left : byte_len s + byte_len t - byte_len s ≡ byte_len t = omega arith in
    let fits : leb (byte_len s) (byte_len s + byte_len t) ≡ true = ground arith in
    rw (slice, slice_from-append s (t ++ u), fits, left, slice_to-append t u) refl

-- What `find` gives, and the slices at that place, where `split_once` cuts.
pub find-some :
    (s d : Str) {a b : Str} → split_once s d ≡ some (a, b) → find s d ≡ some (byte_len a)
find-some s d h = rw (find-split_once s d, h) refl

pub find-none : (s d : Str) → split_once s d ≡ none → find s d ≡ none
find-none s d h = rw (find-split_once s d, h) refl

pub le-byte_len :
    (s d : Str) {a b : Str}
    → split_once s d ≡ some (a, b)
    → byte_len a + (byte_len d + byte_len b) ≡ byte_len s
le-byte_len s d {a} {b} h = sym (
    ap byte_len (split_once_sound s d h)
    ∙ byte_len-append a (d ++ b)
    ∙ ap (λ n. byte_len a + n) (byte_len-append d b))

pub slice_from-found :
    (s d : Str) {a b : Str}
    → split_once s d ≡ some (a, b)
    → slice_from s (byte_len a + byte_len d) ≡ some b
slice_from-found s d {a} {b} h =
    rw (split_once_sound s d h, ← append_assoc a d b, ← byte_len-append a d)
      (slice_from-append (a ++ d) b)

pub slice-found :
    (s d t u : Str) {a b : Str}
    → split_once s d ≡ some (a, b)
    → b ≡ t ++ u
    → slice s (byte_len a + byte_len d) (byte_len a + byte_len d + byte_len t) ≡ some t
slice-found s d t u {a} {b} h e =
    rw (split_once_sound s d h, e, ← append_assoc a d (t ++ u), ← byte_len-append a d)
      (slice-append (a ++ d) t u)
