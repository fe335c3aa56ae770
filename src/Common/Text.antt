-- ===== src/Common/Text.antt =====
-- `str` as the list of its code points, with what the program uses of the standard library:
-- tests on bytes and characters, prefixes and suffixes, `split_once`, `find`, `trim`, UTF-8.
use Prim.Native.Nat.{ℕ, ◌+◌, ◌/◌, ◌%◌}
use Prim.Native.Char.{code}
use Prim.Native.String.{String}
use mathlib.Core.Bool.{Bool, true, false, ◌&&◌, ◌||◌}
use mathlib.Core.List.{List, [], ◌∷◌, ◌++◌}
use mathlib.Core.Option.{Option, none, some}
use infernal_client_rs.Common.Tests.{ltb, leb, ◌==◌, if◌then◌else◌}
use infernal_client_rs.Common.Lists.{is_empty, any}

abbrev pub Bytes : Type 0
Bytes = List ℕ

abbrev pub Str : Type 0
Str = List ℕ

-- The code points of a literal.
abbrev pub codes : String → Str
codes String.[] = []
codes (String.◌∷◌ c s) = code c ∷ codes s

-- `format!`: the pieces one after the other, bracketed to the right
abbrev pub format : List Str → Str
format [] = []
format (s ∷ []) = s
format (s ∷ (t ∷ r)) = s ++ format (t ∷ r)

-- `u8::is_ascii_digit` and its siblings
abbrev pub is_ascii_digit : ℕ → Bool
is_ascii_digit c = leb b'0' c && leb c b'9'

abbrev pub is_ascii_uppercase : ℕ → Bool
is_ascii_uppercase c = leb b'A' c && leb c b'Z'

abbrev pub is_ascii_lowercase : ℕ → Bool
is_ascii_lowercase c = leb b'a' c && leb c b'z'

abbrev pub is_ascii_alphanumeric : ℕ → Bool
is_ascii_alphanumeric c = is_ascii_digit c || is_ascii_uppercase c || is_ascii_lowercase c

-- `char::is_whitespace`: the code points with the property White_Space.
unfoldable pub is_whitespace : ℕ → Bool
is_whitespace c =
    leb 0x9 c && leb c 0xd
    || c == 0x20
    || c == 0x85
    || c == 0xa0
    || c == 0x1680
    || leb 0x2000 c && leb c 0x200a
    || c == 0x2028
    || c == 0x2029
    || c == 0x202f
    || c == 0x205f
    || c == 0x3000

-- `str::strip_prefix` with a text
unfoldable pub strip_prefix : Str → Str → Option Str
strip_prefix s [] = some s
strip_prefix [] (d ∷ ds) = none
strip_prefix (c ∷ s) (d ∷ ds) = if c == d then strip_prefix s ds else none

unfoldable pub starts_with : Str → Str → Bool
unfolding strip_prefix
starts_with s d = elim (strip_prefix s d) [ none ↦ false | some _ ↦ true ]

-- `str::strip_suffix` with a character
unfoldable pub strip_suffix : Str → ℕ → Option Str
strip_suffix [] d = none
strip_suffix (c ∷ []) d = if c == d then some [] else none
strip_suffix (c ∷ (e ∷ s)) d = elim (strip_suffix (e ∷ s) d) [ none ↦ none | some r ↦ some (c ∷ r) ]

-- `str::split_once`: at the first place where the delimiter stands
unfoldable pub split_once : Str → Str → Option (Str × Str)
unfolding strip_prefix
split_once [] d = elim (strip_prefix [] d) [ none ↦ none | some r ↦ some ([], r) ]
split_once (c ∷ s) d = elim (strip_prefix (c ∷ s) d) [
  | some r ↦ some ([], r)
  | none ↦ elim (split_once s d) [ none ↦ none | some (a, b) ↦ some (c ∷ a, b) ]
]

-- `str::contains` with a character
abbrev pub contains : Str → ℕ → Bool
contains s d = any (λ c. c == d) s

unfoldable pub trim_start : Str → Str
trim_start [] = []
trim_start (c ∷ s) = if is_whitespace c then trim_start s else c ∷ s

unfoldable pub trim_end : Str → Str
trim_end [] = []
trim_end (c ∷ s) = let r = trim_end s in if is_whitespace c && is_empty r then [] else c ∷ r

-- `str::trim`
unfoldable pub trim : Str → Str
unfolding trim_start trim_end
trim s = trim_end (trim_start s)

-- The UTF-8 encoding of one code point
unfoldable pub utf8_char : ℕ → Bytes
utf8_char c =
    if ltb c 0x80
    then c ∷ []
    else if ltb c 0x800
    then (0xc0 + c / 64) ∷ (0x80 + c % 64) ∷ []
    else if ltb c 0x1_0000
    then (0xe0 + c / 4096) ∷ (0x80 + c / 64 % 64) ∷ (0x80 + c % 64) ∷ []
    else (0xf0 + c / 262144) ∷ (0x80 + c / 4096 % 64) ∷ (0x80 + c / 64 % 64) ∷ (0x80 + c % 64) ∷ []

-- `str::as_bytes`
unfoldable pub utf8 : Str → Bytes
utf8 [] = []
utf8 (c ∷ s) = utf8_char c ++ utf8 s
