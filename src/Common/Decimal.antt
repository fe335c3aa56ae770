-- ===== src/Common/Decimal.antt =====
-- `Display` and `FromStr` of `i64`.
use infernal_client_rs.Common.Tests.{ltb, leb, ◌==◌, if◌then◌else◌, Bool-cases, Option-cases}
use mathlib.Core.Logic.{◌⊎◌, inl, inr}
use infernal_client_rs.Common.Text.{Str, is_ascii_digit}
use infernal_client_rs.Common.Lists.{All, All-mono, All-append}
use infernal_client_rs.Common.Int.{ℤ, pos, negsuc}
use Prim.Native.Nat.{ℕ, zero, suc, ◌+◌, ◌-◌, ◌*◌, ◌/◌, ◌%◌, ◌^◌, ◌<◌, ◌≤◌}
use mathlib.Core.Path.{◌≡◌, refl, sym}
use mathlib.Core.Logic.{◌≢◌}
use mathlib.Core.Bool.{◌&&◌}
use mathlib.Core.List.{[], ◌∷◌, ◌++◌, cons-ne-nil, concat-ne-nil}
use mathlib.Core.Option
use mathlib.Core.Option.{Option, none, some}
use native.Mathlib.Omega.{arith}

-- The decimal digits of a number; `n` rounds are more than the digits of `n`.
digits : ℕ → ℕ → Str
digits zero n = (b'0' + n % 10) ∷ []
digits (suc f) n =
    let front = digits f (n / 10) in
    if ltb n 10 then (b'0' + n % 10) ∷ [] else front ++ (b'0' + n % 10) ∷ []

unfoldable pub display_ℕ : ℕ → Str
unfolding digits
display_ℕ n = digits n n

unfoldable pub display_i64 : ℤ → Str
unfolding display_ℕ
display_i64 (pos n) = display_ℕ n
display_i64 (negsuc n) = b'-' ∷ display_ℕ (suc n)

-- Digits behind the number `acc`, refused as soon as it passes `limit`.
scan : ℕ → Str → ℕ → Option ℕ
scan limit [] acc = some acc
scan limit (c ∷ s) acc =
    let v = acc * 10 + (c - b'0') in
    if is_ascii_digit c && leb v limit then scan limit s v else none

scan_one : ℕ → Str → Option ℕ
scan_one limit [] = none
scan_one limit (c ∷ s) = scan limit (c ∷ s) 0

abbrev negate : ℕ → ℤ
negate zero = pos 0
negate (suc n) = negsuc n

-- `str::parse::<i64>`: an optional sign and one or more digits, with checked arithmetic
unfoldable pub parse_i64 : Str → Option ℤ
unfolding scan scan_one
parse_i64 [] = none
parse_i64 (c ∷ s) =
    if c == b'-'
    then Option.map negate (scan_one (2 ^ 63) s)
    else if c == b'+'
    then Option.map pos (scan_one (2 ^ 63 - 1) s)
    else Option.map pos (scan_one (2 ^ 63 - 1) (c ∷ s))

abbrev pub IsDigit : ℕ → Type 0
IsDigit c = (b'0' ≤ c) × (c ≤ b'9')

-- The number that digits spell behind `n`, with no bound.
abbrev pub value : ℕ → Str → ℕ
value n [] = n
value n (c ∷ s) = value (n * 10 + (c - b'0')) s

value-append : (s t : Str) (n : ℕ) → value n (s ++ t) ≡ value (value n s) t
value-append [] t n = refl
value-append (c ∷ s) t n = value-append s t (n * 10 + (c - b'0'))

value-digits : (f n : ℕ) → n ≤ f → value 0 (digits f n) ≡ n
unfolding digits
value-digits zero n h = omega arith
value-digits (suc f) n h = ground (
  arith,
  value-digits f (n / 10) (omega arith),
  value-append (digits f (n / 10)) ((b'0' + n % 10) ∷ []) 0,
)

digits-IsDigit : (f n : ℕ) → All IsDigit (digits f n)
unfolding digits
digits-IsDigit zero n = omega arith
digits-IsDigit (suc f) n = elim (Bool-cases (ltb n 10)) [
  | inl e ↦ rw e (omega arith)
  | inr e ↦ rw e (All-append _ (digits f (n / 10)) _ (digits-IsDigit f (n / 10)) (omega arith))
]

le-value : (s : Str) (n : ℕ) → n ≤ value n s
le-value [] n = omega arith
le-value (c ∷ s) n = omega (arith, le-value s (n * 10 + (c - b'0')))

scan_complete :
    (limit : ℕ) (text : Str) (acc : ℕ)
    → All IsDigit text
    → value acc text ≤ limit
    → scan limit text acc ≡ some (value acc text)
unfolding scan
scan_complete limit [] acc _ _ = refl
scan_complete limit (c ∷ text) acc (is_digit, rest) fits =
    let next = acc * 10 + (c - b'0') in
    ground (arith, le-value text next, scan_complete limit text next rest fits)

scan_sound :
    (limit : ℕ) (text : Str) (acc : ℕ) {result : ℕ}
    → acc ≤ limit
    → scan limit text acc ≡ some result
    → All IsDigit text × (result ≡ value acc text) × (result ≤ limit)
unfolding scan
scan_sound limit [] acc fits h = ground arith
scan_sound limit (c ∷ text) acc {result} fits h =
    ground (arith, scan_sound limit text (acc * 10 + (c - b'0')) {result = result})

digits-ne-nil : (f n : ℕ) → digits f n ≢ []
unfolding digits
digits-ne-nil zero n = cons-ne-nil _ _
digits-ne-nil (suc f) n = elim (Bool-cases (ltb n 10)) [
  | inl e ↦ rw e (cons-ne-nil _ _)
  | inr e ↦ rw e (concat-ne-nil _ (digits f (n / 10)))
]

-- What `Display` writes for a number is one or more digits that spell it.
pub display_ℕ_lem :
    (n : ℕ) → (display_ℕ n ≢ []) × All IsDigit (display_ℕ n) × (value 0 (display_ℕ n) ≡ n)
unfolding display_ℕ
display_ℕ_lem n = (digits-ne-nil n n, digits-IsDigit n n, value-digits n n (omega arith))

pub parse_i64_complete :
    (s : Str) → s ≢ [] → All IsDigit s → value 0 s < 2 ^ 63 → parse_i64 s ≡ some (pos (value 0 s))
unfolding parse_i64
parse_i64_complete [] h _ _ = absurd (h refl)
parse_i64_complete (c ∷ s) _ (hc, hs) fits =
    ground (arith, scan_complete (2 ^ 63 - 1) (c ∷ s) 0 (hc, hs) (omega arith))

pub parse_i64_sound :
    (s : Str) {t : ℤ}
    → All IsDigit s
    → parse_i64 s ≡ some t
    → (s ≢ []) × (t ≡ pos (value 0 s)) × (value 0 s < 2 ^ 63)
unfolding parse_i64
parse_i64_sound [] _ h = cc
parse_i64_sound (c ∷ s) {t} (hc, hs) h = elim (Option-cases (scan (2 ^ 63 - 1) (c ∷ s) 0)) [
  | inl e ↦ ground arith
  | inr (r, e) ↦
      let (_, exact, fits) = scan_sound (2 ^ 63 - 1) (c ∷ s) 0 (omega arith) e in
      (cons-ne-nil c s, ground arith, omega arith)
]

-- A displayed `i64` is digits behind an optional minus sign.
abbrev pub IsDigitOrMinus : ℕ → Type 0
IsDigitOrMinus c = (c ≡ b'-') ⊎ (b'0' ≤ c) × (c ≤ b'9')

pub display_i64_chars : (t : ℤ) → All IsDigitOrMinus (display_i64 t)
unfolding display_i64
display_i64_chars (pos n) = All-mono IsDigit IsDigitOrMinus (λ c h. inr h) _ (digits-IsDigit n n)
display_i64_chars (negsuc n) =
    (inl refl, All-mono IsDigit IsDigitOrMinus (λ c h. inr h) _ (digits-IsDigit (suc n) (suc n)))

-- A text that begins with a minus sign is no text of digits.
digits_no_minus : (s t : Str) → All IsDigit s → s ≢ b'-' ∷ t
digits_no_minus [] t _ e = cc
digits_no_minus (c ∷ s) t (hc, _) e = let f : c ≡ b'-' = cc in absurd (omega arith)

pub display_i64_injective : (a b : ℤ) → display_i64 a ≡ display_i64 b → a ≡ b
unfolding display_i64
display_i64_injective (pos n) (pos m) e =
    cc (value-digits n n (omega arith), value-digits m m (omega arith))
display_i64_injective (pos n) (negsuc m) e = absurd (digits_no_minus _ _ (digits-IsDigit n n) e)
display_i64_injective (negsuc n) (pos m) e =
    absurd (digits_no_minus _ _ (digits-IsDigit m m) (sym e))
display_i64_injective (negsuc n) (negsuc m) e =
    cc (value-digits (suc n) (suc n) (omega arith), value-digits (suc m) (suc m) (omega arith))

-- The text of a non-negative `i64` is read back.
parse-display : (n : ℕ) → n < 2 ^ 63 → parse_i64 (display_i64 (pos n)) ≡ some (pos n)
unfolding display_i64
parse-display n h =
    let (full, all_digits, exact) = display_ℕ_lem n in
    rw (parse_i64_complete (digits n n) full all_digits (omega (arith, exact)), exact)
