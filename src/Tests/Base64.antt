-- ===== src/Tests/Base64.antt =====
-- A concrete base64 codec without padding, over either alphabet: 6-bit groups, first bits first.
use infernal_client_rs.Common.{
  ℕ, ◌+◌, ◌-◌, ◌*◌, ◌/◌, ◌%◌, ◌<◌, ◌≤◌, ◌≡◌, ◌≢◌, ◌⊎◌, refl, [], ◌∷◌, Option, none, some, All,
  length, ltb, leb, ◌==◌, if◌then◌else◌, ◌&&◌, arith,
}
use infernal_client_rs.Common.Text.{Bytes, Str}
use infernal_client_rs.Deps.{IsBytes}

module _ (plus slash : ℕ) where
  -- The character of a 6-bit group
  six : ℕ → ℕ
  six n =
      if ltb n 26
      then n + 65
      else if ltb n 52
      then n + 71
      else if ltb n 62
      then n - 4
      else if n == 62
      then plus
      else slash

  unsix : ℕ → Option ℕ
  unsix c =
      if leb 65 c && leb c 90
      then some (c - 65)
      else if leb 97 c && leb c 122
      then some (c - 71)
      else if leb 48 c && leb c 57
      then some (c + 4)
      else if c == plus
      then some 62
      else if c == slash
      then some 63
      else none

  unfoldable pub encode : Bytes → Str
  unfolding six
  encode [] = []
  encode (a ∷ []) = six (a / 4) ∷ six (a % 4 * 16) ∷ []
  encode (a ∷ (b ∷ [])) = six (a / 4) ∷ six (a % 4 * 16 + b / 16) ∷ six (b % 16 * 4) ∷ []
  encode (a ∷ (b ∷ (c ∷ r))) =
      six (a / 4) ∷ six (a % 4 * 16 + b / 16) ∷ six (b % 16 * 4 + c / 64) ∷ six (c % 64) ∷ encode r

  infixl 5 ◌>>=◌
  abbrev ◌>>=◌ : {A B : Type 0} → Option A → (A → Option B) → Option B
  none >>= f = none
  some a >>= f = f a

  unfoldable pub decode : Str → Option Bytes
  unfolding unsix
  decode [] = some []
  decode (w ∷ []) = none
  decode (w ∷ (x ∷ [])) = do a ← unsix w; b ← unsix x; some ((a * 4 + b / 16) ∷ [])
  decode (w ∷ (x ∷ (y ∷ []))) = do
    a ← unsix w
    b ← unsix x
    c ← unsix y
    some ((a * 4 + b / 16) ∷ (b % 16 * 16 + c / 4) ∷ [])
  decode (w ∷ (x ∷ (y ∷ (z ∷ r)))) = do
    a ← unsix w
    b ← unsix x
    c ← unsix y
    e ← unsix z
    rest ← decode r
    some ((a * 4 + b / 16) ∷ (b % 16 * 16 + c / 4) ∷ (c % 4 * 64 + e) ∷ rest)

  pub length-encode : (b : Bytes) → length (encode b) ≡ (length b * 4 + 2) / 3
  unfolding encode
  length-encode [] = omega arith
  length-encode (a ∷ []) = omega arith
  length-encode (a ∷ (b ∷ [])) = omega arith
  length-encode (a ∷ (b ∷ (c ∷ r))) = omega (arith, length-encode r)

  abbrev IsChar : ℕ → Type 0
  IsChar c =
      (c ≡ plus)
      ⊎ (c ≡ slash)
      ⊎ (b'0' ≤ c) × (c ≤ b'9')
      ⊎ (b'A' ≤ c) × (c ≤ b'Z')
      ⊎ (b'a' ≤ c) × (c ≤ b'z')

  six-IsChar : (n : ℕ) → n < 64 → IsChar (six n)
  unfolding six
  six-IsChar n h = ground arith

  pub encode-IsChar : (b : Bytes) → IsBytes b → All IsChar (encode b)
  unfolding encode
  encode-IsChar [] _ = tt
  encode-IsChar (a ∷ []) (ha, _) =
      (six-IsChar (a / 4) (omega arith), (six-IsChar (a % 4 * 16) (omega arith), tt))
  encode-IsChar (a ∷ (b ∷ [])) (ha, (hb, _)) = (
    six-IsChar (a / 4) (omega arith),
    (six-IsChar (a % 4 * 16 + b / 16) (omega arith), (six-IsChar (b % 16 * 4) (omega arith), tt)),
  )
  encode-IsChar (a ∷ (b ∷ (c ∷ r))) (ha, (hb, (hc, hr))) = (
    six-IsChar (a / 4) (omega arith),
    (
      six-IsChar (a % 4 * 16 + b / 16) (omega arith),
      (
        six-IsChar (b % 16 * 4 + c / 64) (omega arith),
        (six-IsChar (c % 64) (omega arith), encode-IsChar r hr),
      ),
    ),
  )

  -- The two extra characters are no letters or digits, and differ.
  abbrev IsExtra : ℕ → Type 0
  IsExtra c = c < 48

  module _ (p : IsExtra plus) (s : (IsExtra slash) ⊎ (slash ≡ b'_')) (ne : plus ≢ slash) where
    unsix-six : (n : ℕ) → n < 64 → unsix (six n) ≡ some n
    unfolding six unsix
    unsix-six n h = ground arith

    pub decode-encode : (b : Bytes) → IsBytes b → decode (encode b) ≡ some b
    unfolding encode decode
    decode-encode [] _ = refl
    decode-encode (a ∷ []) (ha, _) =
        rw (unsix-six (a / 4) (omega arith), unsix-six (a % 4 * 16) (omega arith)) (ground arith)
    decode-encode (a ∷ (b ∷ [])) (ha, (hb, _)) =
        rw
          (
            unsix-six (a / 4) (omega arith),
            unsix-six (a % 4 * 16 + b / 16) (omega arith),
            unsix-six (b % 16 * 4) (omega arith),
          )
          (ground arith)
    decode-encode (a ∷ (b ∷ (c ∷ r))) (ha, (hb, (hc, hr))) =
        rw
          (
            unsix-six (a / 4) (omega arith),
            unsix-six (a % 4 * 16 + b / 16) (omega arith),
            unsix-six (b % 16 * 4 + c / 64) (omega arith),
            unsix-six (c % 64) (omega arith),
            decode-encode r hr,
          )
          (ground arith)
