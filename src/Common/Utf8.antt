-- ===== src/Common/Utf8.antt =====
-- `as_bytes` keeps texts apart, is the text itself on ASCII, and tests on bytes see no other text.
use infernal_client_rs.Common.Tests.{ltb, if◌then◌else◌, &&_iff}
use infernal_client_rs.Common.Lists.{all, All, all-append, all→All, All→all, All-mono}
use infernal_client_rs.Common.Text.{Str, Bytes, utf8, utf8_char}
use Prim.Native.Nat.{ℕ, ◌+◌, ◌-◌, ◌*◌, ◌/◌, ◌<◌, ◌≤◌}
use mathlib.Core.Path.{◌≡◌, refl, ap, ap₂, sym, ◌∙◌}
use mathlib.Core.Logic.{◌≢◌, ◌⊎◌, ◌↔◌}
use mathlib.Core.Bool.{Bool, true}
use mathlib.Core.List.{[], ◌∷◌, ◌++◌, append_assoc}
use native.Mathlib.Omega.{arith}

-- A Unicode scalar value: what a `char` may be.
abbrev pub IsScalar : ℕ → Type 0
IsScalar c = (c < 0x11_0000) × ((c < 0xd800) ⊎ (0xe000 ≤ c))

abbrev pub IsAscii : ℕ → Type 0
IsAscii c = c < 0x80

utf8-append : (s t : Str) → utf8 (s ++ t) ≡ utf8 s ++ utf8 t
unfolding utf8
utf8-append [] t = refl
utf8-append (c ∷ s) t = simp (utf8-append s t, append_assoc)

-- The number that a byte leads in is read back from the bytes: lengths by the first byte.
abbrev lead : Bytes → ℕ × Bytes
lead [] = (0, [])
lead (a ∷ r) = if ltb a 0x80 then (a, r) else lead2 a r
  where
    lead4 : ℕ → ℕ → ℕ → Bytes → ℕ × Bytes
    lead4 a b c [] = (0, [])
    lead4 a b c (d ∷ r) =
        ((a - 0xf0) * 262144 + (b - 0x80) * 4096 + (c - 0x80) * 64 + (d - 0x80), r)

    lead3 : ℕ → ℕ → Bytes → ℕ × Bytes
    lead3 a b [] = (0, [])
    lead3 a b (c ∷ r) =
        if ltb a 0xf0 then ((a - 0xe0) * 4096 + (b - 0x80) * 64 + (c - 0x80), r) else lead4 a b c r

    lead2 : ℕ → Bytes → ℕ × Bytes
    lead2 a [] = (0, [])
    lead2 a (b ∷ r) = if ltb a 0xe0 then ((a - 0xc0) * 64 + (b - 0x80), r) else lead3 a b r

lead-utf8_char : (c : ℕ) (r : Bytes) → c < 0x11_0000 → lead (utf8_char c ++ r) ≡ (c, r)
unfolding utf8_char
lead-utf8_char c r h = ground arith

utf8_char-ne-nil : (c : ℕ) (r : Bytes) → utf8_char c ++ r ≢ []
unfolding utf8_char
utf8_char-ne-nil c r = ground arith

-- Different texts have different bytes.
pub utf8_injective :
    (s t : Str) → All (λ c. c < 0x11_0000) s → All (λ c. c < 0x11_0000) t → utf8 s ≡ utf8 t → s ≡ t
unfolding utf8
utf8_injective [] [] _ _ _ = refl
utf8_injective [] (d ∷ t) _ (hd, _) e = absurd (utf8_char-ne-nil d (utf8 t) (sym e))
utf8_injective (c ∷ s) [] (hc, _) _ e = absurd (utf8_char-ne-nil c (utf8 s) e)
utf8_injective (c ∷ s) (d ∷ t) (hc, hs) (hd, ht) e =
    let same : ◌≡◌ {A = ℕ × Bytes} (c, utf8 s) (d, utf8 t) =
      sym (lead-utf8_char c (utf8 s) hc) ∙ ap lead e ∙ lead-utf8_char d (utf8 t) hd in
    ap₂ ◌∷◌ (ap (λ p. p.0) same) (utf8_injective s t hs ht (ap (λ p. p.1) same))

-- On ASCII the bytes are the code points.
pub utf8_ascii : (s : Str) → All IsAscii s → utf8 s ≡ s
unfolding utf8 utf8_char
utf8_ascii [] _ = refl
utf8_ascii (c ∷ s) (hc, hs) = ground (arith, utf8_ascii s hs)

-- A test that only ASCII bytes pass is passed by the bytes of ASCII texts alone.
module _ (p : ℕ → Bool) (ascii : (b : ℕ) → p b ≡ true → IsAscii b) where
  char-IsAscii : (c : ℕ) → all p (utf8_char c) ≡ true → IsAscii c
  unfolding all utf8_char
  char-IsAscii c h =
      ground
        (arith, ascii c, ascii (0xc0 + c / 64), ascii (0xe0 + c / 4096), ascii (0xf0 + c / 262144))

  all-utf8 : (s : Str) → all p (utf8 s) ≡ true → All IsAscii s
  unfolding utf8
  all-utf8 [] _ = tt
  all-utf8 (c ∷ s) h =
      let (hc, hs) = (&&_iff _ _).0 (sym (all-append p (utf8_char c) (utf8 s)) ∙ h) in
      (char-IsAscii c hc, all-utf8 s hs)

-- Such a test on the bytes is the predicate that it decides, on the characters.
module _ (p : ℕ → Bool) (P : ℕ → Type 0) (sound : (b : ℕ) → p b ≡ true → P b)
    (complete : (b : ℕ) → P b → p b ≡ true) (ascii : (b : ℕ) → P b → IsAscii b) where
  pub all-utf8_iff : (s : Str) → (all p (utf8 s) ≡ true) ↔ All P s
  all-utf8_iff s = (
    λ h. all→All p P sound s (rw (utf8_ascii s (all-utf8 p (λ b e. ascii b (sound b e)) s h)) at h),
    λ h. rw (utf8_ascii s (All-mono P IsAscii ascii s h)) (All→all p P complete s h),
  )
