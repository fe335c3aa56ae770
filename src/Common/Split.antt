-- ===== src/Common/Split.antt =====
-- `strip_prefix`, `strip_suffix` and `split_once` against concatenation.
use infernal_client_rs.Common.Tests.{Option-cases}
use infernal_client_rs.Common.Lists.{Lacks}
use infernal_client_rs.Common.Text.{Str, strip_prefix, strip_suffix, split_once, starts_with}
use Prim.Native.Nat.{ℕ}
use mathlib.Core.Path.{◌≡◌, refl}
use mathlib.Core.Logic.{◌↔◌, inl, inr}
use mathlib.Core.Bool.{true}
use mathlib.Core.List.{[], ◌∷◌, ◌++◌}
use mathlib.Core.Option.{some}
use native.Mathlib.Omega.{arith}

pub strip_prefix-append : (d s : Str) → strip_prefix (d ++ s) d ≡ some s
unfolding strip_prefix
strip_prefix-append [] s = refl
strip_prefix-append (c ∷ d) s = ground (arith, strip_prefix-append d s)

pub strip_prefix_sound : (s d : Str) {r : Str} → strip_prefix s d ≡ some r → s ≡ d ++ r
unfolding strip_prefix
strip_prefix_sound s [] h = cc
strip_prefix_sound [] (d ∷ ds) h = cc
strip_prefix_sound (c ∷ s) (d ∷ ds) {r} h = ground (arith, strip_prefix_sound s ds {r = r})

pub starts_with_iff : (s d : Str) → (starts_with s d ≡ true) ↔ ((r : Str) × (s ≡ d ++ r))
unfolding starts_with
starts_with_iff s d = (
  λ h. elim (Option-cases (strip_prefix s d)) [
    | inl e ↦ cc (rw (e, starts_with) at h)
    | inr (r, e) ↦ (r, strip_prefix_sound s d e)
  ],
  λ (r, e). rw (e, starts_with, strip_prefix-append d r) refl,
)

pub strip_suffix-append : (s : Str) (d : ℕ) → strip_suffix (s ++ d ∷ []) d ≡ some s
unfolding strip_suffix
strip_suffix-append [] d = ground arith
strip_suffix-append (c ∷ []) d = ground arith
strip_suffix-append (c ∷ (e ∷ s)) d = rw (strip_suffix-append (e ∷ s) d)

pub strip_suffix_sound : (s : Str) (d : ℕ) {r : Str} → strip_suffix s d ≡ some r → s ≡ r ++ d ∷ []
unfolding strip_suffix
strip_suffix_sound [] d h = cc
strip_suffix_sound (c ∷ []) d h = ground arith
strip_suffix_sound (c ∷ (e ∷ s)) d h = elim (Option-cases (strip_suffix (e ∷ s) d)) [
  | inl f ↦ ground arith
  | inr (q, f) ↦ ground (arith, strip_suffix_sound (e ∷ s) d f)
]

-- A delimiter whose first character the text before it lacks is found behind that text.
pub split_once-append :
    (a : Str) (d : ℕ) (ds b : Str)
    → Lacks d a
    → split_once (a ++ (d ∷ ds ++ b)) (d ∷ ds) ≡ some (a, b)
unfolding split_once
split_once-append [] d ds b _ = ground (arith, strip_prefix-append ds b)
split_once-append (c ∷ a) d ds b (hc, ha) = ground (arith, split_once-append a d ds b ha)

pub split_once_sound : (s d : Str) {a b : Str} → split_once s d ≡ some (a, b) → s ≡ a ++ (d ++ b)
unfolding split_once
split_once_sound [] d {a} {b} h = elim (Option-cases (strip_prefix [] d)) [
  | inl e ↦ cc
  | inr (r, e) ↦ ground (arith, strip_prefix_sound [] d e)
]
split_once_sound (c ∷ s) d {a} {b} h = elim (Option-cases (strip_prefix (c ∷ s) d)) [
  | inr (r, e) ↦ ground (arith, strip_prefix_sound (c ∷ s) d e)
  | inl e ↦ elim (Option-cases (split_once s d)) [
    | inl f ↦ ground arith
    | inr ((x, y), f) ↦ ground (arith, split_once_sound s d f)
  ]
]
