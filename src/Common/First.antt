-- ===== src/Common/First.antt =====
-- What `split_once` finds: the first place where the delimiter stands.
use infernal_client_rs.Common.Tests.{Option-cases}
use infernal_client_rs.Common.Lists.{length, append_split, append_cancel}
use infernal_client_rs.Common.Text.{Str, strip_prefix, split_once}
use infernal_client_rs.Common.Split.{strip_prefix-append, split_once_sound}
use Prim.Native.Nat.{◌≤◌}
use mathlib.Core.Path.{◌≡◌, sym, ap, ◌∙◌}
use mathlib.Core.Logic.{◌↔◌, inl, inr}
use mathlib.Core.List.{[], ◌∷◌, ◌++◌}
use mathlib.Core.Option.{none, some}
use native.Mathlib.Omega.{arith}

-- `s` is `a`, `d` and `b`, and `d` does not stand before the end of `a`.
abbrev pub IsFirst : Str → Str → Str → Str → Type 0
IsFirst s d a b = (s ≡ a ++ (d ++ b)) × ((x y : Str) → s ≡ x ++ (d ++ y) → length a ≤ length x)

strip_prefix-none : (s d y : Str) → strip_prefix s d ≡ none → ¬ (s ≡ d ++ y)
strip_prefix-none s d y h e =
    let read : strip_prefix s d ≡ some y = ap (λ t. strip_prefix t d) e ∙ strip_prefix-append d y in
    cc

-- Nothing that `split_once` finds stands further back.
split_once_first :
    (s d : Str) {a b : Str}
    → split_once s d ≡ some (a, b)
    → (x y : Str) → s ≡ x ++ (d ++ y)
    → length a ≤ length x
unfolding split_once
split_once_first [] d {a} {b} h x y e = elim (Option-cases (strip_prefix [] d)) [
  | inl f ↦ cc
  | inr (r, f) ↦ ground arith
]
split_once_first (c ∷ s) d {a} {b} h [] y e = elim (Option-cases (strip_prefix (c ∷ s) d)) [
  | inl f ↦ absurd (strip_prefix-none (c ∷ s) d y f e)
  | inr (r, f) ↦ ground arith
]
split_once_first (c ∷ s) d {a} {b} h (z ∷ x) y e = elim (Option-cases (strip_prefix (c ∷ s) d)) [
  | inr (r, f) ↦ ground arith
  | inl f ↦ elim (Option-cases (split_once s d)) [
    | inl g ↦ cc
    | inr ((p, q), g) ↦ let shorter = split_once_first s d g x y (cc) in ground (arith, shorter)
  ]
]

split_once-none : (s d x y : Str) → split_once s d ≡ none → ¬ (s ≡ x ++ (d ++ y))
unfolding split_once
split_once-none [] d [] y h e = elim (Option-cases (strip_prefix [] d)) [
  | inl f ↦ absurd (strip_prefix-none [] d y f e)
  | inr (r, f) ↦ ground arith
]
split_once-none (c ∷ s) d [] y h e = elim (Option-cases (strip_prefix (c ∷ s) d)) [
  | inl f ↦ absurd (strip_prefix-none (c ∷ s) d y f e)
  | inr (r, f) ↦ ground arith
]
split_once-none [] d (z ∷ x) y h e = cc
split_once-none (c ∷ s) d (z ∷ x) y h e = elim (Option-cases (strip_prefix (c ∷ s) d)) [
  | inr (r, f) ↦ ground arith
  | inl f ↦ elim (Option-cases (split_once s d)) [
    | inl g ↦ split_once-none s d x y g (cc)
    | inr (p, g) ↦ ground arith
  ]
]

pub split_once_iff : (s d a b : Str) → (split_once s d ≡ some (a, b)) ↔ IsFirst s d a b
split_once_iff s d a b = (
  λ h. (split_once_sound s d h, split_once_first s d h),
  λ (e, least). elim (Option-cases (split_once s d)) [
    | inl f ↦ absurd (split_once-none s d a b f e)
    | inr ((p, q), f) ↦
        let e' = split_once_sound s d f in
        let (same, rest) =
          append_split p a (d ++ q) (d ++ b)
            (omega (arith, split_once_first s d f a b e, least p q e')) (sym e' ∙ e) in
        let same' : q ≡ b = append_cancel d q b rest in f ∙ rw (same, same')
  ],
)
