-- ===== src/Common/Trim.antt =====
-- `trim` against itself.
use infernal_client_rs.Common.Tests.{Bool-cases}
use infernal_client_rs.Common.Lists.{is_empty}
use infernal_client_rs.Common.Text.{Str, is_whitespace, trim, trim_start, trim_end}
use mathlib.Core.Path.{◌≡◌, refl, ap, ◌∙◌}
use mathlib.Core.Logic.{inl, inr}
use mathlib.Core.Bool.{◌&&◌}
use mathlib.Core.List.{[], ◌∷◌}

trim_end_idem : (s : Str) → trim_end (trim_end s) ≡ trim_end s
unfolding trim_end
trim_end_idem [] = refl
trim_end_idem (c ∷ s) = elim (Bool-cases (is_whitespace c && is_empty (trim_end s))) [
  | inl e ↦ rw e
  | inr e ↦ rw (e, trim_end_idem s, e)
]

-- What is left at the start begins with no blank, and keeps that at the end.
trim_start-trim_end : (s : Str) → trim_start (trim_end (trim_start s)) ≡ trim_end (trim_start s)
unfolding trim_start trim_end
trim_start-trim_end [] = refl
trim_start-trim_end (c ∷ s) = elim (Bool-cases (is_whitespace c)) [
  | inl e ↦ rw e (trim_start-trim_end s)
  | inr e ↦ rw (e, e, e)
]

-- A trimmed text has nothing left to trim.
pub trim_idem : (s : Str) → trim (trim s) ≡ trim s
unfolding trim
trim_idem s = ap trim_end (trim_start-trim_end s) ∙ trim_end_idem (trim_start s)
