-- ===== src/Suite/Texts.antt =====
-- `str::contains` with a text, and `==` on lists of texts, as the tests use them.
use infernal_client_rs.Common.{
  ◌≡◌, refl, Bool, true, false, ◌&&◌, ◌||◌, List, [], ◌∷◌, ◌++◌, list_eq, arith,
}
use infernal_client_rs.Common.Text.{Str, starts_with}
use infernal_client_rs.Common.Split.{starts_with_iff}

-- `str::contains` with a text
unfoldable pub contains_text : Str → Str → Bool
contains_text [] d = starts_with [] d
contains_text (c ∷ s) d = let rest = contains_text s d in starts_with (c ∷ s) d || rest

pub contains_text-append : (a d b : Str) → contains_text (a ++ (d ++ b)) d ≡ true
unfolding contains_text starts_with
contains_text-append (c ∷ a) d b = ground (arith, contains_text-append a d b)
contains_text-append [] [] [] = refl
contains_text-append [] [] (c ∷ b) = rw ((starts_with_iff (c ∷ b) []).1 (c ∷ b, refl)) refl
contains_text-append [] (x ∷ d) b = rw ((starts_with_iff (x ∷ (d ++ b)) (x ∷ d)).1 (b, refl)) refl

pub contains_text-skip : (a s d : Str) → contains_text s d ≡ true → contains_text (a ++ s) d ≡ true
unfolding contains_text
contains_text-skip [] s d h = h
contains_text-skip (c ∷ a) s d h = ground (arith, contains_text-skip a s d h)

unfoldable pub texts_eq : List Str → List Str → Bool
texts_eq [] [] = true
texts_eq (a ∷ as_) (b ∷ bs) = list_eq a b && texts_eq as_ bs
texts_eq _ _ = false
