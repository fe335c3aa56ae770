-- ===== src/Common/Lists.antt =====
-- Lists of numbers: lengths, tests on every element, predicates by recursion, equality, and the
-- cancellation laws of `++` that the layouts of this program are read back by.
use Prim.Native.Nat.{ℕ, zero, suc, ◌+◌}
use mathlib.Core.Path.{◌≡◌, refl, ap₂}
use mathlib.Core.Logic.{◌≢◌, ◌↔◌, inl, inr}
use mathlib.Core.Bool.{Bool, true, false, ◌&&◌, ◌||◌}
use mathlib.Core.List.{List, [], ◌∷◌, ◌++◌}
use native.Mathlib.Omega.{arith}
use infernal_client_rs.Common.Tests.{◌==◌, Bool-cases}

module _ {ℓ} {A : Type ℓ} where
  abbrev pub length : List A → ℕ
  length [] = 0
  length (x ∷ xs) = suc (length xs)

  pub length-append : (xs ys : List A) → length (xs ++ ys) ≡ length xs + length ys
  length-append [] ys = omega arith
  length-append (x ∷ xs) ys = omega (arith, length-append xs ys)

  abbrev pub replicate : ℕ → A → List A
  replicate zero a = []
  replicate (suc n) a = a ∷ replicate n a

  abbrev pub is_empty : List A → Bool
  is_empty [] = true
  is_empty (x ∷ xs) = false

  -- `iter().all(p)` and `iter().any(p)`
  unfoldable pub all : (A → Bool) → List A → Bool
  all p [] = true
  all p (x ∷ xs) = p x && all p xs

  unfoldable pub any : (A → Bool) → List A → Bool
  any p [] = false
  any p (x ∷ xs) = p x || any p xs

  abbrev pub All {κ} : (A → Type κ) → List A → Type κ
  All P [] = Unit {κ}
  All P (x ∷ xs) = P x × All P xs

module _ {ℓ} {A : Type ℓ} where
  pub All-append {κ} : (P : A → Type κ) (xs ys : List A) → All P xs → All P ys → All P (xs ++ ys)
  All-append P [] ys _ hy = hy
  All-append P (x ∷ xs) ys (px, hx) hy = (px, All-append P xs ys hx hy)

  -- A label, a text and a rest
  pub All-labelled {κ} :
      (P : A → Type κ) (label s rest : List A)
      → All P label
      → All P s
      → All P rest
      → All P (label ++ (s ++ rest))
  All-labelled P label s rest hl hs hr =
      All-append P label (s ++ rest) hl (All-append P s rest hs hr)

  pub all-append : (p : A → Bool) (xs ys : List A) → all p (xs ++ ys) ≡ (all p xs && all p ys)
  unfolding all
  all-append p [] ys = refl
  all-append p (x ∷ xs) ys = ground (arith, all-append p xs ys)

  pub All-mono {κ ν} :
      (P : A → Type κ) (Q : A → Type ν) (imp : (x : A) → P x → Q x) (xs : List A)
      → All P xs
      → All Q xs
  All-mono P Q imp [] _ = tt
  All-mono P Q imp (x ∷ xs) (px, hx) = (imp x px, All-mono P Q imp xs hx)

  -- A test on every element says the predicate that each test says.
  pub all→All {κ} :
      (p : A → Bool) (P : A → Type κ) (imp : (x : A) → p x ≡ true → P x) (xs : List A)
      → all p xs ≡ true
      → All P xs
  unfolding all
  all→All p P imp [] _ = tt
  all→All p P imp (x ∷ xs) h = elim (Bool-cases (p x)) [
    | inl t ↦ (imp x t, all→All p P imp xs (rw t at h))
    | inr f ↦ absurd (let e : false ≡ true = rw f at h in cc)
  ]

  pub All→all {κ} :
      (p : A → Bool) (P : A → Type κ) (imp : (x : A) → P x → p x ≡ true) (xs : List A)
      → All P xs
      → all p xs ≡ true
  unfolding all
  All→all p P imp [] _ = refl
  All→all p P imp (x ∷ xs) (px, hx) = rw (imp x px) (All→all p P imp xs hx)

  pub any-false→All {κ} :
      (p : A → Bool) (P : A → Type κ) (imp : (x : A) → p x ≡ false → P x) (xs : List A)
      → any p xs ≡ false
      → All P xs
  unfolding any
  any-false→All p P imp [] _ = tt
  any-false→All p P imp (x ∷ xs) h = elim (Bool-cases (p x)) [
    | inl t ↦ absurd (let e : true ≡ false = rw t at h in cc)
    | inr f ↦ (imp x f, any-false→All p P imp xs (rw f at h))
  ]

  pub All→any-false {κ} :
      (p : A → Bool) (P : A → Type κ) (imp : (x : A) → P x → p x ≡ false) (xs : List A)
      → All P xs
      → any p xs ≡ false
  unfolding any
  All→any-false p P imp [] _ = refl
  All→any-false p P imp (x ∷ xs) (px, hx) = rw (imp x px) (All→any-false p P imp xs hx)

  pub append_cancel : (p x y : List A) → p ++ x ≡ p ++ y → x ≡ y
  append_cancel [] x y h = h
  append_cancel (c ∷ p) x y h = append_cancel p x y (cc)

  -- Two texts that begin with parts of one length agree part by part.
  pub append_split : (a b x y : List A) → length a ≡ length b → a ++ x ≡ b ++ y → (a ≡ b) × (x ≡ y)
  append_split [] [] x y _ h = (refl, h)
  append_split [] (c ∷ b) x y l h = absurd (omega arith)
  append_split (c ∷ a) [] x y l h = absurd (omega arith)
  append_split (c ∷ a) (d ∷ b) x y l h =
      let (e, f) = append_split a b x y (omega arith) (cc) in
      (let e1 : c ≡ d = cc in ap₂ ◌∷◌ e1 e, f)

abbrev pub Lacks : ℕ → List ℕ → Type 0
Lacks b = All (λ c. c ≢ b)

-- Two texts that begin with parts up to the first `d` agree part by part.
pub delimited_split :
    (d : ℕ) (a b x y : List ℕ)
    → Lacks d a
    → Lacks d b
    → a ++ (d ∷ x) ≡ b ++ (d ∷ y)
    → (a ≡ b) × (x ≡ y)
delimited_split d [] [] x y _ _ h = (refl, cc)
delimited_split d [] (c ∷ b) x y _ (hc, _) h = absurd (hc (cc))
delimited_split d (c ∷ a) [] x y (hc, _) _ h = absurd (hc (cc))
delimited_split d (c ∷ a) (e ∷ b) x y (_, ha) (_, hb) h =
    let (p, q) = delimited_split d a b x y ha hb (cc) in (let e1 : c ≡ e = cc in ap₂ ◌∷◌ e1 p, q)

-- `==` on byte slices and on texts
unfoldable pub list_eq : List ℕ → List ℕ → Bool
list_eq [] [] = true
list_eq (a ∷ x) (b ∷ y) = (a == b) && list_eq x y
list_eq _ _ = false

pub list_eq_iff : (x y : List ℕ) → (list_eq x y ≡ true) ↔ (x ≡ y)
unfolding list_eq
list_eq_iff [] [] = ground arith
list_eq_iff [] (b ∷ y) = ground arith
list_eq_iff (a ∷ x) [] = ground arith
list_eq_iff (a ∷ x) (b ∷ y) = ground (arith, list_eq_iff x y)

-- Two texts made of a label, a field and a rest behind the first `d` agree field by field.
pub field_split :
    (d : ℕ) (label a b x y : List ℕ)
    → Lacks d a
    → Lacks d b
    → label ++ (a ++ (d ∷ x)) ≡ label ++ (b ++ (d ∷ y))
    → (a ≡ b) × (x ≡ y)
field_split d label a b x y ha hb e = delimited_split d a b x y ha hb (append_cancel label _ _ e)
