-- ===== src/Error.antt =====
-- src/error.rs: the one error type of the crate, what it prints, and the `Result` that carries it.
-- `EnrollmentRejection` is declared in src/enrollment.rs; it stands here because the error holds it.
pub mod Text
use infernal_client_rs.Common.{
  ◌⊎◌, inl, inr, Bool, true, false, ◌≡◌, ◌↔◌, refl, ap, ◌++◌, Option, none, some,
}
use infernal_client_rs.Common.Text.{Str, codes}

-- The kernel's own sanitized error: a code and a message.
pub record EnrollmentRejection : Type 0 where
  pub code : Str
  pub message : Str

pub data ClientError : Type 0 where
  invalid_request_part : Str → ClientError
  invalid_public_key : ClientError
  invalid_signature : ClientError
  random_source : ClientError
  transport : Str → ClientError
  malformed_kernel_identity : ClientError
  invalid_trust_anchor : ClientError
  enrollment_rejected : EnrollmentRejection → ClientError
  malformed_enrollment_response : ClientError

-- `Display for ClientError`
unfoldable pub display_error : ClientError → Str
display_error (invalid_request_part field) = codes "invalid " ++ field
display_error invalid_public_key = codes "public key is not valid Ed25519"
display_error invalid_signature = codes "signature verification failed"
display_error random_source = codes "random source failed"
display_error (transport message) = codes "transport failed: " ++ message
display_error malformed_kernel_identity = codes "kernel identity response is malformed"
display_error invalid_trust_anchor = codes "extra root certificate is not valid PEM"
display_error (enrollment_rejected rejection) = codes "enrollment rejected: " ++ rejection.message
display_error malformed_enrollment_response = codes "enrollment response is malformed"

pub data Result {ℓ} (A : Type ℓ) : Type ℓ where
  ok : A → Result A
  err : ClientError → Result A

infixl 5 ◌>>=◌ ◌>>◌
abbrev pub ◌>>=◌ {ℓ κ} : {A : Type ℓ} {B : Type κ} → Result A → (A → Result B) → Result B
err e >>= next = err e
ok a >>= next = next a

abbrev pub ◌>>◌ {ℓ} : {B : Type ℓ} → Result (Unit {0}) → Result B → Result B
check >> next = check >>= λ _. next

-- `if refused { return Err(error) }`
abbrev pub refuse_if : Bool → ClientError → Result (Unit {0})
refuse_if true e = err e
refuse_if false e = ok tt

-- `Option::ok_or`, and `map_err(|_| e)` on a result whose own error is not read
abbrev pub ok_or {ℓ} : {A : Type ℓ} → Option A → ClientError → Result A
ok_or none e = err e
ok_or (some a) e = ok a

-- Inversion of a bind that succeeds, for proofs where the parts stay shut.
pub >>=-eq-ok {ℓ κ} :
    {A : Type ℓ} {B : Type κ} (step : Result A) (next : A → Result B) {result : B}
    → (step >>= next) ≡ ok result
    → (value : A) × (step ≡ ok value) × (next value ≡ ok result)
>>=-eq-ok (err e) next h = cc
>>=-eq-ok (ok value) next h = (value, refl, h)

pub ok_or-eq-ok {ℓ} :
    {A : Type ℓ} (o : Option A) (e : ClientError) {a : A} → ok_or o e ≡ ok a → o ≡ some a
ok_or-eq-ok none e h = cc
ok_or-eq-ok (some b) e h = cc

pub ok_or->>=-eq-ok {ℓ κ} :
    {A : Type ℓ} {B : Type κ} (o : Option A) (e : ClientError) (f : A → Result B) {b : B}
    → (ok_or o e >>= f) ≡ ok b
    → (a : A) × (o ≡ some a) × (f a ≡ ok b)
ok_or->>=-eq-ok none e f h = cc
ok_or->>=-eq-ok (some a) e f h = (a, refl, h)

pub refuse_if->>-eq-ok {ℓ} :
    {B : Type ℓ} (b : Bool) (e : ClientError) (k : Result B) {x : B}
    → (refuse_if b e >> k) ≡ ok x
    → (b ≡ false) × (k ≡ ok x)
refuse_if->>-eq-ok true e k h = cc
refuse_if->>-eq-ok false e k h = (refl, h)

pub ok-injective {ℓ} : {A : Type ℓ} {a b : A} → ok a ≡ ok b → a ≡ b
ok-injective h = cc

pub err-injective {ℓ} :
    {A : Type ℓ} {e e' : ClientError} → ◌≡◌ {A = Result A} (err e) (err e') → e ≡ e'
err-injective h = cc

-- A result that fails with one error alone, and a rule for each way to make such a result
pub record FailsWith {ℓ} {A : Type ℓ} (e : ClientError) (r : Result A) : Type ℓ where
  pub only : (x : ClientError) → r ≡ err x → x ≡ e

pub ok-FailsWith {ℓ} : {A : Type ℓ} (e : ClientError) (a : A) → FailsWith e (ok a)
ok-FailsWith e a = record { only = λ x h. cc }

pub ok_or-FailsWith {ℓ} : {A : Type ℓ} (o : Option A) (e : ClientError) → FailsWith e (ok_or o e)
ok_or-FailsWith none e = record { only = λ x h. cc }
ok_or-FailsWith (some a) e = record { only = λ x h. cc }

pub refuse_if-FailsWith : (b : Bool) (e : ClientError) → FailsWith e (refuse_if b e)
refuse_if-FailsWith true e = record { only = λ x h. cc }
refuse_if-FailsWith false e = record { only = λ x h. cc }

pub >>=-FailsWith {ℓ κ} :
    {A : Type ℓ} {B : Type κ} (e : ClientError) (step : Result A) (next : A → Result B)
    → FailsWith e step
    → ((a : A) → FailsWith e (next a))
    → FailsWith e (step >>= next)
>>=-FailsWith e (err y) next hs hn = record { only = λ x h. hs.only x (cc) }
>>=-FailsWith e (ok a) next hs hn = hn a

pub ruleset fails_rules = (ok-FailsWith, ok_or-FailsWith, refuse_if-FailsWith, >>=-FailsWith)

pub err-ne-ok {ℓ} : {A : Type ℓ} (e : ClientError) (a : A) → ¬ (err e ≡ ok a)
err-ne-ok e a h = cc

-- A result that fails with one error alone does so exactly when nothing is its value.
pub FailsWith-err_iff {ℓ κ} :
    {A : Type ℓ} {P : A → Type κ} (e : ClientError) (r : Result A)
    → FailsWith e r
    → ((a : A) → (r ≡ ok a) ↔ P a)
    → (r ≡ err e) ↔ (¬ ((a : A) × P a))
FailsWith-err_iff e (ok a) fails values = (λ h. cc, λ n. absurd (n (a, (values a).0 refl)))
FailsWith-err_iff e (err x) fails values =
    (λ h (a, p). err-ne-ok x a ((values a).1 p), λ n. ap err (fails.only x refl))

pub Result-cases {ℓ} :
    {A : Type ℓ} (r : Result A) → ((a : A) × (r ≡ ok a)) ⊎ ((e : ClientError) × (r ≡ err e))
Result-cases (ok a) = inl (a, refl)
Result-cases (err e) = inr (e, refl)

-- Steps that go on alike
pub >>=-congr {ℓ κ} :
    {A : Type ℓ} {B : Type κ} (r : Result A) {g h : A → Result B}
    → ((a : A) → g a ≡ h a)
    → (r >>= g) ≡ (r >>= h)
>>=-congr (ok a) same = same a
>>=-congr (err e) same = refl

-- Inversion of a step that fails: here, or in what comes after it
pub >>=-eq-err {ℓ κ} :
    {A : Type ℓ} {B : Type κ} (step : Result A) (next : A → Result B) {x : ClientError}
    → (step >>= next) ≡ err x
    → (step ≡ err x) ⊎ ((a : A) × (step ≡ ok a) × (next a ≡ err x))
>>=-eq-err (err e) next h = inl (cc)
>>=-eq-err (ok a) next h = inr (a, refl, h)

pub refuse_if->>-eq-err {ℓ} :
    {B : Type ℓ} (b : Bool) (e : ClientError) (rest : Result B) {x : ClientError}
    → (refuse_if b e >> rest) ≡ err x
    → ((b ≡ true) × (x ≡ e)) ⊎ ((b ≡ false) × (rest ≡ err x))
refuse_if->>-eq-err true e rest h = inl (refl, cc)
refuse_if->>-eq-err false e rest h = inr (refl, h)
