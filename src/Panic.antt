-- ===== src/Panic.antt =====
-- Runs that may panic: arithmetic that overflows where overflow is checked, and slices out of range
-- or inside a character.
use infernal_client_rs.Common.{
  ℕ, ◌+◌, ◌^◌, ◌<◌, ◌≡◌, refl, Bool, true, false, Option, none, some, ◌&&◌, ltb, leb, if◌then◌else◌,
  arith,
}
use infernal_client_rs.Common.Int.{ℤ, ◌-ℤ◌, pos_part, neg_part, IsI64}
use infernal_client_rs.Error
use infernal_client_rs.Error.{Result, ok, err}

pub data Run {ℓ} (A : Type ℓ) : Type ℓ where
  finished : Result A → Run A
  panicked : Run A

-- `?` on the result of a run that is finished; a panic ends all.
infixl 5 ◌>>=◌ ◌>>◌
abbrev pub ◌>>=◌ {ℓ κ} : {A : Type ℓ} {B : Type κ} → Run A → (A → Run B) → Run B
panicked >>= next = panicked
finished (err e) >>= next = finished (err e)
finished (ok a) >>= next = next a

abbrev pub ◌>>◌ {ℓ} : {B : Type ℓ} → Run (Unit {0}) → Run B → Run B
check >> next = check >>= λ _. next

-- An operation that panics where it has no value
abbrev pub or_panic {ℓ} : {A : Type ℓ} → Option A → Run A
or_panic none = panicked
or_panic (some a) = finished (ok a)

-- `a || b`, where `b` is run only if `a` is false
abbrev pub or_else : Bool → Run Bool → Run Bool
or_else true b = finished (ok true)
or_else false b = b

-- `a + b` on `usize`, checked
unfoldable pub add_usize : ℕ → ℕ → Run ℕ
add_usize a b = if ltb (a + b) (2 ^ 64) then finished (ok (a + b)) else panicked

-- `a - b` on `i64`, checked
unfoldable pub sub_i64_checked : ℤ → ℤ → Run ℤ
unfolding ◌-ℤ◌
sub_i64_checked a b =
    let d = a -ℤ b in
    if ltb (pos_part d) (2 ^ 63) && leb (neg_part d) (2 ^ 63) then finished (ok d) else panicked

pub add_usize_lem : (a b : ℕ) → a + b < 2 ^ 64 → add_usize a b ≡ finished (ok (a + b))
unfolding add_usize
add_usize_lem a b h = ground arith

-- Where the difference is an `i64` there is no panic.
pub sub_i64_checked_lem : (a b : ℤ) → IsI64 (a -ℤ b) → sub_i64_checked a b ≡ finished (ok (a -ℤ b))
unfolding sub_i64_checked
sub_i64_checked_lem a b h = ground arith

-- A run that is finished with a given result, and a rule for each way to make such a run
pub record Gives {ℓ} {A : Type ℓ} (run : Run A) (result : Result A) : Type ℓ where
  pub ends : run ≡ finished result

pub Gives-finished {ℓ} : {A : Type ℓ} (result : Result A) → Gives (finished result) result
Gives-finished result = record { ends = refl }

-- What comes next may use that the step has gone well.
pub Gives->>= {ℓ κ} :
    {A : Type ℓ} {B : Type κ} (run : Run A) (result : Result A) (next : A → Run B)
    (next_result : A → Result B)
    → Gives run result
    → ((a : A) → result ≡ ok a → Gives (next a) (next_result a))
    → Gives (run >>= next) (Error.◌>>=◌ result next_result)
Gives->>= run (err e) next next_result g k = record { ends = rw g.ends refl }
Gives->>= run (ok a) next next_result g k = record { ends = rw g.ends ((k a refl).ends) }

pub ruleset gives_rules = (Gives-finished, Gives->>=)
