-- ===== src/Call.antt =====
-- Calls that change the world outside and may fail: what an exchange has done stays done when the
-- call goes on to fail, so the world comes back beside the error too.
use infernal_client_rs.Error.{Result, ok, err}

abbrev pub Call : Type 0 → Type 0 → Type 0
Call W A = W → Result A × W

module _ {W A : Type 0} where
  -- A step that leaves the world alone
  abbrev pub lift : Result A → Call W A
  lift r w = (r, w)

module _ {W A B : Type 0} where
  abbrev continue : Result A → (A → Call W B) → Call W B
  continue (ok a) f w = f a w
  continue (err e) f w = (err e, w)

  infixl 5 ◌>>=◌
  abbrev pub ◌>>=◌ : Call W A → (A → Call W B) → Call W B
  ◌>>=◌ m f w = let (r, w') = m w in continue r f w'

module _ {W B : Type 0} where
  infixl 5 ◌>>◌
  abbrev pub ◌>>◌ : Call W (Unit {0}) → Call W B → Call W B
  check >> next = check >>= λ _. next
