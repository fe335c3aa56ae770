-- ===== src/Network/Replay.antt =====
-- The server keeps no nonces, so the network may have a request accepted again and again: for how
-- long.
use infernal_client_rs.Common.Int.{ℤ, pos, ◌≤ℤ◌, ◌+ℤ◌, IsI64}
use mathlib.Core.List.{Memᴰ}
use infernal_client_rs.Deps.{Deps, UuidLaws, Base64Laws, Sha256Laws}
use infernal_client_rs.Verify.Authentic.{Agrees}
use infernal_client_rs.Verify.Refuse.{IsFresh}
use infernal_client_rs.Verify.Window.{fresh_apart}
use infernal_client_rs.Network.{Parties, Issue, Entry, World, Reach}
use infernal_client_rs.Network.Accounts.{WasSigned, Accounted, IsSound, All-Memᴰ}
use infernal_client_rs.Network.Invariant.{Reach-IsSound}

module _ ⦃d : Deps⦄ where
  -- An entry that stands for the request
  abbrev pub IsFor : Issue → Entry → Type 0
  IsFor i entry = Agrees entry.request entry.answer i.parts i.key i.created i.expires

  module _ (ps : Parties) {w : World} (sound : IsSound ps w) where
    entry-IsFresh :
        (i : Issue) (entry : Entry)
        → Memᴰ entry w.accepted
        → IsFor i entry
        → IsFresh i.created i.expires entry.at
    entry-IsFresh i entry mem a =
        let accounted = All-Memᴰ (Accounted ps w.registered w.issued) mem sound.accounted in
        rw (← a.created, ← a.expires) accounted.fresh

  -- In every world that is reached from an i64 clock, however often the network has delivered a
  -- request that was issued, all the times at which the server has accepted it lie within 40
  -- seconds: 30 of validity, and 5 of skew on either side.
  pub Reach-replays :
      UuidLaws
      → Base64Laws
      → Sha256Laws
      → (ps : Parties) {t : ℤ} {w : World} (i : Issue) (first again : Entry) → IsI64 t
      → Reach ps t w
      → Memᴰ i w.issued
      → Memᴰ first w.accepted
      → Memᴰ again w.accepted
      → IsFor i first
      → IsFor i again
      → again.at ≤ℤ first.at +ℤ pos 40
  Reach-replays uuid base64 sha ps i first again ht r issued m m' a a' =
      let sound = Reach-IsSound uuid base64 sha ps ht r in
      let (_, _, _, _, window, _) = All-Memᴰ WasSigned issued sound.signed in
      fresh_apart i.created i.expires first.at again.at window (entry-IsFresh ps sound i first m a)
        (entry-IsFresh ps sound i again m' a')
