-- ===== src/Network/Progress.antt =====
-- The network cannot be at fault alone: a request that was issued gets through.
use infernal_client_rs.Common.{◌≡◌, inr, refl, sym, ap, true, ◌∷◌}
use infernal_client_rs.Common.Int.{ℤ, IsI64}
use mathlib.Core.List.{Memᴰ}
use infernal_client_rs.Deps.{Deps, UuidLaws, Base64Laws, Sha256Laws}
use infernal_client_rs.Wire.Layout.{input_layout_injective}
use infernal_client_rs.Request.{SignedRequest}
use infernal_client_rs.Request.Signing.{signed_as}
use infernal_client_rs.Verify.Accept.{incoming_base}
use infernal_client_rs.Verify.Refuse.{IsFresh}
use infernal_client_rs.Verify.Received.{SignsFor, received_as, verified_as, received_as-ok}
use infernal_client_rs.Network.{
  Parties, Issue, Entry, World, IsMember, CanSend, accept, Reach, later,
}
use infernal_client_rs.Network.Accounts.{WasSigned, All-Memᴰ}
use infernal_client_rs.Network.Invariant.{Reach-IsSound}

module _ ⦃d : Deps⦄ where
  open d use {key_from_bytes}

  -- What a client makes of an issue, and what the server makes of that
  abbrev pub signed_issue : Parties → Issue → SignedRequest
  signed_issue ps i = signed_as i.parts i.key i.created i.expires i.nonce (ps.signer i.key)

  abbrev pub entry_of : Parties → Issue → ℤ → Entry
  entry_of ps i t = record {
    key = i.key;
    request = received_as (signed_issue ps i);
    answer = verified_as i.parts i.key i.created i.expires;
    at = t;
  }

  -- The network can deliver what was issued.
  issued-CanSend :
      (ps : Parties) (w : World) (i : Issue)
      → Memᴰ i w.issued
      → CanSend ps i.key w (received_as (signed_issue ps i))
  issued-CanSend ps w i mem parameters signature layout _ _ _ = inr (
    i,
    mem,
    refl,
    ap (incoming_base (received_as (signed_issue ps i)))
        (sym (input_layout_injective _ parameters layout)),
  )

  -- In every world that is reached from an i64 clock, a request that was issued can still be
  -- accepted while it is fresh, with its key's ids and the issued times as the answer: neither
  -- earlier deliveries nor refusals, nor other keys, stand in its way, if its key is registered and
  -- valid and the signer's signatures pass under it.
  pub Reach-accepted :
      UuidLaws
      → Base64Laws
      → Sha256Laws
      → (ps : Parties) {t : ℤ} {w : World} (i : Issue) → IsMember w.registered i.key
      → key_from_bytes i.key.public_key ≡ true
      → SignsFor i.key (ps.signer i.key)
      → IsI64 t
      → Reach ps t w
      → Memᴰ i w.issued
      → IsFresh i.created i.expires w.now
      → Reach ps t (record w { accepted = entry_of ps i w.now ∷ w.accepted })
  Reach-accepted uuid base64 sha ps {w = w} i member valid signs ht r mem fresh =
      let sound = Reach-IsSound uuid base64 sha ps ht r in
      let (parts, hc, he, h0, hw, hn) = All-Memᴰ WasSigned mem sound.signed in
      later r (
        accept i.key (received_as (signed_issue ps i))
          (verified_as i.parts i.key i.created i.expires) member parts (issued-CanSend ps w i mem)
          (received_as-ok uuid base64 i.parts i.key i.created i.expires i.nonce (ps.signer i.key)
            w.now valid signs hc he sound.clock h0 hw hn fresh))
