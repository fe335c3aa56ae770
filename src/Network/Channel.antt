-- ===== src/Network/Channel.antt =====
-- What the workloads, the kernel, the network and the server are to amount to: a channel with a list
-- of members. An honest key gets on the list only as its holder has applied, and messages are
-- delivered only while they are fresh, only from members, and from an honest key only what its
-- holder has sent.
use infernal_client_rs.Common.{◌≡◌, List, [], ◌∷◌}
use infernal_client_rs.Common.Int.{ℤ, ◌≤ℤ◌}
use infernal_client_rs.Common.Text.{Bytes, Str}
use mathlib.Core.List.{Memᴰ}
use infernal_client_rs.Deps.{Deps}
use infernal_client_rs.Credential.{ClientPublicKey}
use infernal_client_rs.Verify.Refuse.{IsFresh}

module _ ⦃d : Deps⦄ where
  open d use {Uuid}

  -- What an enrollment covers: of the token, its digest
  pub record Application : Type 0 where
    pub key : ClientPublicKey
    pub challenge : Bytes
    pub endpoint : Str
    pub pod_uid : Str
    pub token_digest : Bytes

  -- Who signed a request, and the view of it that a signature covers
  pub record Message : Type 0 where
    pub from : ClientPublicKey
    pub method : Str
    pub authority : Str
    pub path_and_query : Str
    pub content_type : Str
    pub request_id : Uuid
    pub digest : Bytes
    pub created : ℤ
    pub expires : ℤ

  pub record Channel : Type 0 where
    pub now : ℤ
    pub applied : List Application
    pub members : List Application
    pub sent : List Message
    pub received : List (Message × ℤ)

  pub data ChannelStep (IsHonest : Bytes → Type 0) (c : Channel) : Channel → Type 0 where
    pass : (t : ℤ) → c.now ≤ℤ t → ChannelStep IsHonest c (record c { now = t })
    apply : (a : Application) → ChannelStep IsHonest c (record c { applied = a ∷ c.applied })
    admit :
        (a : Application)
        → (IsHonest a.key.public_key → Memᴰ a c.applied)
        → ChannelStep IsHonest c (record c { members = a ∷ c.members })
    send : (m : Message) → ChannelStep IsHonest c (record c { sent = m ∷ c.sent })
    receive :
        (m : Message) (a : Application)
        → Memᴰ a c.members
        → a.key ≡ m.from
        → (IsHonest m.from.public_key → Memᴰ m c.sent)
        → IsFresh m.created m.expires c.now
        → ChannelStep IsHonest c (record c { received = (m, c.now) ∷ c.received })

  pub data ChannelReach (IsHonest : Bytes → Type 0) (t : ℤ) : Channel → Type 0 where
    opened :
        ChannelReach IsHonest t
          (record { now = t; applied = []; members = []; sent = []; received = [] })
    further :
        {c c' : Channel}
        → ChannelReach IsHonest t c
        → ChannelStep IsHonest c c'
        → ChannelReach IsHonest t c'
