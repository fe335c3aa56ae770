-- ===== src/Network/Refinement.antt =====
-- The workloads, the kernel, the network and the server implement the channel.
use infernal_client_rs.Common.{◌≡◌, sym, ◌∙◌, ap, List, ◌∷◌, map}
use infernal_client_rs.Common.Int.{ℤ, IsI64}
use mathlib.Core.List.{Memᴰ}
use mathlib.Core.Path.{subst}
use infernal_client_rs.Deps.{Deps, UuidLaws, Base64Laws, Sha256Laws}
use infernal_client_rs.Credential.{ClientPublicKey}
use infernal_client_rs.Verify.{IncomingRequest, VerifiedRequest}
use infernal_client_rs.Verify.Authentic.{Agrees}
use infernal_client_rs.Network.{
  EnrollmentProof, proof_of, enroll, register, Parties, Issue, Entry, World, tick, issue, accept,
  refuse, Reach, start, later,
}
use infernal_client_rs.Network.Channel.{
  Message, Channel, ChannelStep, pass, apply, admit, send, receive, ChannelReach, opened, further,
}
use infernal_client_rs.Network.Accounts.{application_of, answered_key, Accounted, Enrolled}
use infernal_client_rs.Network.Invariant.{Reach-IsSound, registered-Enrolled, accepted-Accounted}

module _ ⦃d : Deps⦄ where
  open d use {sha256}

  abbrev pub issued_message : Issue → Message
  issued_message i = record {
    from = i.key;
    method = i.parts.method;
    authority = i.parts.authority;
    path_and_query = i.parts.path_and_query;
    content_type = i.parts.content_type;
    request_id = i.parts.request_id;
    digest = sha256 i.parts.body;
    created = i.created;
    expires = i.expires;
  }

  abbrev pub received_message : Entry → Message
  received_message entry = record {
    from = answered_key entry;
    method = entry.request.parts.method;
    authority = entry.request.parts.authority;
    path_and_query = entry.request.parts.path_and_query;
    content_type = entry.request.parts.content_type;
    request_id = entry.request.parts.request_id;
    digest = sha256 entry.request.parts.body;
    created = entry.answer.created;
    expires = entry.answer.expires;
  }

  -- The channel that a world stands for
  abbrev pub channel_of : World → Channel
  channel_of w = record {
    now = w.now;
    applied = map application_of w.proofs;
    members = map application_of w.registered;
    sent = map issued_message w.issued;
    received = map (λ entry. (received_message entry, entry.at)) w.accepted;
  }

  same_message :
      (entry : Entry) (i : Issue)
      → answered_key entry ≡ i.key
      → Agrees entry.request entry.answer i.parts i.key i.created i.expires
      → received_message entry ≡ issued_message i
  same_message entry i from a = λ j. record {
    from = from j;
    method = a.method j;
    authority = a.authority j;
    path_and_query = a.path_and_query j;
    content_type = a.content_type j;
    request_id = a.request_id j;
    digest = a.body_digest j;
    created = a.created j;
    expires = a.expires j;
  }

  map-Memᴰ {ℓ κ} :
      {A : Type ℓ} {B : Type κ} (f : A → B) {x : A} {xs : List A}
      → Memᴰ x xs
      → Memᴰ (f x) (map f xs)
  map-Memᴰ f (Memᴰ.head e) = Memᴰ.head (ap f e)
  map-Memᴰ f (Memᴰ.tail m) = Memᴰ.tail (map-Memᴰ f m)

  module _ (uuid : UuidLaws) (base64 : Base64Laws) (sha : Sha256Laws) (ps : Parties) where
    -- A proof that is enrolled is an application that the channel may admit.
    admits :
        (w : World) (r : EnrollmentProof)
        → Enrolled ps w.proofs r
        → ChannelStep ps.IsHonest
            (channel_of w)
            (channel_of (record w { registered = r ∷ w.registered }))
    admits w r enrolled = admit (application_of r) λ honest.
        let (p, mem, same) = enrolled honest in
        subst (λ a. Memᴰ a (map application_of w.proofs)) (sym same) (map-Memᴰ application_of mem)

    -- An entry that is accounted for is a message that the channel may deliver.
    receives :
        (w : World) (key : ClientPublicKey) (request : IncomingRequest) (v : VerifiedRequest)
        → let entry : Entry = record { key = key; request = request; answer = v; at = w.now } in
          Accounted ps w.registered w.issued entry
          → ChannelStep ps.IsHonest
              (channel_of w)
              (channel_of (record w { accepted = entry ∷ w.accepted }))
    receives w key request v a =
        let entry : Entry = record { key = key; request = request; answer = v; at = w.now } in
        let (p, member, same) = a.member in
        let delivered = λ (honest : ps.IsHonest key.public_key).
          let (i, mem, from, agrees) = a.backed honest in
          subst (λ m. Memᴰ m (map issued_message w.issued))
            (sym (same_message entry i (a.attested ∙ from) agrees)) (map-Memᴰ issued_message mem) in
        receive (received_message entry) (application_of p) (map-Memᴰ application_of member)
          (same ∙ sym a.attested) delivered a.fresh

    -- Whatever the workloads, the kernel, the network and the server get to by any interleaving,
    -- from a clock that is an i64, the channel gets to as well: enrollments that are signed are its
    -- applications, what the kernel registers its members, requests that are issued its messages
    -- sent, and requests that are accepted its messages received. So an honest key becomes a member
    -- only as its holder has applied, messages are received only while fresh and only from members,
    -- and from an honest key only what its holder has sent.
    pub Reach-ChannelReach :
        {t : ℤ} {w : World} → IsI64 t → Reach ps t w → ChannelReach ps.IsHonest t (channel_of w)
    Reach-ChannelReach ht start = opened
    Reach-ChannelReach ht (later r (tick t _ le)) = further (Reach-ChannelReach ht r) (pass t le)
    Reach-ChannelReach ht (later r (enroll credential challenge endpoint pod_uid token _ _ _)) =
        further (Reach-ChannelReach ht r) (apply _)
    Reach-ChannelReach ht (later {w} r (register submission v proper unforged)) =
        let sound = Reach-IsSound uuid base64 sha ps ht r in
        further (Reach-ChannelReach ht r) (
          admits w (proof_of submission v)
            (registered-Enrolled uuid base64 sha ps w submission v sound proper unforged))
    Reach-ChannelReach ht (later r (issue i signed _ _ _ _)) =
        further (Reach-ChannelReach ht r) (send (issued_message i))
    Reach-ChannelReach ht (later {w} r (accept key request v member valid can h)) =
        let sound = Reach-IsSound uuid base64 sha ps ht r in
        further (Reach-ChannelReach ht r) (
          receives w key request v
            (accepted-Accounted uuid base64 sha ps w key request v sound member valid can h))
    Reach-ChannelReach ht (later r (refuse key request e h)) = Reach-ChannelReach ht r
