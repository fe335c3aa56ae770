-- ===== src/Network/Accounts.antt =====
-- What is accounted for in a world: who signed what was registered, and what was accepted.
use infernal_client_rs.Common.{◌≡◌, sym, ◌∙◌, List, All}
use infernal_client_rs.Common.Int.{IsI64}
use infernal_client_rs.Common.Text.{utf8}
use mathlib.Core.List.{Memᴰ}
use infernal_client_rs.Deps.{Deps}
use infernal_client_rs.Credential.{ClientPublicKey}
use infernal_client_rs.Verify.Refuse.{IsFresh}
use infernal_client_rs.Verify.Authentic.{IsSigned, Agrees}
use infernal_client_rs.Network.{Parties, EnrollmentProof, Issue, Entry, World, IsProper, IsMember}
use infernal_client_rs.Network.Channel.{Application}

module _ ⦃d : Deps⦄ where
  open d use {sha256}

  abbrev pub WasSigned : Issue → Type 0
  WasSigned i = IsSigned i.parts i.created i.expires i.nonce

  -- The key that an answer attests to, with the public key it was checked under
  abbrev pub answered_key : Entry → ClientPublicKey
  answered_key entry = record {
    service_id = entry.answer.service_id;
    instance_id = entry.answer.instance_id;
    key_id = entry.answer.key_id;
    public_key = entry.key.public_key;
  }

  -- A request that was issued under the entry's key and stands behind the entry
  abbrev pub Backed : List Issue → Entry → Type 0
  Backed issued entry =
      (i : Issue) × Memᴰ i issued
      × (entry.key ≡ i.key)
      × Agrees entry.request entry.answer i.parts i.key i.created i.expires

  pub record Accounted (ps : Parties) (registered : List EnrollmentProof) (issued : List Issue)
      (entry : Entry) : Type 0 where
    pub member : IsMember registered entry.key
    pub attested : answered_key entry ≡ entry.key
    pub fresh : IsFresh entry.answer.created entry.answer.expires entry.at
    pub backed : ps.IsHonest entry.key.public_key → Backed issued entry

  -- What an enrollment covers
  abbrev pub application_of : EnrollmentProof → Application
  application_of p = record {
    key = p.key;
    challenge = p.challenge;
    endpoint = p.endpoint;
    pod_uid = p.pod_uid;
    token_digest = sha256 (utf8 p.token);
  }

  -- The holder of an honest key has signed for all that was registered with it.
  abbrev pub Enrolled : Parties → List EnrollmentProof → EnrollmentProof → Type 0
  Enrolled ps proofs r =
      ps.IsHonest r.key.public_key
      → (p : EnrollmentProof) × Memᴰ p proofs × (application_of r ≡ application_of p)

  pub record IsSound (ps : Parties) (w : World) : Type 0 where
    pub clock : IsI64 w.now
    pub proper : All IsProper w.proofs
    pub enrolled : All (Enrolled ps w.proofs) w.registered
    pub signed : All WasSigned w.issued
    pub accounted : All (Accounted ps w.registered w.issued) w.accepted

  pub All-Memᴰ {ℓ κ} :
      {A : Type ℓ} (P : A → Type κ) {x : A} {xs : List A} → Memᴰ x xs → All P xs → P x
  All-Memᴰ P (Memᴰ.head e) (h, _) = rw e h
  All-Memᴰ P (Memᴰ.tail m) (_, hs) = All-Memᴰ P m hs

  -- A key with the same public key that agrees with the answer is the key of the entry.
  pub same_key :
      (entry : Entry) (i : Issue)
      → answered_key entry ≡ entry.key
      → i.key.public_key ≡ entry.key.public_key
      → Agrees entry.request entry.answer i.parts i.key i.created i.expires
      → entry.key ≡ i.key
  same_key entry i attested public a = sym attested ∙ (λ j. record {
    service_id = a.service_id j;
    instance_id = a.instance_id j;
    key_id = a.key_id j;
    public_key = sym public j;
  })
