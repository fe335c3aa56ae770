-- ===== src/Network/Isolation.antt =====
-- A service all of whose registered keys are honest is its workloads' own.
use infernal_client_rs.Common.{◌≡◌, sym, ap, ◌∙◌}
use infernal_client_rs.Common.Int.{ℤ, IsI64}
use mathlib.Core.List.{Memᴰ}
use mathlib.Core.Path.{subst}
use infernal_client_rs.Deps.{Deps, UuidLaws, Base64Laws, Sha256Laws}
use infernal_client_rs.Verify.Refuse.{IsFresh}
use infernal_client_rs.Verify.Authentic.{Agrees}
use infernal_client_rs.Network.{Parties, EnrollmentProof, Issue, Entry, World, Reach}
use infernal_client_rs.Network.Accounts.{Accounted, Enrolled, All-Memᴰ}
use infernal_client_rs.Network.Invariant.{Reach-IsSound}

module _ ⦃d : Deps⦄ where
  open d use {Uuid}

  -- Every key that is registered for the service is in honest hands.
  abbrev pub IsTrusted : Parties → World → Uuid → Type 0
  IsTrusted ps w service =
      (r : EnrollmentProof)
      → Memᴰ r w.registered
      → r.key.service_id ≡ service
      → ps.IsHonest r.key.public_key

  -- Where an entry for a service comes from: a workload of the service that has enrolled and has
  -- issued the request
  pub record Origin (w : World) (service : Uuid) (entry : Entry) : Type 0 where
    pub enrolled : EnrollmentProof
    pub issue : Issue
    pub was_enrolled : Memᴰ enrolled w.proofs
    pub was_issued : Memᴰ issue w.issued
    pub same_key : enrolled.key ≡ issue.key
    pub of_service : issue.key.service_id ≡ service
    pub agrees : Agrees entry.request entry.answer issue.parts issue.key issue.created issue.expires
    pub fresh : IsFresh issue.created issue.expires entry.at

  module _ (uuid : UuidLaws) (base64 : Base64Laws) (sha : Sha256Laws) (ps : Parties) where
    -- In every world that is reached from an i64 clock, if all the keys registered for a service
    -- are honest, whatever the server has accepted in the name of that service was issued by a
    -- workload that had enrolled for the service under the very key it signed with, agrees with
    -- what that workload issued, and was fresh: no other party, with whatever keys for other
    -- services, gets a request accepted in its name.
    pub Reach-Origin :
        {t : ℤ} {w : World} (service : Uuid) (entry : Entry)
        → IsI64 t
        → Reach ps t w
        → IsTrusted ps w service
        → Memᴰ entry w.accepted
        → entry.answer.service_id ≡ service
        → Origin w service entry
    Reach-Origin {w = w} service entry ht r trusted mem of_service =
        let sound = Reach-IsSound uuid base64 sha ps ht r in
        let a = All-Memᴰ (Accounted ps w.registered w.issued) mem sound.accounted in
        let (p, registered, key) = a.member in
        let service_of : p.key.service_id ≡ service =
          ap (λ k. k.service_id) (key ∙ sym a.attested) ∙ of_service in
        let honest = trusted p registered service_of in
        let (i, issued, from, agrees) =
          a.backed (subst ps.IsHonest (ap (λ k. k.public_key) key) honest) in
        let (q, enrolled, same) =
          All-Memᴰ (Enrolled ps w.proofs) registered sound.enrolled honest in
        let key_q : q.key ≡ i.key = sym (ap (λ x. x.key) same) ∙ key ∙ from in
        record {
          enrolled = q;
          issue = i;
          was_enrolled = enrolled;
          was_issued = issued;
          same_key = key_q;
          of_service = ap (λ k. k.service_id) (sym (key ∙ from)) ∙ service_of;
          agrees = agrees;
          fresh = rw (← agrees.created, ← agrees.expires) a.fresh;
        }
