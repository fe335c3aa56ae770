-- ===== src/Network/Invariant.antt =====
-- What holds in every world that the workloads, the kernel, the network and the server get to.
use infernal_client_rs.Common.{◌≡◌, List, ◌∷◌, All-mono}
use infernal_client_rs.Common.Int.{ℤ, IsI64}
use mathlib.Core.List.{Memᴰ}
use infernal_client_rs.Error.{ok}
use infernal_client_rs.Deps.{Deps, UuidLaws, Base64Laws, Sha256Laws}
use infernal_client_rs.Credential.{ClientPublicKey}
use infernal_client_rs.Request.Parts.{IsValid}
use infernal_client_rs.Request.Signing.{sign_with-ok_iff}
use infernal_client_rs.Verify.{IncomingRequest, VerifiedRequest, verify_incoming}
use infernal_client_rs.Verify.Accept.{verify-ok_iff, verify_incoming-ok_iff}
use infernal_client_rs.Verify.Authentic.{bound}
use infernal_client_rs.Enrollment.{EnrollmentSubmission}
use infernal_client_rs.Enrollment.Proof.{proof_message_injective}
use infernal_client_rs.Enrollment.Kernel.{Verifies}
use infernal_client_rs.Network.{
  Parties, EnrollmentProof, Issue, Entry, World, IsProper, IsMember, proof_of, proof_bytes,
  Unforged, CanSend, Step, tick, enroll, register, issue, accept, refuse, Reach, start, later,
}
use infernal_client_rs.Network.Accounts.{
  WasSigned, answered_key, Accounted, Enrolled, IsSound, All-Memᴰ, same_key,
}
use infernal_client_rs.Network.Signature.{proof_signature, request_signature}

module _ ⦃d : Deps⦄ where
  module _ (uuid : UuidLaws) (base64 : Base64Laws) (sha : Sha256Laws) (ps : Parties) where
    -- What is registered for an honest key was signed by its holder.
    pub registered-Enrolled :
        (w : World) (submission : EnrollmentSubmission) (v : Verifies submission)
        → IsSound ps w
        → IsProper (proof_of submission v)
        → Unforged ps w v.key_bytes (proof_bytes (proof_of submission v)) v.raw_signature
        → Enrolled ps w.proofs (proof_of submission v)
    registered-Enrolled w submission v sound proper unforged honest =
        let r = proof_of submission v in
        let (_, passes) = (verify-ok_iff _ _ _).0 v.accepts in
        let (p, mem, same) = proof_signature ps w r v.raw_signature unforged honest passes in
        let (ec, es, ei, ek, eb, ee, ep, et) =
          proof_message_injective uuid sha r.challenge p.challenge r.key p.key r.endpoint p.endpoint
            r.pod_uid p.pod_uid r.token p.token proper (All-Memᴰ IsProper mem sound.proper) same in
        (
          p,
          mem,
          λ j. record {
            key = record {
              service_id = es j;
              instance_id = ei j;
              key_id = ek j;
              public_key = eb j;
            };
            challenge = ec j;
            endpoint = ee j;
            pod_uid = ep j;
            token_digest = et j;
          },
        )

    -- What is accepted is accounted for.
    pub accepted-Accounted :
        (w : World) (key : ClientPublicKey) (request : IncomingRequest) (v : VerifiedRequest)
        → IsSound ps w
        → IsMember w.registered key
        → IsValid request.parts
        → CanSend ps key w request
        → verify_incoming request key w.now ≡ ok v
        → Accounted ps w.registered w.issued
            (record { key = key; request = request; answer = v; at = w.now })
    accepted-Accounted w key request v sound member valid can h =
        let a = (verify_incoming-ok_iff uuid request key w.now v sound.clock).0 h in
        let entry : Entry = record { key = key; request = request; answer = v; at = w.now } in
        let attested : answered_key entry ≡ key = λ j. record {
          service_id = a.same_service.1 j;
          instance_id = a.same_instance.1 j;
          key_id = a.same_key j;
          public_key = key.public_key;
        } in
        record {
          member = member;
          attested = attested;
          fresh = a.fresh;
          backed = λ honest.
              let unforged = can a.parameters a.signature a.input.layout a.signature_header in
              let (i, mem, public, same) =
                request_signature ps w key request a.parameters a.signature unforged honest
                  a.verified in
              let agrees =
                bound uuid base64 sha request key w.now v a i.parts i.key i.created i.expires
                  i.nonce valid (All-Memᴰ WasSigned mem sound.signed) same in
              (i, mem, same_key entry i attested public agrees, agrees);
        }

    -- What was accounted for still is when more is signed and registered.
    enroll-Enrolled :
        (p : EnrollmentProof) (proofs : List EnrollmentProof) (r : EnrollmentProof)
        → Enrolled ps proofs r
        → Enrolled ps (p ∷ proofs) r
    enroll-Enrolled p proofs r enrolled honest =
        let (q, mem, same) = enrolled honest in (q, Memᴰ.tail mem, same)

    register-Accounted :
        (p : EnrollmentProof) (registered : List EnrollmentProof) (issued : List Issue)
        (entry : Entry)
        → Accounted ps registered issued entry
        → Accounted ps (p ∷ registered) issued entry
    register-Accounted p registered issued entry a =
        let (q, mem, same) = a.member in
        record {
          member = (q, Memᴰ.tail mem, same);
          attested = a.attested;
          fresh = a.fresh;
          backed = a.backed;
        }

    issue-Accounted :
        (i : Issue) (registered : List EnrollmentProof) (issued : List Issue) (entry : Entry)
        → Accounted ps registered issued entry
        → Accounted ps registered (i ∷ issued) entry
    issue-Accounted i registered issued entry a = record {
      member = a.member;
      attested = a.attested;
      fresh = a.fresh;
      backed = λ honest.
          let (j, mem, from, agrees) = a.backed honest in (j, Memᴰ.tail mem, from, agrees);
    }

    Step-IsSound : {w w' : World} → IsSound ps w → Step ps w w' → IsSound ps w'
    Step-IsSound s (tick t ht _) = record {
      clock = ht;
      proper = s.proper;
      enrolled = s.enrolled;
      signed = s.signed;
      accounted = s.accounted;
    }
    Step-IsSound {w} s (enroll credential challenge endpoint pod_uid token submission proper h) =
        record {
          clock = s.clock;
          proper = (proper, s.proper);
          enrolled = All-mono _ _ (enroll-Enrolled _ w.proofs) _ s.enrolled;
          signed = s.signed;
          accounted = s.accounted;
        }
    Step-IsSound {w} s (register submission v proper unforged) = record {
      clock = s.clock;
      proper = s.proper;
      enrolled = (registered-Enrolled w submission v s proper unforged, s.enrolled);
      signed = s.signed;
      accounted = All-mono _ _ (register-Accounted _ w.registered w.issued) _ s.accounted;
    }
    Step-IsSound {w} s (issue i signed valid hc he h) =
        let (h0, hw, hn, _) =
          (sign_with-ok_iff i.parts i.key i.created i.expires i.nonce (ps.signer i.key) signed hc
              he).0
            h in
        record {
          clock = s.clock;
          proper = s.proper;
          enrolled = s.enrolled;
          signed = ((valid, hc, he, h0, hw, hn), s.signed);
          accounted = All-mono _ _ (issue-Accounted i w.registered w.issued) _ s.accounted;
        }
    Step-IsSound {w} s (accept key request v member valid can h) = record {
      clock = s.clock;
      proper = s.proper;
      enrolled = s.enrolled;
      signed = s.signed;
      accounted = (accepted-Accounted w key request v s member valid can h, s.accounted);
    }
    Step-IsSound s (refuse key request e h) = s

    -- In every world that is reached, by any interleaving of enrolling, registering, signing,
    -- delivery and time from a clock that is an i64: whatever was accepted was fresh, its answer
    -- names the ids of the registered key it was verified under, and if that key's public key is
    -- honest, a request issued under the very same key agrees with it (method, authority, path,
    -- content type, request id, body digest and times); and what was registered with an honest
    -- public key has the key, challenge, endpoint, pod id and token digest of an enrollment that
    -- was signed with it. What the holders of other keys do does not matter.
    pub Reach-IsSound : {t : ℤ} {w : World} → IsI64 t → Reach ps t w → IsSound ps w
    Reach-IsSound ht start = record {
      clock = ht;
      proper = tt;
      enrolled = tt;
      signed = tt;
      accounted = tt;
    }
    Reach-IsSound ht (later r st) = Step-IsSound (Reach-IsSound ht r) st
