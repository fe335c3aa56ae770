-- ===== src/Tests/Network.antt =====
-- The workloads, the kernel, the network and the server at a concrete run: the holder of a key that
-- is not honest enrolls and has a request accepted; then a worker enrolls, signs a request, and has
-- it accepted five seconds later, and once more when it is replayed.
use infernal_client_rs.Common.{◌≡◌, ◌≢◌, refl, [], ◌∷◌, arith}
use infernal_client_rs.Common.Int.{pos, ◌+ℤ◌}
use infernal_client_rs.Common.Text.{
  Bytes, codes, trim, trim_start, trim_end, is_whitespace, utf8, utf8_char,
}
use mathlib.Core.List.{Memᴰ, cons-ne-nil}
use infernal_client_rs.Credential.{ClientPublicKey, generate}
use infernal_client_rs.Wire.{content_digest}
use infernal_client_rs.Request.{base_bytes}
use infernal_client_rs.Request.Signing.{signed_as}
use infernal_client_rs.Enrollment.{proof_message}
use infernal_client_rs.Enrollment.Separation.{proof_message-ne-base_bytes}
use infernal_client_rs.Verify.Received.{SignsFor, received_as, verified_as, received_as-ok}
use infernal_client_rs.Network.{Parties, Issue, Entry, World, Reach, start, later, accept}
use infernal_client_rs.Network.Channel.{ChannelReach}
use infernal_client_rs.Network.Accounts.{IsSound}
use infernal_client_rs.Network.Invariant.{Reach-IsSound}
use infernal_client_rs.Network.Refinement.{channel_of, Reach-ChannelReach}
use infernal_client_rs.Network.Progress.{entry_of, Reach-accepted}
use infernal_client_rs.Network.Registration.{Applicant, CanEnroll, proof_by, Reach-registered}
use infernal_client_rs.Network.Service.{Reach-served}
use infernal_client_rs.Tests.Toy.{
  toy, toy_uuid, toy_base64, toy_sha256, toy_ed25519, one, two, three,
}
use infernal_client_rs.Tests.Request.{parts_01, parts_01-IsValid}
use infernal_client_rs.Tests.Verify.{key_01, signs_05}
use infernal_client_rs.Tests.Enrollment.{challenge_01, endpoint_01, pod_01, token_01}
use infernal_client_rs.Tests.Wire.{nonce_01}

abbrev pub worker : Applicant
worker = record {
  signing_key = 5;
  instance_id = two;
  key_id = three;
  service_id = one;
  challenge = challenge_01;
  endpoint = endpoint_01;
  pod_uid = pod_01;
  token = token_01;
}

-- The holder of another key, of another service
abbrev intruder : Applicant
intruder = record worker { signing_key = 9; instance_id = one; key_id = two; service_id = three }

abbrev key_02 : ClientPublicKey
key_02 = record {
  service_id = three;
  instance_id = one;
  key_id = two;
  public_key = toy.verifying_key 9;
}

worker-CanEnroll : CanEnroll worker
unfolding trim trim_start trim_end is_whitespace generate utf8 utf8_char
worker-CanEnroll = record {
  bytes = omega arith;
  proper = record {
    challenge = refl;
    public_key = refl;
    endpoint = (omega arith, omega arith);
    pod_uid = (omega arith, omega arith);
  };
  is_endpoint = (codes "worker.example.test", cons-ne-nil _ _, refl);
  pod_uid_given = cons-ne-nil _ _;
  token_given = cons-ne-nil _ _;
}

intruder-CanEnroll : CanEnroll intruder
unfolding generate
intruder-CanEnroll = record {
  bytes = worker-CanEnroll.bytes;
  proper = record {
    challenge = refl;
    public_key = refl;
    endpoint = worker-CanEnroll.proper.endpoint;
    pod_uid = worker-CanEnroll.proper.pod_uid;
  };
  is_endpoint = worker-CanEnroll.is_endpoint;
  pod_uid_given = worker-CanEnroll.pod_uid_given;
  token_given = worker-CanEnroll.token_given;
}

abbrev pub parties : Parties
parties = record {
  signer = λ key. toy.sign_bytes 5;
  IsHonest = λ (k : Bytes). k ≡ toy.verifying_key 5;
}

abbrev pub issue_01 : Issue
issue_01 = record {
  key = key_01;
  parts = parts_01;
  created = pos 1000;
  expires = pos 1020;
  nonce = nonce_01;
}

signs_09 : SignsFor key_02 (toy.sign_bytes 9)
signs_09 m =
    (toy_ed25519.sign-IsBytes 9 m, toy_ed25519.length-sign 9 m, toy_ed25519.verify-sign 9 m)

-- What the intruder signs without a step of the system
abbrev pub made_up : Entry
made_up = record {
  key = key_02;
  request =
      received_as (signed_as parts_01 key_02 (pos 999) (pos 1019) nonce_01 (toy.sign_bytes 9));
  answer = verified_as parts_01 key_02 (pos 999) (pos 1019);
  at = pos 1000;
}

abbrev intruded : World
intruded = record {
  now = pos 1000;
  proofs = proof_by intruder ∷ [];
  registered = proof_by intruder ∷ [];
  issued = [];
  accepted = made_up ∷ [];
}

reached_intruded : Reach parties (pos 1000) intruded
unfolding ◌+ℤ◌ generate
reached_intruded =
    later
      (Reach-registered toy_uuid toy_base64 toy_ed25519 parties intruder intruder-CanEnroll start)
      (accept key_02 made_up.request made_up.answer (proof_by intruder, Memᴰ.head refl, refl)
        parts_01-IsValid (λ _ _ _ _ honest. absurd (ground (arith, honest)))
        (received_as-ok toy_uuid toy_base64 parts_01 key_02 (pos 999) (pos 1019) nonce_01
          (toy.sign_bytes 9) (pos 1000) refl signs_09 (omega arith) (omega arith) (omega arith)
          (omega arith) (omega arith) (omega arith) (omega arith)))

abbrev pub served : World
served = record {
  now = pos 1005;
  proofs = proof_by worker ∷ proof_by intruder ∷ [];
  registered = proof_by worker ∷ proof_by intruder ∷ [];
  issued = issue_01 ∷ [];
  accepted = entry_of parties issue_01 (pos 1005) ∷ made_up ∷ [];
}

pub reached_served : Reach parties (pos 1000) served
unfolding ◌+ℤ◌ generate
reached_served =
    Reach-served toy_uuid toy_base64 toy_sha256 toy_ed25519 parties worker issue_01 (pos 1005)
      worker-CanEnroll refl refl
      (parts_01-IsValid, omega arith, omega arith, omega arith, omega arith, omega arith)
      (omega arith) reached_intruded (omega arith) (omega arith) (omega arith)

Reach-served_example : Reach parties (pos 1000) served
unfolding ◌+ℤ◌ generate
Reach-served_example =
    Reach-served toy_uuid toy_base64 toy_sha256 toy_ed25519 parties worker issue_01 (pos 1005)
      worker-CanEnroll refl refl
      (parts_01-IsValid, omega arith, omega arith, omega arith, omega arith, omega arith)
      (omega arith) reached_intruded (omega arith) (omega arith) (omega arith)

-- The verifier keeps no nonces: a replay is accepted while the request is fresh.
Reach-accepted_example : Reach parties (pos 1000) (record served {
  accepted =
      entry_of parties issue_01 (pos 1005) ∷ entry_of parties issue_01 (pos 1005) ∷ made_up ∷ [];
})
unfolding ◌+ℤ◌ generate
Reach-accepted_example =
    Reach-accepted toy_uuid toy_base64 toy_sha256 parties issue_01
      (proof_by worker, Memᴰ.head refl, refl) refl signs_05 (omega arith) reached_served
      (Memᴰ.head refl) (omega arith)

Reach-IsSound_example : IsSound parties served
Reach-IsSound_example =
    Reach-IsSound toy_uuid toy_base64 toy_sha256 parties (omega arith) reached_served

Reach-ChannelReach_example : ChannelReach parties.IsHonest (pos 1000) (channel_of served)
Reach-ChannelReach_example =
    Reach-ChannelReach toy_uuid toy_base64 toy_sha256 parties (omega arith) reached_served

proof_message-ne-base_bytes_example :
    proof_message challenge_01 key_01 endpoint_01 pod_01 token_01
    ≢ base_bytes parts_01 key_01 (content_digest parts_01.body) (codes "p")
proof_message-ne-base_bytes_example =
    proof_message-ne-base_bytes challenge_01 key_01 key_01 endpoint_01 pod_01 token_01 parts_01
      (content_digest parts_01.body) (codes "p")
