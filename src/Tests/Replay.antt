-- ===== src/Tests/Replay.antt =====
-- The run of Tests.Network once more: what was accepted for the worker's service comes from the worker,
-- and a replay is accepted twenty seconds later.
use infernal_client_rs.Common.{refl, ap, [], ◌∷◌, arith}
use infernal_client_rs.Common.Int.{ℤ, pos, ◌≤ℤ◌, ◌+ℤ◌}
use mathlib.Core.List.{Memᴰ}
use infernal_client_rs.Credential.{generate}
use infernal_client_rs.Network.{World, Reach, later, tick}
use infernal_client_rs.Network.Progress.{entry_of, Reach-accepted}
use infernal_client_rs.Network.Registration.{proof_by}
use infernal_client_rs.Network.Replay.{IsFor, Reach-replays}
use infernal_client_rs.Network.Isolation.{IsTrusted, Origin, Reach-Origin}
use infernal_client_rs.Tests.Toy.{toy, toy_uuid, toy_base64, toy_sha256, one}
use infernal_client_rs.Tests.Verify.{signs_05}
use infernal_client_rs.Tests.Network.{worker, parties, issue_01, made_up, served, reached_served}

-- The worker's key is the one that is registered for its service: the intruder's is of another.
one-IsTrusted : IsTrusted parties served one
unfolding generate
one-IsTrusted r (Memᴰ.head e) h = ap (λ p. p.key.public_key) e
one-IsTrusted r (Memᴰ.tail (Memᴰ.head e)) h = cc
one-IsTrusted r (Memᴰ.tail (Memᴰ.tail m)) h = elim m [ ]

Reach-Origin_example : Origin served one (entry_of parties issue_01 (pos 1005))
Reach-Origin_example =
    Reach-Origin toy_uuid toy_base64 toy_sha256 parties one (entry_of parties issue_01 (pos 1005))
      (omega arith) reached_served one-IsTrusted (Memᴰ.head refl) refl

-- Twenty seconds after that, a replay
abbrev replayed : World
replayed = record served {
  now = pos 1025;
  accepted =
      entry_of parties issue_01 (pos 1025) ∷ entry_of parties issue_01 (pos 1005) ∷ made_up ∷ [];
}

reached_replayed : Reach parties (pos 1000) replayed
unfolding ◌+ℤ◌ generate
reached_replayed =
    Reach-accepted toy_uuid toy_base64 toy_sha256 parties issue_01
      (proof_by worker, Memᴰ.head refl, refl) refl signs_05 (omega arith)
      (later reached_served (tick (pos 1025) (omega arith) (omega arith))) (Memᴰ.head refl)
      (omega arith)

entry_of-IsFor : (t : ℤ) → IsFor issue_01 (entry_of parties issue_01 t)
entry_of-IsFor t = record {
  service_id = refl;
  instance_id = refl;
  key_id = refl;
  method = refl;
  authority = refl;
  path_and_query = refl;
  content_type = refl;
  request_id = refl;
  body_digest = refl;
  created = refl;
  expires = refl;
}

Reach-replays_example : pos 1025 ≤ℤ pos 1005 +ℤ pos 40
Reach-replays_example =
    Reach-replays toy_uuid toy_base64 toy_sha256 parties issue_01
      (entry_of parties issue_01 (pos 1005)) (entry_of parties issue_01 (pos 1025)) (omega arith)
      reached_replayed (Memᴰ.head refl) (Memᴰ.tail (Memᴰ.head refl)) (Memᴰ.head refl)
      (entry_of-IsFor (pos 1005)) (entry_of-IsFor (pos 1025))
