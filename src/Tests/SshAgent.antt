-- ===== src/Tests/SshAgent.antt =====
-- The SSH agent on a concrete state.
use bitsafe.Prelude.{◌≡◌, false, some, [], arith}
use bitsafe.Prelude.Bytes.{Bytes}
use bitsafe.Prelude.Texts.{Text, text}
use bitsafe.Prelude.Results.{ok, err}
use bitsafe.Service.State.Consistent.{IsConsistent, lock-IsConsistent}
use bitsafe.Service.Approval.Denied.{alone}
use bitsafe.Service.SshAgent.{SshAgentSession, SignRequest, new_session, request_identities, sign}
use bitsafe.Service.SshAgent.Signature.{SshLibrary}
use bitsafe.Service.SshAgent.Safe.{agent-IsConsistent}
use bitsafe.Service.SshAgent.Gate.{other_user_refused}
use bitsafe.Tests.Service.{test_outside, open_world, open_world-IsConsistent, locking}

-- A signature is its algorithm and its data.
abbrev pub pairs : SshLibrary (Text × Bytes)
pairs = record {
  Algorithm = Text;
  from_utf8 = λ bytes. ok bytes;
  algorithm = λ name. ok name;
  new_signature = λ name bytes. ok (name, bytes);
}

abbrev some_request : SignRequest
some_request = record { pubkey = text "key"; payload = text "data"; flags = 0 }

abbrev some_session : SshAgentSession
some_session = record { peer_pid = some 42; rejected = false }

agent-IsConsistent_example :
    IsConsistent (request_identities test_outside some_session locking).1.world
    × IsConsistent (sign test_outside pairs some_session some_request locking).1.world
agent-IsConsistent_example =
    agent-IsConsistent test_outside pairs some_session some_request locking open_world-IsConsistent
      (λ n w h. lock-IsConsistent test_outside w h)

other_user_refused_example :
    (request_identities test_outside (new_session 1000 (some (1001, some 42))) (alone open_world)
      ≡ (err (ok []), alone open_world))
    × (sign test_outside pairs
          (new_session 1000 (some (1001, some 42)))
          some_request
          (alone open_world)
        ≡ (err (err (text "Connection rejected")), alone open_world))
other_user_refused_example =
    other_user_refused test_outside pairs 1000 1001 (some 42) some_request (alone open_world)
      (omega arith)
