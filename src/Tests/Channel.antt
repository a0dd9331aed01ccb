-- ===== src/Tests/Channel.antt =====
-- Connections on concrete bytes.
use bitsafe.Prelude.{◌≡◌, refl, arith, true, Option, some, [], ◌∷◌, List}
use bitsafe.Prelude.Bytes.{Bytes}
use bitsafe.Prelude.Results.{ok}
use bitsafe.Prelude.Texts.{text}
use bitsafe.Protocol.Stream.{Reader, closed}
use bitsafe.Protocol.Codec.Channel.{empty_writer}
use bitsafe.Protocol.Response.{Response, success, Answer}
use bitsafe.Service.Connection.{Wire, Closed, disconnected, handle_client}
use bitsafe.Service.Connection.Ends.{handle_client-ends}
use bitsafe.Service.Connection.First.{client_bytes, server_bytes, from_peer, all_sent}
use bitsafe.Service.Peer.{leader_of_stat}
use bitsafe.Service.Peer.Comm.{stat_line, leader_of_stat-stat_line}
use bitsafe.Service.Server.{PeerCred, accept_connection, started, next, accepted}
use bitsafe.Service.Server.Clients.{IsServable, Serves-IsServable}
use bitsafe.Service.Session.{dispatch}
use bitsafe.Cli.Connection.{send_request}
use bitsafe.Cli.Connection.Exchange.{send_request-dispatch}
use bitsafe.Prelude.Strings.{parse_u32}
use bitsafe.Tests.Libraries.{
  tag_aead, tag_aead-IsAead, sum_exchange, sum_exchange-IsKeyExchange, seal_bytes,
}
use bitsafe.Tests.Service.{test_outside, locking, list_request}

abbrev done_reply : Response
done_reply = success (some 7) (Answer.vault_list [])

-- A format in which every text is the list request, or the empty list.
abbrev test_wire : Wire
test_wire = record {
  requests = record { to_vec = λ m. ok (1 ∷ []); from_slice = λ b. ok list_request };
  responses = record { to_vec = λ m. ok (2 ∷ []); from_slice = λ b. ok done_reply };
  aead = tag_aead;
  exchange = sum_exchange;
}

abbrev some_bytes : Reader
some_bytes = record { pending = 1 ∷ 2 ∷ 3 ∷ []; ending = closed }

handle_client-ends_example :
    (c : Closed (List _)) × (handle_client test_outside test_wire
        (some 42)
        4
        (4 ∷ [])
        (λ n. true)
        some_bytes
        empty_writer
        locking
      ≡ some c)
handle_client-ends_example =
    handle_client-ends test_outside test_wire (some 42) 4 (4 ∷ []) (λ n. true) some_bytes
      empty_writer locking (omega arith)

abbrev sealed_1 : Bytes
sealed_1 = seal_bytes (1 ∷ [])

abbrev sealed_2 : Bytes
sealed_2 = seal_bytes (2 ∷ [])

send_request-dispatch_example :
    (send_request test_wire
        (3 ∷ [])
        (from_peer (server_bytes test_wire (3 ∷ []) (4 ∷ []) sealed_2))
        empty_writer
        list_request
      ≡ (ok done_reply, all_sent (client_bytes test_wire (3 ∷ []) (4 ∷ []) sealed_1)))
    × (handle_client test_outside test_wire
          (some 42)
          2
          (4 ∷ [])
          (λ n. true)
          (from_peer (client_bytes test_wire (3 ∷ []) (4 ∷ []) sealed_1))
          empty_writer
          locking
        ≡ some (record {
          closing = disconnected;
          writer = all_sent (server_bytes test_wire (3 ∷ []) (4 ∷ []) sealed_2);
          sys = (dispatch test_outside list_request (some 42) locking).1;
        }))
send_request-dispatch_example =
    send_request-dispatch test_wire (3 ∷ []) (4 ∷ []) tag_aead-IsAead sum_exchange-IsKeyExchange
      test_outside (some 42) 0 list_request list_request done_reply sealed_1 sealed_2 locking
      (record {
        plaintext = 1 ∷ [];
        serialized = refl;
        parsed = refl;
        sealed = refl;
        fits = omega arith;
      })
      (record {
        plaintext = 2 ∷ [];
        serialized = refl;
        parsed = refl;
        sealed = refl;
        fits = omega arith;
      })

-- A process that is named `) 1 1 1 1`.
leader_of_stat-stat_line_example :
    leader_of_stat (
      stat_line
        (text "42 () 1 1 1 1")
        (text "S")
        (text "7")
        (text "42")
        (text "1234")
        (text "0 -1"))
    ≡ parse_u32 (text "1234")
leader_of_stat-stat_line_example =
    leader_of_stat-stat_line (text "42 () 1 1 1 1") (text "S") (text "7") (text "42") (text "1234")
      (text "0 -1") (unfold text in ground arith) (unfold text in ground arith)
      (unfold text in ground arith) (unfold text in ground arith) (unfold text in ground arith)

abbrev mine : Option PeerCred
mine = some (record { uid = 1000; pid = some 42 })

abbrev foreign : Option PeerCred
foreign = some (record { uid = 1001; pid = some 43 })

Serves-IsServable_example :
    IsServable 1000 (accept_connection 1000 (accept_connection 1000 [] mine) foreign)
Serves-IsServable_example =
    Serves-IsServable 1000 (accept_connection 1000 (accept_connection 1000 [] mine) foreign)
      (next (next started (accepted mine [])) (accepted foreign (accept_connection 1000 [] mine)))
