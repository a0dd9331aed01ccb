-- ===== src/Service/Connection/First.antt =====
-- session.rs: `handle_client` on a connection that carries one request.
use bitsafe.Prelude.{ℕ, suc, ◌≡◌, refl, ap, ◌∙◌, true, Option, some, none, [], ◌++◌}
use bitsafe.Prelude.Bytes.{Bytes}
use bitsafe.Prelude.Results.{ok, err}
use bitsafe.Protocol.Stream.{closed, Reader, Writer}
use bitsafe.Protocol.Codec.{EncryptedCodec, frame, encrypted_codec}
use bitsafe.Protocol.Codec.Crypto.{IsAead, IsKeyExchange}
use bitsafe.Protocol.Codec.Channel.{empty_writer}
use bitsafe.Protocol.Codec.Progress.{read_message-closed}
use bitsafe.Protocol.Codec.First.{Travels, first_payload, write_first, read_first}
use bitsafe.Protocol.Codec.Handshake.{new_client, new_server, handshake_agrees}
use bitsafe.Protocol.Request.{Request}
use bitsafe.Protocol.Response.{Response}
use bitsafe.Sdk.Act.{◌>>=◌, continue}
use bitsafe.Service.World.{Outside}
use bitsafe.Service.Task.{Sys, returned}
use bitsafe.Service.Session.{dispatch}
use bitsafe.Service.Connection.{
  Connection, Wire, disconnected, received, read_within, read_request, answer_request, sent,
  write_response, serve_request, next_round, serve_requests, open_channel, handshake_within,
  handle_client, read_closing,
}
use mathlib.Core.List.{append-nil}

-- The two ends of a channel whose client and service drew these secrets.
module _ (v : Wire) (client_secret server_secret : Bytes) where
  abbrev pub shared : Bytes
  shared = v.exchange.diffie_hellman client_secret (v.exchange.public_key server_secret)

  abbrev pub client_codec : EncryptedCodec
  client_codec = new_client v.exchange shared

  abbrev pub server_codec : EncryptedCodec
  server_codec = new_server v.exchange shared

  -- What each side sends: its public key and one sealed message.
  abbrev pub client_bytes : Bytes → Bytes
  client_bytes sealed = v.exchange.public_key client_secret ++ frame (first_payload sealed)

  abbrev pub server_bytes : Bytes → Bytes
  server_bytes sealed = v.exchange.public_key server_secret ++ frame (first_payload sealed)

  -- The request as it is sent and as it is read, and the same for the reply.
  abbrev pub RequestTravels : Request → Request → Bytes → Type 0
  RequestTravels = Travels v.aead v.requests client_codec.send_cipher

  abbrev pub ReplyTravels : Response → Response → Bytes → Type 0
  ReplyTravels = Travels v.aead v.responses server_codec.send_cipher

abbrev pub all_sent : Bytes → Writer
all_sent bytes = record { written = bytes; room = none }

abbrev pub from_peer : Bytes → Reader
from_peer bytes = record { pending = bytes; ending = closed }

module _ {C : Type 0} (o : Outside C) (v : Wire) (peer_pid : Option ℕ)
    (client_secret server_secret : Bytes) (la : IsAead v.aead) (lx : IsKeyExchange v.exchange) where
  abbrev at_start : Bytes → Sys C → Connection C
  at_start sealed_request s = record {
    reader = from_peer (frame (first_payload sealed_request));
    writer = all_sent (v.exchange.public_key server_secret);
    codec = server_codec v client_secret server_secret;
    timely = λ n. true;
    sys = s;
  }

  abbrev at_end : Bytes → Sys C → Connection C
  at_end sealed_reply s = record {
    reader = from_peer [];
    writer = all_sent (server_bytes v client_secret server_secret sealed_reply);
    codec = record (server_codec v client_secret server_secret) {
      recv_counter = 1;
      send_counter = 1;
    };
    timely = λ n. true;
    sys = s;
  }

  module _ (request got : Request) (reply_got : Response) (sealed_request sealed_reply : Bytes)
      (s : Sys C) (tq : RequestTravels v client_secret server_secret request got sealed_request)
      (tr : ReplyTravels v client_secret server_secret
        (returned (dispatch o got peer_pid s).0)
        reply_got
        sealed_reply) where
    serve_request-first :
        serve_request o v peer_pid (at_start sealed_request s)
        ≡ (ok tt, at_end sealed_reply (dispatch o got peer_pid s).1)
    unfolding serve_request read_request read_within received answer_request write_response sent
        ◌>>=◌ new_client new_server
    serve_request-first =
        ap
          (λ p.
            let (r, k) = received o v peer_pid (at_start sealed_request s) p in
            continue r
              (λ request. answer_request o v peer_pid request >>= write_response o v peer_pid) k)
          (rw append-nil at (
            read_first v.aead v.requests (client_codec v client_secret server_secret).send_cipher la
              (server_codec v client_secret server_secret) request got sealed_request [] closed tq
              refl refl))
        ∙ ap
            (sent o v peer_pid (record (at_start sealed_request (dispatch o got peer_pid s).1) {
              reader = from_peer [];
            }))
            (write_first v.aead v.responses (server_codec v client_secret server_secret).send_cipher
              (v.exchange.public_key server_secret)
              (record (server_codec v client_secret server_secret) { recv_counter = 1 }) _ reply_got
              sealed_reply tr refl refl)

    serve_request-closed :
        (k : Connection C)
        → serve_request o v peer_pid (record k { reader = from_peer []; timely = λ n. true })
          ≡ (err disconnected, record k { reader = from_peer []; timely = λ n. true })
    unfolding serve_request read_request read_within received ◌>>=◌ read_closing
    serve_request-closed k =
        ap
          (λ p.
            let (r, k') =
              received o v peer_pid (record k { reader = from_peer []; timely = λ n. true }) p in
            continue r
              (λ request. answer_request o v peer_pid request >>= write_response o v peer_pid) k')
          (read_message-closed (encrypted_codec v.aead v.requests) k.codec)

    serve_requests-first :
        (fuel : ℕ)
        → serve_requests o v peer_pid (suc (suc fuel)) (at_start sealed_request s)
          ≡ some (record {
            closing = disconnected;
            writer = all_sent (server_bytes v client_secret server_secret sealed_reply);
            sys = (dispatch o got peer_pid s).1;
          })
    unfolding serve_requests next_round
    serve_requests-first fuel =
        ap (λ p. next_round o v peer_pid p (serve_requests o v peer_pid (suc fuel)))
          serve_request-first
        ∙ ap (λ p. next_round o v peer_pid p (serve_requests o v peer_pid fuel))
            (serve_request-closed (at_end sealed_reply (dispatch o got peer_pid s).1))

    -- A connection that carries one request: the service answers with what `dispatch` makes of it.
    pub handle_client-first :
        (fuel : ℕ)
        → handle_client o v peer_pid
            (suc (suc fuel))
            server_secret
            (λ n. true)
            (from_peer (client_bytes v client_secret server_secret sealed_request))
            empty_writer
            s
          ≡ some (record {
            closing = disconnected;
            writer = all_sent (server_bytes v client_secret server_secret sealed_reply);
            sys = (dispatch o got peer_pid s).1;
          })
    unfolding handle_client handshake_within open_channel
    handle_client-first fuel =
        ap (open_channel o v peer_pid (suc (suc fuel)) (λ n. true) s)
          (handshake_agrees v.exchange client_secret server_secret
            (frame (first_payload sealed_request)) closed closed lx).1
        ∙ serve_requests-first fuel
