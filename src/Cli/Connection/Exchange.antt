-- ===== src/Cli/Connection/Exchange.antt =====
-- main.rs and session.rs: one request over the wire, `send_request` on one side and `handle_client` on
-- the other.
use bitsafe.Prelude.{ℕ, suc, ◌≡◌, refl, ap, ◌∙◌, true, Option, some, []}
use bitsafe.Prelude.Bytes.{Bytes}
use bitsafe.Prelude.Results.{ok}
use bitsafe.Protocol.Stream.{closed}
use bitsafe.Protocol.Codec.{frame}
use bitsafe.Protocol.Codec.Crypto.{IsAead, IsKeyExchange}
use bitsafe.Protocol.Codec.Channel.{empty_writer}
use bitsafe.Protocol.Codec.First.{first_payload, write_first, read_first}
use bitsafe.Protocol.Codec.Handshake.{new_client, new_server, handshake_client-ok}
use bitsafe.Protocol.Request.{Request}
use bitsafe.Protocol.Response.{Response}
use bitsafe.Service.World.{Outside}
use bitsafe.Service.Task.{Sys, returned}
use bitsafe.Service.Session.{dispatch}
use bitsafe.Service.Connection.{Wire, disconnected, handle_client}
use bitsafe.Service.Connection.First.{
  client_codec, server_codec, client_bytes, server_bytes, RequestTravels, ReplyTravels, all_sent,
  from_peer, handle_client-first,
}
use bitsafe.Cli.Connection.{read_reply, channel_open, request_sent, send_request}
use mathlib.Core.List.{append-nil}

module _ (v : Wire) (client_secret server_secret : Bytes) (la : IsAead v.aead)
    (lx : IsKeyExchange v.exchange) where
  send_request-first :
      (request got : Request) (reply reply_got : Response) (sealed_request sealed_reply : Bytes)
      → RequestTravels v client_secret server_secret request got sealed_request
      → ReplyTravels v client_secret server_secret reply reply_got sealed_reply
      → send_request v client_secret
          (from_peer (server_bytes v client_secret server_secret sealed_reply))
          empty_writer
          request
        ≡ (ok reply_got, all_sent (client_bytes v client_secret server_secret sealed_request))
  unfolding send_request new_client new_server
  send_request-first request got reply reply_got sealed_request sealed_reply tq tr =
      ap (channel_open v request) (
        handshake_client-ok v.exchange client_secret server_secret
          (frame (first_payload sealed_reply)) closed lx)
      ∙ ap (request_sent v (from_peer (frame (first_payload sealed_reply)))) (
          write_first v.aead v.requests (client_codec v client_secret server_secret).send_cipher
            (v.exchange.public_key client_secret) (client_codec v client_secret server_secret)
            request got sealed_request tq refl refl)
      ∙ ap
          (λ p.
            (read_reply v p, all_sent (client_bytes v client_secret server_secret sealed_request)))
          (rw append-nil at (
            read_first v.aead v.responses (server_codec v client_secret server_secret).send_cipher
              la (record (client_codec v client_secret server_secret) { send_counter = 1 }) reply
              reply_got sealed_reply [] closed tr refl refl))

  -- A request on a connection of its own, where each side reads exactly what the other one writes
  -- and both messages are serialized, sealed and small enough: the client's result is the reply that
  -- `dispatch` gives for the request as the service reads it, the state is the one that `dispatch`
  -- leaves, and the connection ends when the client has gone.
  pub send_request-dispatch :
      {C : Type 0} (o : Outside C) (peer_pid : Option ℕ) (fuel : ℕ) (request got : Request)
      (reply_got : Response) (sealed_request sealed_reply : Bytes) (s : Sys C)
      → RequestTravels v client_secret server_secret request got sealed_request
      → ReplyTravels v client_secret server_secret
          (returned (dispatch o got peer_pid s).0)
          reply_got
          sealed_reply
      → (send_request v client_secret
            (from_peer (server_bytes v client_secret server_secret sealed_reply))
            empty_writer
            request
          ≡ (ok reply_got, all_sent (client_bytes v client_secret server_secret sealed_request)))
        × (handle_client o v peer_pid
              (suc (suc fuel))
              server_secret
              (λ n. true)
              (from_peer (client_bytes v client_secret server_secret sealed_request))
              empty_writer
              s
            ≡ some (record {
              closing = disconnected;
              writer = all_sent (server_bytes v client_secret server_secret sealed_reply);
              sys = (dispatch o got peer_pid s).1;
            }))
  send_request-dispatch o pid fuel request got reply_got sealed_request sealed_reply s tq tr = (
    send_request-first request got _ reply_got sealed_request sealed_reply tq tr,
    handle_client-first o v pid client_secret server_secret la lx request got reply_got
        sealed_request sealed_reply s tq tr fuel,
  )
