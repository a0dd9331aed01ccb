-- ===== src/Service/Connection.antt =====
-- crates/grimoire-service/src/session.rs: `handle_client`, from the key exchange to the end of the
-- connection. `timely n` says whether the n-th wait for the client ends within its timeout: the key
-- exchange first, and then each message. Logging is left out; why the service ends a connection is a
-- value.
pub mod Ends
pub mod First
use bitsafe.Prelude.{ℕ, zero, suc, Bool, true, false, Option, none, some}
use bitsafe.Prelude.Bytes.{Bytes}
use bitsafe.Prelude.Results.{Result, ok, err}
use bitsafe.Protocol.Stream.{Reader, Writer}
use bitsafe.Protocol.Codec.{
  CodecError, connection_closed, EncryptedCodec, encrypted_codec, read_message, write_message,
}
use bitsafe.Protocol.Codec.Crypto.{Json, Aead, KeyExchange}
use bitsafe.Protocol.Codec.Handshake.{handshake_server}
use bitsafe.Protocol.Request.{Request}
use bitsafe.Protocol.Response.{Response}
use bitsafe.Sdk.Act.{Steps, ◌>>=◌, ◌>>◌}
use bitsafe.Service.World.{Outside}
use bitsafe.Service.Task.{Sys, returned}
use bitsafe.Service.Session.{dispatch}

-- The `return`s of `handle_client`.
pub data Closing : Type 0 where
  disconnected idle handshake_timed_out : Closing
  handshake_failed read_failed write_failed : CodecError → Closing

pub record Connection (C : Type 0) : Type 0 where
  pub reader : Reader
  pub writer : Writer
  pub codec : EncryptedCodec
  pub timely : ℕ → Bool
  pub sys : Sys C

-- What a connection leaves behind: why it ended, what was written, and the state.
pub record Closed (C : Type 0) : Type 0 where
  pub closing : Closing
  pub writer : Writer
  pub sys : Sys C

-- The libraries at the types of the messages.
pub record Wire : Type 0 where
  pub requests : Json Request
  pub responses : Json Response
  pub aead : Aead
  pub exchange : KeyExchange

read_closing : CodecError → Closing
read_closing connection_closed = disconnected
read_closing e = read_failed e

handshake_closing : CodecError → Closing
handshake_closing connection_closed = disconnected
handshake_closing e = handshake_failed e

module _ {C : Type 0} (o : Outside C) (v : Wire) (peer_pid : Option ℕ) where
  -- The connection behind a message that was read, or the end of it.
  received :
      Connection C
      → Result CodecError Request × EncryptedCodec × Reader
      → Result Closing Request × Connection C
  unfolding read_closing
  received k (ok request, c, r) = (ok request, record k { reader = r; codec = c })
  received k (err e, c, r) = (err (read_closing e), record k { reader = r; codec = c })

  -- `timeout(READ_TIMEOUT, read_message(…))`
  read_within : Bool → Steps Closing (Connection C) Request
  unfolding received
  read_within true k =
      received k (read_message (encrypted_codec v.aead v.requests) k.reader k.codec)
  read_within false k = (err idle, k)

  read_request : Steps Closing (Connection C) Request
  unfolding read_within
  read_request k = read_within (k.timely 0) (record k { timely = λ n. k.timely (suc n) })

  answer_request : Request → Steps Closing (Connection C) Response
  answer_request request k =
      let (r, s) = dispatch o request peer_pid k.sys in (ok (returned r), record k { sys = s })

  sent :
      Connection C
      → Result CodecError (Unit {0}) × EncryptedCodec × Writer
      → Result Closing (Unit {0}) × Connection C
  sent k (ok _, c, w) = (ok tt, record k { writer = w; codec = c })
  sent k (err e, c, w) = (err (write_failed e), record k { writer = w; codec = c })

  write_response : Response → Steps Closing (Connection C) (Unit {0})
  unfolding sent
  write_response response k =
      sent k (write_message (encrypted_codec v.aead v.responses) k.writer k.codec response)

  -- The body of the loop.
  pub serve_request : Steps Closing (Connection C) (Unit {0})
  unfolding read_request answer_request write_response ◌>>=◌
  serve_request = do
    request ← read_request
    response ← answer_request request
    write_response response

  next_round :
      Result Closing (Unit {0}) × Connection C
      → (Connection C → Option (Closed C))
      → Option (Closed C)
  next_round (ok _, k) again = again k
  next_round (err why, k) again = some (record { closing = why; writer = k.writer; sys = k.sys })

  -- `loop`; `none` means that the fuel ran out.
  pub serve_requests : ℕ → Connection C → Option (Closed C)
  unfolding serve_request next_round
  serve_requests zero k = none
  serve_requests (suc fuel) k = next_round (serve_request k) (serve_requests fuel)

  open_channel :
      ℕ
      → (ℕ → Bool)
      → Sys C
      → Result CodecError EncryptedCodec × Reader × Writer
      → Option (Closed C)
  unfolding serve_requests handshake_closing
  open_channel fuel timely s (ok c, r, w) =
      serve_requests fuel (record { reader = r; writer = w; codec = c; timely = timely; sys = s })
  open_channel fuel timely s (err e, r, w) =
      some (record { closing = handshake_closing e; writer = w; sys = s })

  -- `timeout(HANDSHAKE_TIMEOUT, handshake_server(…))`
  handshake_within : Bool → ℕ → Bytes → (ℕ → Bool) → Reader → Writer → Sys C → Option (Closed C)
  unfolding open_channel
  handshake_within true fuel secret timely r w s =
      open_channel fuel timely s (handshake_server v.exchange secret r w)
  handshake_within false fuel secret timely r w s =
      some (record { closing = handshake_timed_out; writer = w; sys = s })

  pub handle_client : ℕ → Bytes → (ℕ → Bool) → Reader → Writer → Sys C → Option (Closed C)
  unfolding handshake_within
  handle_client fuel secret timely = handshake_within (timely 0) fuel secret (λ n. timely (suc n))
