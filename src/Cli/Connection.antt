-- ===== src/Cli/Connection.antt =====
-- crates/grimoire-cli/src/main.rs: `send_request`, on a connection to the service. What the service
-- sends is the reader, and what it is sent is the writer; each request has a connection of its own.
pub mod Exchange
use bitsafe.Prelude.Bytes.{Bytes}
use bitsafe.Prelude.Results.{Result, ok, err, map_err}
use bitsafe.Protocol.Stream.{Reader, Writer}
use bitsafe.Protocol.Codec.{
  CodecError, EncryptedCodec, encrypted_codec, read_message, write_message,
}
use bitsafe.Protocol.Codec.Handshake.{handshake_client}
use bitsafe.Protocol.Request.{Request}
use bitsafe.Protocol.Response.{Response}
use bitsafe.Service.Connection.{Wire}
use bitsafe.Cli.Error.{CliError, channel}

module _ (v : Wire) where
  read_reply : Result CodecError Response × EncryptedCodec × Reader → Result CliError Response
  read_reply (r, c, reader) = map_err channel r

  request_sent :
      Reader
      → Result CodecError (Unit {0}) × EncryptedCodec × Writer
      → Result CliError Response × Writer
  unfolding read_reply
  request_sent r (ok _, c, w) =
      (read_reply (read_message (encrypted_codec v.aead v.responses) r c), w)
  request_sent r (err e, c, w) = (err (channel e), w)

  channel_open :
      Request
      → Result CodecError EncryptedCodec × Reader × Writer
      → Result CliError Response × Writer
  unfolding request_sent
  channel_open request (ok c, r, w) =
      request_sent r (write_message (encrypted_codec v.aead v.requests) w c request)
  channel_open request (err e, r, w) = (err (channel e), w)

  -- The reply, and what was sent.
  pub send_request : Bytes → Reader → Writer → Request → Result CliError Response × Writer
  unfolding channel_open
  send_request secret r w request = channel_open request (handshake_client v.exchange secret r w)
