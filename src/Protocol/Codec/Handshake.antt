-- ===== src/Protocol/Codec/Handshake.antt =====
-- codec.rs: the directional keys, `new_client`, `new_server`, and the X25519 exchange on a stream.
-- A secret that `EphemeralSecret::random_from_rng` draws is an argument.
use bitsafe.Prelude.{◌≤◌, ◌<◌, ◌≡◌, refl, ap, ◌∙◌, none, [], ◌∷◌, ◌++◌, arith, length}
use bitsafe.Prelude.Bytes.{Bytes}
use bitsafe.Prelude.Results.{Result, ok, err}
use bitsafe.Protocol.Stream.{
  IoError, unexpected_eof, other_io, Ending, closed, Reader, Writer, read_exact, write_all,
  read_exact-append, left, read_exact-le,
}
use bitsafe.Protocol.Codec.{CodecError, io, connection_closed, EncryptedCodec}
use bitsafe.Protocol.Codec.Crypto.{KeyExchange, IsKeyExchange}
use bitsafe.Protocol.Codec.Channel.{empty_writer}
use mathlib.Core.List.{append-nil}

-- `b"grimoire-ipc-c2s"` and `b"grimoire-ipc-s2c"`.
abbrev pub c2s_info : Bytes
c2s_info =
    b'g' ∷ b'r' ∷ b'i' ∷ b'm' ∷ b'o' ∷ b'i' ∷ b'r' ∷ b'e' ∷ b'-' ∷ b'i' ∷ b'p' ∷ b'c' ∷ b'-' ∷ b'c'
    ∷ b'2' ∷ b's' ∷ []

abbrev pub s2c_info : Bytes
s2c_info =
    b'g' ∷ b'r' ∷ b'i' ∷ b'm' ∷ b'o' ∷ b'i' ∷ b'r' ∷ b'e' ∷ b'-' ∷ b'i' ∷ b'p' ∷ b'c' ∷ b'-' ∷ b's'
    ∷ b'2' ∷ b'c' ∷ []

module _ (x : KeyExchange) where
  -- The client-to-server key, then the server-to-client key.
  pub derive_directional_keys : Bytes → Bytes × Bytes
  derive_directional_keys shared_secret =
      (x.expand shared_secret c2s_info, x.expand shared_secret s2c_info)

  unfoldable pub new_client : Bytes → EncryptedCodec
  unfolding derive_directional_keys
  new_client shared_secret =
      let (c2s_key, s2c_key) = derive_directional_keys shared_secret in
      record { send_cipher = c2s_key; recv_cipher = s2c_key; send_counter = 0; recv_counter = 0 }

  unfoldable pub new_server : Bytes → EncryptedCodec
  unfolding derive_directional_keys
  new_server shared_secret =
      let (c2s_key, s2c_key) = derive_directional_keys shared_secret in
      record { send_cipher = s2c_key; recv_cipher = c2s_key; send_counter = 0; recv_counter = 0 }

  client_secret_shared :
      Bytes
      → Result IoError Bytes × Reader
      → Writer
      → Result CodecError EncryptedCodec × Reader × Writer
  client_secret_shared secret (err e, r) w = (err (io e), r, w)
  client_secret_shared secret (ok server_public, r) w =
      (ok (new_client (x.diffie_hellman secret server_public)), r, w)

  client_sent :
      Bytes
      → Reader
      → Result IoError (Unit {0}) × Writer
      → Result CodecError EncryptedCodec × Reader × Writer
  unfolding client_secret_shared
  client_sent secret r (err e, w) = (err (io e), r, w)
  client_sent secret r (ok _, w) = client_secret_shared secret (read_exact 32 r) w

  pub handshake_client :
      Bytes → Reader → Writer → Result CodecError EncryptedCodec × Reader × Writer
  unfolding client_sent
  handshake_client secret r w = client_sent secret r (write_all w (x.public_key secret))

  server_sent :
      Bytes
      → Bytes
      → Reader
      → Result IoError (Unit {0}) × Writer
      → Result CodecError EncryptedCodec × Reader × Writer
  server_sent secret client_public r (err e, w) = (err (io e), r, w)
  server_sent secret client_public r (ok _, w) =
      (ok (new_server (x.diffie_hellman secret client_public)), r, w)

  server_received :
      Bytes
      → Result IoError Bytes × Reader
      → Writer
      → Result CodecError EncryptedCodec × Reader × Writer
  unfolding server_sent
  server_received secret (err unexpected_eof, r) w = (err connection_closed, r, w)
  server_received secret (err other_io, r) w = (err (io other_io), r, w)
  server_received secret (ok client_public, r) w =
      server_sent secret client_public r (write_all w (x.public_key secret))

  pub handshake_server :
      Bytes → Reader → Writer → Result CodecError EncryptedCodec × Reader × Writer
  unfolding server_received
  handshake_server secret r w = server_received secret (read_exact 32 r) w

  read_public_key :
      (secret rest : Bytes) (e : Ending)
      → IsKeyExchange x
      → read_exact 32 (record { pending = x.public_key secret ++ rest; ending = e })
        ≡ (ok (x.public_key secret), record { pending = rest; ending = e })
  read_public_key secret rest e law =
      rw law.length-public_key at (read_exact-append (x.public_key secret) rest e)

  -- The two sides of an exchange, each reading what the other one writes, end with codecs that
  -- belong together: either sends under the key that the other one receives with, all counters are
  -- at 0, and what the client sends behind its key stays in the service's stream.
  pub handshake_agrees :
      (client_secret server_secret behind : Bytes) (e f : Ending)
      → IsKeyExchange x
      → let shared = x.diffie_hellman client_secret (x.public_key server_secret) in
        (handshake_client client_secret
            (record { pending = x.public_key server_secret; ending = f })
            empty_writer
          ≡ (
            ok (new_client shared),
            record { pending = []; ending = f },
            record { written = x.public_key client_secret; room = none },
          ))
        × (handshake_server server_secret
              (record { pending = x.public_key client_secret ++ behind; ending = e })
              empty_writer
            ≡ (
              ok (new_server shared),
              record { pending = behind; ending = e },
              record { written = x.public_key server_secret; room = none },
            ))
        × ((new_server shared).recv_cipher ≡ (new_client shared).send_cipher)
        × ((new_client shared).recv_cipher ≡ (new_server shared).send_cipher)
        × ((new_client shared).send_counter ≡ 0)
        × ((new_client shared).recv_counter ≡ 0)
        × ((new_server shared).send_counter ≡ 0)
        × ((new_server shared).recv_counter ≡ 0)
  unfolding handshake_client handshake_server new_client new_server write_all
  handshake_agrees client_secret server_secret behind e f law = (
    ap
        (λ p.
          client_secret_shared client_secret p
            (record { written = x.public_key client_secret; room = none }))
        (rw append-nil at (read_public_key server_secret [] f law)),
    ap (λ p. server_received server_secret p empty_writer)
          (read_public_key client_secret behind e law)
        ∙ ap
            (λ shared. (
              ok (new_server shared),
              record { pending = behind; ending = e },
              record { written = x.public_key server_secret; room = none },
            ))
            (law.diffie_hellman_comm server_secret client_secret),
    refl,
    refl,
    refl,
    refl,
    refl,
    refl,
  )

  -- A stream that ends before the client's 32 bytes is a closed connection to the service, which
  -- writes nothing; to the client that waits for the service's key it is an input error.
  pub handshake_cut :
      (secret pending : Bytes)
      → length pending < 32
      → (handshake_server secret (record { pending = pending; ending = closed }) empty_writer
          ≡ (err connection_closed, record { pending = []; ending = closed }, empty_writer))
        × ((handshake_client secret (record { pending = pending; ending = closed }) empty_writer).0
            ≡ err (io unexpected_eof))
  unfolding handshake_client handshake_server write_all read_exact
  handshake_cut secret pending h = ground arith

  -- A client whose stream begins with the service's key shares a secret with the service, and keeps
  -- what the service sends behind its key.
  pub handshake_client-ok :
      (client_secret server_secret behind : Bytes) (e : Ending)
      → IsKeyExchange x
      → handshake_client client_secret
          (record { pending = x.public_key server_secret ++ behind; ending = e })
          empty_writer
        ≡ (
          ok (new_client (x.diffie_hellman client_secret (x.public_key server_secret))),
          record { pending = behind; ending = e },
          record { written = x.public_key client_secret; room = none },
        )
  unfolding handshake_client write_all
  handshake_client-ok client_secret server_secret behind e law =
      ap
        (λ p.
          client_secret_shared client_secret p
            (record { written = x.public_key client_secret; room = none }))
        (read_public_key server_secret behind e law)

  server_sent-left :
      (secret public : Bytes) (r : Reader) (p : Result IoError (Unit {0}) × Writer)
      → (server_sent secret public r p).1 ≡ r
  unfolding server_sent
  server_sent-left secret public r (ok _, w) = refl
  server_sent-left secret public r (err e, w) = refl

  server_received-left :
      (secret : Bytes) (p : Result IoError Bytes × Reader) (w : Writer)
      → (server_received secret p w).1 ≡ p.1
  unfolding server_received
  server_received-left secret (ok public, r) w = server_sent-left secret public r _
  server_received-left secret (err unexpected_eof, r) w = refl
  server_received-left secret (err other_io, r) w = refl

  -- The exchange only takes bytes from the stream.
  pub handshake_server-le :
      (secret : Bytes) (r : Reader) (w : Writer) → left (handshake_server secret r w).1 ≤ left r
  unfolding handshake_server
  handshake_server-le secret r w =
      rw (server_received-left secret (read_exact 32 r) w) (read_exact-le 32 r)
