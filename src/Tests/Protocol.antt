-- ===== src/Tests/Protocol.antt =====
-- codec.rs and request.rs on concrete messages.
use bitsafe.Prelude.{ℕ, ◌≡◌, ◌≢◌, refl, inl, none, [], ◌∷◌, ◌++◌, arith}
use bitsafe.Prelude.Bytes.{Bytes, to_le_bytes, from_le_bytes}
use bitsafe.Prelude.Results.{ok}
use bitsafe.Protocol.Stream.{closed}
use bitsafe.Protocol.Codec.{
  EncryptedCodec, frame, encrypted_codec, decode, encode, write_message, read_message,
}
use bitsafe.Protocol.Codec.Handshake.{
  new_client, new_server, handshake_client, handshake_server, handshake_agrees,
}
use bitsafe.Protocol.Codec.Channel.{
  CanSend, empty_writer, sealed_payload, after_send, after_receive, read-write_sealed,
}
use bitsafe.Protocol.Codec.Replay.{replayed, decode_all, accepted_once, replay_after_wrap}
use bitsafe.Protocol.Codec.Nonces.{encode_all, sealed_under, nonces_differ}
use bitsafe.Protocol.Codec.Conversation.{deliver_all, IsSmall, every_second_refused}
use bitsafe.Tests.Libraries.{
  bytes_json, bytes_json-IsJson, tag_aead, tag_aead-IsAead, seal_bytes, sum_exchange,
  sum_exchange-IsKeyExchange,
}

abbrev client_codec : EncryptedCodec
client_codec = record {
  send_cipher = 7 ∷ [];
  recv_cipher = 8 ∷ [];
  send_counter = 0;
  recv_counter = 0;
}

abbrev service_codec : EncryptedCodec
service_codec = record {
  send_cipher = 8 ∷ [];
  recv_cipher = 7 ∷ [];
  send_counter = 0;
  recv_counter = 0;
}

abbrev hello : Bytes
hello = 104 ∷ 105 ∷ []

abbrev bye : Bytes
bye = 98 ∷ 121 ∷ 101 ∷ []

hello-IsSmall : IsSmall tag_aead bytes_json hello
hello-IsSmall = (hello, refl, omega arith)

bye-IsSmall : IsSmall tag_aead bytes_json bye
bye-IsSmall = (bye, refl, omega arith)

every_second_refused_example :
    deliver_all tag_aead bytes_json client_codec service_codec (hello ∷ bye ∷ hello ∷ [])
    ≡ ok hello ∷ replayed ∷ ok hello ∷ []
every_second_refused_example =
    every_second_refused tag_aead bytes_json tag_aead-IsAead bytes_json-IsJson (7 ∷ [])
      (λ nonce plaintext. seal_bytes plaintext) (λ nonce plaintext. refl) client_codec service_codec
      (hello ∷ bye ∷ hello ∷ []) (hello-IsSmall, (bye-IsSmall, (hello-IsSmall, tt))) refl refl
      (omega arith) (inl (refl, refl))

hello-CanSend : CanSend tag_aead bytes_json client_codec hello (seal_bytes hello)
hello-CanSend = record {
  plaintext = hello;
  serialized = refl;
  sealed = refl;
  fits = omega arith;
  in_range = omega arith;
}

read-write_sealed_example :
    (write_message (encrypted_codec tag_aead bytes_json) empty_writer client_codec hello ≡ (
      ok tt,
      after_send tag_aead bytes_json client_codec,
      record {
        written = frame (sealed_payload tag_aead bytes_json client_codec (seal_bytes hello));
        room = none;
      },
    ))
    × (read_message
          (encrypted_codec tag_aead bytes_json)
          (record {
            pending =
                frame (sealed_payload tag_aead bytes_json client_codec (seal_bytes hello)) ++ bye;
            ending = closed;
          })
          service_codec
        ≡ (
          ok hello,
          after_receive tag_aead bytes_json service_codec 0,
          record { pending = bye; ending = closed },
        ))
read-write_sealed_example =
    read-write_sealed tag_aead bytes_json tag_aead-IsAead bytes_json-IsJson client_codec
      service_codec hello (seal_bytes hello) bye closed hello-CanSend refl (inl (refl, refl))

-- Payloads with a counter, as an attacker sees and forges them.
abbrev payload : ℕ → Bytes → Bytes
payload counter msg = to_le_bytes 8 counter ++ seal_bytes msg

accepted_hello : (decode tag_aead bytes_json service_codec (payload 0 hello)).0 ≡ ok hello
unfolding decode to_le_bytes from_le_bytes
accepted_hello = refl

accepted_once_example :
    decode tag_aead bytes_json
      (decode_all tag_aead bytes_json service_codec (payload 0 hello ∷ payload 5 bye ∷ []))
      (payload 0 hello)
    ≡ (
      replayed,
      decode_all tag_aead bytes_json service_codec (payload 0 hello ∷ payload 5 bye ∷ []),
    )
accepted_once_example =
    accepted_once tag_aead bytes_json service_codec (payload 0 hello) hello (payload 5 bye ∷ [])
      (payload 0 hello) accepted_hello (unfold to_le_bytes from_le_bytes in omega arith)
      (unfold to_le_bytes from_le_bytes in omega arith, tt) (unfold to_le_bytes in omega arith)
      (omega arith)

abbrev last_payload : Bytes
last_payload = payload 18446744073709551615 bye

replay_after_wrap_example :
    (decode tag_aead bytes_json
      (decode_all tag_aead bytes_json service_codec (payload 0 hello ∷ last_payload ∷ []))
      (payload 0 hello)).0
    ≡ ok hello
replay_after_wrap_example =
    replay_after_wrap tag_aead bytes_json service_codec (payload 0 hello) hello last_payload
      accepted_hello (unfold to_le_bytes from_le_bytes in omega arith)
      (unfold to_le_bytes in omega arith) (unfold to_le_bytes from_le_bytes in refl)

nonces_differ_example :
    let later_codec =
      encode_all tag_aead bytes_json (encode tag_aead bytes_json client_codec hello).1 (bye ∷ []) in
    (nonce : Bytes) × (nonce' : Bytes) × ((encode tag_aead bytes_json client_codec hello).0
      ≡ sealed_under tag_aead bytes_json (7 ∷ []) nonce hello)
    × ((encode tag_aead bytes_json later_codec bye).0
        ≡ sealed_under tag_aead bytes_json (7 ∷ []) nonce' bye)
    × (nonce ≢ nonce')
nonces_differ_example =
    nonces_differ tag_aead bytes_json client_codec hello bye hello bye (bye ∷ []) refl refl
      (omega arith)

handshake_agrees_example :
    let shared = sum_exchange.diffie_hellman (3 ∷ []) (sum_exchange.public_key (4 ∷ [])) in
    (handshake_client sum_exchange
        (3 ∷ [])
        (record { pending = sum_exchange.public_key (4 ∷ []); ending = closed })
        empty_writer
      ≡ (
        ok (new_client sum_exchange shared),
        record { pending = []; ending = closed },
        record { written = sum_exchange.public_key (3 ∷ []); room = none },
      ))
    × (handshake_server sum_exchange
          (4 ∷ [])
          (record { pending = sum_exchange.public_key (3 ∷ []) ++ hello; ending = closed })
          empty_writer
        ≡ (
          ok (new_server sum_exchange shared),
          record { pending = hello; ending = closed },
          record { written = sum_exchange.public_key (4 ∷ []); room = none },
        ))
    × ((new_server sum_exchange shared).recv_cipher ≡ (new_client sum_exchange shared).send_cipher)
    × ((new_client sum_exchange shared).recv_cipher ≡ (new_server sum_exchange shared).send_cipher)
    × ((new_client sum_exchange shared).send_counter ≡ 0)
    × ((new_client sum_exchange shared).recv_counter ≡ 0)
    × ((new_server sum_exchange shared).send_counter ≡ 0)
    × ((new_server sum_exchange shared).recv_counter ≡ 0)
handshake_agrees_example =
    handshake_agrees sum_exchange (3 ∷ []) (4 ∷ []) hello closed closed sum_exchange-IsKeyExchange
