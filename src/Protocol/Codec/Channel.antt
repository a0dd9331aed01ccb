-- ===== src/Protocol/Codec/Channel.antt =====
-- codec.rs: messages that one side writes and the other side reads.
use bitsafe.Prelude.{
  ℕ, ◌+◌, ◌%◌, ◌^◌, ◌≤◌, ◌<◌, ◌≡◌, refl, ◌⊎◌, some, [], ◌++◌, arith, length, ap, ◌∙◌, length-append,
  drop, none, true, false,
}
use bitsafe.Prelude.Bytes.{Bytes, to_le_bytes, length-to_le_bytes}
use bitsafe.Prelude.Results.{ok, err}
use bitsafe.Protocol.Stream.{Ending, Writer}
use bitsafe.Protocol.Codec.{
  crypto, EncryptedCodec, max_message_size, frame, is_replay, nonce_from_counter, decode,
  encrypted_codec, read_message, write_message,
}
use bitsafe.Protocol.Codec.Crypto.{Json, IsJson, Aead, IsAead}
use bitsafe.Protocol.Codec.Plain.{decoded, read_message-frame, write_message-ok}
use bitsafe.Protocol.Codec.Sealed.{
  counter_of-append, encode-ok, decode-fresh, decode-stale, open_with-ok,
}

-- The receiver has seen nothing, or its counter is below the next one of the sender.
abbrev pub IsFresh : ℕ → ℕ → Type 0
IsFresh counter last = ((counter ≡ 0) × (last ≡ 0)) ⊎ (last < counter)

IsFresh-is_replay : (counter last : ℕ) → IsFresh counter last → is_replay counter last ≡ false
IsFresh-is_replay counter last h = ground arith

drop_counter : (n : ℕ) (ciphertext : Bytes) → drop 8 (to_le_bytes 8 n ++ ciphertext) ≡ ciphertext
unfolding to_le_bytes
drop_counter n ciphertext = refl

abbrev pub empty_writer : Writer
empty_writer = record { written = []; room = none }

module _ {T : Type 0} (a : Aead) (j : Json T) where
  -- What the codec writes for a text that the AEAD seals as `ciphertext`.
  abbrev pub sealed_payload : EncryptedCodec → Bytes → Bytes
  sealed_payload c ciphertext = to_le_bytes 8 c.send_counter ++ ciphertext

  -- `msg` can be sent by `c`: it is serialized, sealed, and fits a message.
  pub record CanSend (c : EncryptedCodec) (msg : T) (ciphertext : Bytes) : Type 0 where
    pub plaintext : Bytes
    pub serialized : j.to_vec msg ≡ ok plaintext
    pub sealed :
        a.encrypt c.send_cipher (nonce_from_counter c.send_counter) plaintext ≡ some ciphertext
    pub fits : 8 + length ciphertext ≤ max_message_size
    pub in_range : c.send_counter < 2 ^ 64

  abbrev pub after_send : EncryptedCodec → EncryptedCodec
  after_send c = record c { send_counter = (c.send_counter + 1) % 2 ^ 64 }

  abbrev pub after_receive : EncryptedCodec → ℕ → EncryptedCodec
  after_receive c n = record c { recv_counter = (n + 1) % 2 ^ 64 }

  pub length-sealed_payload :
      (c : EncryptedCodec) (ciphertext : Bytes)
      → length (sealed_payload c ciphertext) ≡ 8 + length ciphertext
  length-sealed_payload c ciphertext = omega (
    arith,
    length-append (to_le_bytes 8 c.send_counter) ciphertext,
    length-to_le_bytes 8 c.send_counter,
  )

  module _ (la : IsAead a) (lj : IsJson j) where
    sealed_long :
        (c : EncryptedCodec) (msg : T) (ciphertext : Bytes)
        → CanSend c msg ciphertext
        → 24 ≤ length (sealed_payload c ciphertext)
    sealed_long c msg ciphertext h = omega (
      arith,
      length-sealed_payload c ciphertext,
      la.length-encrypt c.send_cipher (nonce_from_counter c.send_counter) h.plaintext ciphertext
          h.sealed,
    )

    pub decode-sealed :
        (c s : EncryptedCodec) (msg : T) (ciphertext : Bytes)
        → CanSend c msg ciphertext
        → s.recv_cipher ≡ c.send_cipher
        → IsFresh c.send_counter s.recv_counter
        → decode a j s (sealed_payload c ciphertext) ≡ (ok msg, after_receive s c.send_counter)
    decode-sealed c s msg ciphertext h key fresh =
        let n = counter_of-append c.send_counter ciphertext h.in_range in
        decode-fresh a j s (sealed_payload c ciphertext) (sealed_long c msg ciphertext h)
          (rw n (IsFresh-is_replay _ _ fresh))
        ∙ rw (n, drop_counter, key)
            (rw (
              open_with-ok a j c.send_cipher _ h.plaintext ciphertext msg la lj h.serialized
                h.sealed))

    pub decode-sealed_stale :
        (c s : EncryptedCodec) (msg : T) (ciphertext : Bytes)
        → CanSend c msg ciphertext
        → is_replay c.send_counter s.recv_counter ≡ true
        → decode a j s (sealed_payload c ciphertext)
          ≡ (err (crypto "Replayed or out-of-order message rejected"), s)
    decode-sealed_stale c s msg ciphertext h stale =
        decode-stale a j s (sealed_payload c ciphertext) (sealed_long c msg ciphertext h)
          (rw (counter_of-append c.send_counter ciphertext h.in_range) stale)

    -- Writing a message that can be sent always succeeds, and takes the next counter.
    pub write_message-sealed :
        (c : EncryptedCodec) (msg : T) (ciphertext : Bytes)
        → CanSend c msg ciphertext
        → write_message (encrypted_codec a j) empty_writer c msg ≡ (
          ok tt,
          after_send c,
          record { written = frame (sealed_payload c ciphertext); room = none },
        )
    unfolding encrypted_codec
    write_message-sealed c msg ciphertext h =
        write_message-ok (encrypted_codec a j) [] _ c (after_send c) msg
          (encode-ok a j c msg h.plaintext ciphertext h.serialized h.sealed)

    -- Reading its frame is decoding its payload.
    pub read_message-sealed :
        (c s : EncryptedCodec) (msg : T) (ciphertext rest : Bytes) (e : Ending)
        → CanSend c msg ciphertext
        → read_message
            (encrypted_codec a j)
            (record { pending = frame (sealed_payload c ciphertext) ++ rest; ending = e })
            s
          ≡ decoded
              (decode a j s (sealed_payload c ciphertext))
              (record { pending = rest; ending = e })
    unfolding encrypted_codec
    read_message-sealed c s msg ciphertext rest e h =
        read_message-frame (encrypted_codec a j) (sealed_payload c ciphertext) rest e s
          (rw (length-sealed_payload c ciphertext) h.fits)

    -- A client and a service that share a key, on any counters where the receiver has not passed
    -- the sender: a message that can be sent is written, read back as it was, and what follows it
    -- in the stream stays. The sender moves on by one, and the receiver to one past the message.
    pub read-write_sealed :
        (c s : EncryptedCodec) (msg : T) (ciphertext rest : Bytes) (e : Ending)
        → CanSend c msg ciphertext
        → s.recv_cipher ≡ c.send_cipher
        → IsFresh c.send_counter s.recv_counter
        → (write_message (encrypted_codec a j) empty_writer c msg ≡ (
          ok tt,
          after_send c,
          record { written = frame (sealed_payload c ciphertext); room = none },
        ))
          × (read_message
                (encrypted_codec a j)
                (record { pending = frame (sealed_payload c ciphertext) ++ rest; ending = e })
                s
              ≡ (ok msg, after_receive s c.send_counter, record { pending = rest; ending = e }))
    read-write_sealed c s msg ciphertext rest e h key fresh = (
      write_message-sealed c msg ciphertext h,
      read_message-sealed c s msg ciphertext rest e h
          ∙ ap (λ r. decoded r (record { pending = rest; ending = e }))
              (decode-sealed c s msg ciphertext h key fresh),
    )
