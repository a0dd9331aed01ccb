-- ===== src/Protocol/Codec/First.antt =====
-- codec.rs: the first message under a key, as one side writes it and the other one reads it.
use bitsafe.Prelude.{
  ◌+◌, ◌≤◌, ◌≡◌, refl, ap, ◌∙◌, none, some, ◌++◌, arith, length, drop, length-append,
}
use bitsafe.Prelude.Bytes.{Bytes, to_le_bytes, length-to_le_bytes}
use bitsafe.Prelude.Results.{ok}
use bitsafe.Protocol.Stream.{Ending}
use bitsafe.Protocol.Codec.{
  EncryptedCodec, max_message_size, frame, nonce_from_counter, open_with, encrypted_codec,
  read_message, write_message, decode,
}
use bitsafe.Protocol.Codec.Crypto.{Json, Aead, IsAead}
use bitsafe.Protocol.Codec.Plain.{decoded, read_message-frame, write_message-ok}
use bitsafe.Protocol.Codec.Sealed.{encode-ok, decode-fresh, counter_of-append, counter_of}

-- The payload of the message that a connection sends first.
abbrev pub first_payload : Bytes → Bytes
first_payload ciphertext = to_le_bytes 8 0 ++ ciphertext

module _ {T : Type 0} (a : Aead) (j : Json T) (key : Bytes) where
  -- The first message under a key: `msg` is serialized and sealed, fits a message, and what the
  -- other side reads from the serialized text is `got`.
  pub record Travels (msg got : T) (ciphertext : Bytes) : Type 0 where
    pub plaintext : Bytes
    pub serialized : j.to_vec msg ≡ ok plaintext
    pub parsed : j.from_slice plaintext ≡ ok got
    pub sealed : a.encrypt key (nonce_from_counter 0) plaintext ≡ some ciphertext
    pub fits : 8 + length ciphertext ≤ max_message_size

  pub write_first :
      (before : Bytes) (c : EncryptedCodec) (msg got : T) (ciphertext : Bytes)
      → Travels msg got ciphertext
      → c.send_cipher ≡ key
      → c.send_counter ≡ 0
      → write_message (encrypted_codec a j) (record { written = before; room = none }) c msg ≡ (
        ok tt,
        record c { send_counter = 1 },
        record { written = before ++ frame (first_payload ciphertext); room = none },
      )
  unfolding encrypted_codec
  write_first before c msg got ciphertext t hk hn =
      write_message-ok (encrypted_codec a j) before _ c (record c { send_counter = 1 }) msg
        (encode-ok a j c msg t.plaintext ciphertext t.serialized (rw (hk, hn) t.sealed) ∙ rw hn)

  first_counter : (ciphertext : Bytes) → counter_of (first_payload ciphertext) ≡ 0
  first_counter ciphertext = counter_of-append 0 ciphertext (omega arith)

  drop_first : (ciphertext : Bytes) → drop 8 (first_payload ciphertext) ≡ ciphertext
  unfolding to_le_bytes
  drop_first ciphertext = refl

  module _ (la : IsAead a) where
    length-first :
        (msg got : T) (ciphertext : Bytes)
        → Travels msg got ciphertext
        → (24 ≤ length (first_payload ciphertext))
          × (length (first_payload ciphertext) ≤ max_message_size)
    length-first msg got ciphertext t =
        let size = length-append (to_le_bytes 8 0) ciphertext in
        let eight = length-to_le_bytes 8 0 in
        let tagged = la.length-encrypt key (nonce_from_counter 0) t.plaintext ciphertext t.sealed in
        let fits = t.fits in (omega arith, omega arith)

    open_first :
        (msg got : T) (ciphertext : Bytes)
        → Travels msg got ciphertext
        → open_with a j key (nonce_from_counter 0) ciphertext ≡ ok got
    unfolding open_with
    open_first msg got ciphertext t =
        let parsed = t.parsed in
        ground
          (arith, la.decrypt-encrypt key (nonce_from_counter 0) t.plaintext ciphertext t.sealed)

    decode_first :
        (c : EncryptedCodec) (msg got : T) (ciphertext : Bytes)
        → Travels msg got ciphertext
        → c.recv_cipher ≡ key
        → c.recv_counter ≡ 0
        → decode a j c (first_payload ciphertext) ≡ (ok got, record c { recv_counter = 1 })
    decode_first c msg got ciphertext t hk hn =
        decode-fresh a j c (first_payload ciphertext) (length-first msg got ciphertext t).0
          (rw (first_counter ciphertext, hn))
        ∙ rw (first_counter ciphertext, drop_first ciphertext, hk)
            (rw (open_first msg got ciphertext t))

    pub read_first :
        (c : EncryptedCodec) (msg got : T) (ciphertext rest : Bytes) (e : Ending)
        → Travels msg got ciphertext
        → c.recv_cipher ≡ key
        → c.recv_counter ≡ 0
        → read_message
            (encrypted_codec a j)
            (record { pending = frame (first_payload ciphertext) ++ rest; ending = e })
            c
          ≡ (ok got, record c { recv_counter = 1 }, record { pending = rest; ending = e })
    unfolding encrypted_codec
    read_first c msg got ciphertext rest e t hk hn =
        read_message-frame (encrypted_codec a j) (first_payload ciphertext) rest e c
          (length-first msg got ciphertext t).1
        ∙ ap (λ d. decoded d (record { pending = rest; ending = e }))
            (decode_first c msg got ciphertext t hk hn)
