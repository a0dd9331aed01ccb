-- ===== src/Protocol/Codec/Sealed.antt =====
-- codec.rs: what the encrypted codec writes and how it answers a frame.
use bitsafe.Prelude.{
  ℕ, ◌+◌, ◌%◌, ◌^◌, ◌≤◌, ◌<◌, ◌≡◌, some, ◌++◌, arith, length, take, drop, true, false,
}
use bitsafe.Prelude.Bytes.{Bytes, to_le_bytes, from_le_bytes, from_le_bytes-to_le_bytes}
use bitsafe.Prelude.Results.{ok, err}
use bitsafe.Protocol.Codec.{
  crypto, EncryptedCodec, frame, is_replay, nonce_from_counter, open_with, encode, decode,
}
use bitsafe.Protocol.Codec.Crypto.{Json, IsJson, Aead, IsAead}

-- The counter that a payload carries in its first 8 bytes.
abbrev pub counter_of : Bytes → ℕ
counter_of bytes = from_le_bytes (take 8 bytes)

pub counter_of-append :
    (n : ℕ) (ciphertext : Bytes) → n < 2 ^ 64 → counter_of (to_le_bytes 8 n ++ ciphertext) ≡ n
unfolding to_le_bytes
counter_of-append n ciphertext h = from_le_bytes-to_le_bytes 8 n h

module _ {T : Type 0} (a : Aead) (j : Json T) where
  -- Encoding takes the next counter, and writes it in front of the sealed text.
  pub encode-ok :
      (c : EncryptedCodec) (msg : T) (plaintext ciphertext : Bytes)
      → j.to_vec msg ≡ ok plaintext
      → a.encrypt c.send_cipher (nonce_from_counter c.send_counter) plaintext ≡ some ciphertext
      → encode a j c msg ≡ (
        ok (frame (to_le_bytes 8 c.send_counter ++ ciphertext)),
        record c { send_counter = (c.send_counter + 1) % 2 ^ 64 },
      )
  unfolding encode
  encode-ok c msg plaintext ciphertext hv he = ground arith

  -- A payload whose counter passes the replay test is opened, and moves the counter.
  pub decode-fresh :
      (c : EncryptedCodec) (bytes : Bytes)
      → 24 ≤ length bytes
      → is_replay (counter_of bytes) c.recv_counter ≡ false
      → decode a j c bytes ≡ (
        open_with a j c.recv_cipher (nonce_from_counter (counter_of bytes)) (drop 8 bytes),
        record c { recv_counter = (counter_of bytes + 1) % 2 ^ 64 },
      )
  unfolding decode
  decode-fresh c bytes h fresh = ground arith

  -- One whose counter does not is refused, and nothing changes.
  pub decode-stale :
      (c : EncryptedCodec) (bytes : Bytes)
      → 24 ≤ length bytes
      → is_replay (counter_of bytes) c.recv_counter ≡ true
      → decode a j c bytes ≡ (err (crypto "Replayed or out-of-order message rejected"), c)
  unfolding decode
  decode-stale c bytes h stale = ground arith

  -- Opening what was sealed under the same key and nonce gives the message.
  pub open_with-ok :
      (key nonce plaintext ciphertext : Bytes) (msg : T)
      → IsAead a
      → IsJson j
      → j.to_vec msg ≡ ok plaintext
      → a.encrypt key nonce plaintext ≡ some ciphertext
      → open_with a j key nonce ciphertext ≡ ok msg
  unfolding open_with
  open_with-ok key nonce plaintext ciphertext msg la lj hv he = ground (
    arith,
    la.decrypt-encrypt key nonce plaintext ciphertext he,
    lj.from_slice-to_vec msg plaintext hv,
  )
