-- ===== src/Protocol/Codec.antt =====
-- crates/grimoire-protocol/src/codec.rs: framing, the plain codec and the encrypted codec.
-- serde_json, HKDF, ChaCha20-Poly1305 and X25519 are parameters. The arithmetic on the u64 counters
-- wraps, as in a release build; a debug build panics where `counter + 1` overflows.
pub mod Crypto
pub mod Handshake
pub mod Plain
pub mod Progress
pub mod First
pub mod Replay
pub mod Sealed
pub mod Channel
pub mod Nonces
pub mod Conversation
use bitsafe.Prelude.{
  ◌*◌, ℕ, zero, suc, ◌+◌, ◌%◌, ◌^◌, String, Bool, ◌&&◌, ◌||◌, Option, none, some, List, [], ◌∷◌,
  ◌++◌, ltb, ◌==◌, if◌then◌else◌, length, take, drop, replicate,
}
use bitsafe.Prelude.Bytes.{Bytes, to_le_bytes, from_le_bytes, u32_to_be_bytes, u32_from_be_bytes}
use bitsafe.Prelude.Results.{Result, ok, err, map_err}
use bitsafe.Protocol.Stream.{
  IoError, unexpected_eof, other_io, Reader, Writer, read_exact, write_all,
}
use Crypto.{Json, Aead}

pub data CodecError : Type 0 where
  io : IoError → CodecError
  json : String → CodecError
  too_large : ℕ → CodecError
  connection_closed : CodecError
  crypto : String → CodecError

abbrev pub max_message_size : ℕ
max_message_size = 1024 * 1024

-- The trait `Codec`, for messages `T` and a codec whose fields are `S`. Methods take `&self`, and
-- the atomics in it change: a call returns the new fields.
pub record Codec (S T : Type 0) : Type 0 where
  pub encode : S → T → Result CodecError Bytes × S
  pub decode : S → Bytes → Result CodecError T × S

-- `buf` of both encoders: the length as a u32, most significant byte first, then the payload.
abbrev pub frame : Bytes → Bytes
frame payload = u32_to_be_bytes (length payload % 2 ^ 32) ++ payload

module _ {T : Type 0} (j : Json T) where
  pub plain_encode : T → Result CodecError Bytes
  plain_encode msg = elim (j.to_vec msg) [ ok bytes ↦ ok (frame bytes) | err e ↦ err (json e) ]

  pub plain_decode : Bytes → Result CodecError T
  plain_decode bytes = map_err json (j.from_slice bytes)

  unfoldable pub plain_codec : Codec (Unit {0}) T
  unfolding plain_encode plain_decode
  plain_codec = record {
    encode = λ s msg. (plain_encode msg, s);
    decode = λ s bytes. (plain_decode bytes, s);
  }

pub record EncryptedCodec : Type 0 where
  pub send_cipher : Bytes
  pub recv_cipher : Bytes
  pub send_counter : ℕ
  pub recv_counter : ℕ

unfoldable pub nonce_from_counter : ℕ → Bytes
nonce_from_counter counter = replicate 4 0 ++ to_le_bytes 8 counter

-- The nonce, and the codec after `fetch_add`.
unfoldable pub next_nonce : EncryptedCodec → Bytes × EncryptedCodec
unfolding nonce_from_counter
next_nonce c =
    (nonce_from_counter c.send_counter, record c { send_counter = (c.send_counter + 1) % 2 ^ 64 })

-- The replay test: `counter < last || (counter == last && last > 0)`.
abbrev pub is_replay : ℕ → ℕ → Bool
is_replay counter last = ltb counter last || (counter == last && ltb 0 last)

module _ {T : Type 0} (a : Aead) (j : Json T) where
  -- `payload_len` counts the 8 bytes of the counter and the ciphertext.
  seal_with : Bytes → Bytes → Bytes → Result CodecError Bytes
  seal_with key nonce plaintext = elim (a.encrypt key nonce plaintext) [
    | some ciphertext ↦ ok (frame (drop 4 nonce ++ ciphertext))
    | none ↦ err (crypto "Encrypt failed")
  ]

  pub encode : EncryptedCodec → T → Result CodecError Bytes × EncryptedCodec
  unfolding seal_with next_nonce
  encode c msg = elim (j.to_vec msg) [
    | err e ↦ (err (json e), c)
    | ok plaintext ↦ let (nonce, c') = next_nonce c in (seal_with c.send_cipher nonce plaintext, c')
  ]

  unfoldable pub open_with : Bytes → Bytes → Bytes → Result CodecError T
  open_with key nonce ciphertext = elim (a.decrypt key nonce ciphertext) [
    | none ↦ err (crypto "Decryption failed — wrong key or tampered")
    | some plaintext ↦ map_err json (j.from_slice plaintext)
  ]

  unfoldable pub decode : EncryptedCodec → Bytes → Result CodecError T × EncryptedCodec
  unfolding open_with nonce_from_counter
  decode c bytes =
      if ltb (length bytes) (8 + 16)
      then (err (crypto "Message too short for decryption"), c)
      else let counter = from_le_bytes (take 8 bytes) in
        if is_replay counter c.recv_counter
        then (err (crypto "Replayed or out-of-order message rejected"), c)
        else (
          open_with c.recv_cipher (nonce_from_counter counter) (drop 8 bytes),
          record c { recv_counter = (counter + 1) % 2 ^ 64 },
        )

  unfoldable pub encrypted_codec : Codec EncryptedCodec T
  unfolding encode decode
  encrypted_codec = record { encode = encode; decode = decode }

module _ {S T : Type 0} (codec : Codec S T) where
  write_frame : Writer → Result CodecError Bytes × S → Result CodecError (Unit {0}) × S × Writer
  write_frame w (err e, s) = (err e, s, w)
  write_frame w (ok bytes, s) = let (r, w') = write_all w bytes in (map_err io r, s, w')

  pub write_message : Writer → S → T → Result CodecError (Unit {0}) × S × Writer
  unfolding write_frame write_all
  write_message w s msg = write_frame w (codec.encode s msg)

  decode_payload : Result IoError Bytes × Reader → S → Result CodecError T × S × Reader
  decode_payload (err e, r) s = (err (io e), s, r)
  decode_payload (ok payload, r) s = let (m, s') = codec.decode s payload in (m, s', r)

  -- Behind the length: the size check, the payload, and `decode`.
  read_payload : ℕ → Reader → S → Result CodecError T × S × Reader
  unfolding decode_payload
  read_payload len r s =
      if ltb max_message_size len
      then (err (too_large len), s, r)
      else decode_payload (read_exact len r) s

  read_behind_header : Result IoError Bytes × Reader → S → Result CodecError T × S × Reader
  read_behind_header (err unexpected_eof, r) s = (err connection_closed, s, r)
  read_behind_header (err other_io, r) s = (err (io other_io), s, r)
  read_behind_header (ok len_buf, r) s = read_payload (u32_from_be_bytes len_buf) r s

  pub read_message : Reader → S → Result CodecError T × S × Reader
  unfolding read_behind_header read_payload
  read_message r s = read_behind_header (read_exact 4 r) s
