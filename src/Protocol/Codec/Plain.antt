-- ===== src/Protocol/Codec/Plain.antt =====
-- codec.rs: framing, whatever the codec, and the round trip of the plain codec.
use bitsafe.Prelude.{ℕ, ◌%◌, ◌^◌, ◌≤◌, ◌≡◌, none, ◌++◌, [], arith, length, ap, ◌∙◌, le→ltb_false}
use bitsafe.Prelude.Bytes.{
  Bytes, u32_to_be_bytes, u32_from_be_bytes, u32_from_be_bytes-u32_to_be_bytes,
}
use bitsafe.Prelude.Results.{Result, ok, map_err}
use bitsafe.Protocol.Stream.{Reader, Ending, read_exact, read_exact-append}
use bitsafe.Protocol.Codec.{
  Codec, CodecError, json, max_message_size, frame, plain_codec, decode_payload, read_payload,
  read_behind_header, read_message, write_message,
}
use bitsafe.Protocol.Codec.Crypto.{Json, IsJson}
use mathlib.Core.List.{append_assoc}

-- The four bytes of a length stand in front of the stream.
read_exact-header :
    (n : ℕ) (rest : Bytes) (e : Ending)
    → read_exact 4 (record { pending = u32_to_be_bytes n ++ rest; ending = e })
      ≡ (ok (u32_to_be_bytes n), record { pending = rest; ending = e })
unfolding u32_to_be_bytes
read_exact-header n rest e = read_exact-append (u32_to_be_bytes n) rest e

-- The length in a frame of at most `max_message_size` bytes is exact.
frame_length :
    (payload : Bytes)
    → length payload ≤ max_message_size
    → u32_from_be_bytes (u32_to_be_bytes (length payload % 2 ^ 32)) ≡ length payload
frame_length payload h =
    u32_from_be_bytes-u32_to_be_bytes (length payload % 2 ^ 32) (omega arith) ∙ omega arith

abbrev pub decoded :
    {S T : Type 0} → Result CodecError T × S → Reader → Result CodecError T × S × Reader
decoded (m, s) r = (m, s, r)

module _ {S T : Type 0} (codec : Codec S T) where
  read_payload_lem :
      (payload rest : Bytes) (e : Ending) (s : S)
      → length payload ≤ max_message_size
      → read_payload codec (length payload) (record { pending = payload ++ rest; ending = e }) s
        ≡ decoded (codec.decode s payload) (record { pending = rest; ending = e })
  unfolding read_payload
  read_payload_lem payload rest e s h =
      rw (le→ltb_false _ _ h)
        (ap (λ p. decode_payload codec p s) (read_exact-append payload rest e))

  -- A frame in front of the stream is decoded, and what follows it stays.
  pub read_message-frame :
      (payload rest : Bytes) (e : Ending) (s : S)
      → length payload ≤ max_message_size
      → read_message codec (record { pending = frame payload ++ rest; ending = e }) s
        ≡ decoded (codec.decode s payload) (record { pending = rest; ending = e })
  unfolding read_message
  read_message-frame payload rest e s h = rw append_assoc (
      ap (λ p. read_behind_header codec p s)
        (read_exact-header (length payload % 2 ^ 32) (payload ++ rest) e)
      ∙ ap (λ n. read_payload codec n (record { pending = payload ++ rest; ending = e }) s)
          (frame_length payload h)
      ∙ read_payload_lem payload rest e s h)

  -- On a stream with room, a message is written behind what stands there.
  pub write_message-ok :
      (before bytes : Bytes) (s s' : S) (msg : T)
      → codec.encode s msg ≡ (ok bytes, s')
      → write_message codec (record { written = before; room = none }) s msg
        ≡ (ok tt, s', record { written = before ++ bytes; room = none })
  unfolding write_message
  write_message-ok before bytes s s' msg h = rw h

plain_codec-encode :
    {T : Type 0} (j : Json T) (msg : T) (bytes : Bytes)
    → j.to_vec msg ≡ ok bytes
    → (plain_codec j).encode tt msg ≡ (ok (frame bytes), tt)
unfolding plain_codec
plain_codec-encode j msg bytes h = ground arith

-- The plain codec: a message of at most 1 MiB of JSON that is written to a stream is read back, the
-- writing succeeds, and the reader is left with exactly the bytes that follow the message.
pub read-write_plain :
    {T : Type 0} (j : Json T) (msg : T) (bytes rest : Bytes) (e : Ending)
    → IsJson j
    → j.to_vec msg ≡ ok bytes
    → length bytes ≤ max_message_size
    → (write_message (plain_codec j) (record { written = []; room = none }) tt msg
        ≡ (ok tt, tt, record { written = frame bytes; room = none }))
      × (read_message (plain_codec j) (record { pending = frame bytes ++ rest; ending = e }) tt
          ≡ (ok msg, tt, record { pending = rest; ending = e }))
unfolding plain_codec
read-write_plain j msg bytes rest e law h fits = (
  write_message-ok (plain_codec j) [] (frame bytes) tt tt msg (plain_codec-encode j msg bytes h),
  rw (read_message-frame (plain_codec j) bytes rest e tt fits) (
      ap (λ m. decoded (map_err json m, tt) (record { pending = rest; ending = e }))
        (law.from_slice-to_vec msg bytes h)),
)
