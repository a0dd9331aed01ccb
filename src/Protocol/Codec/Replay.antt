-- ===== src/Protocol/Codec/Replay.antt =====
-- codec.rs: the replay test of `EncryptedCodec::decode`, over sequences of messages.
use bitsafe.Prelude.{
  ℕ, ◌+◌, ◌-◌, ◌^◌, ◌≤◌, ◌<◌, ◌≡◌, List, [], ◌∷◌, arith, length, ap, ◌∙◌, true, false, All,
}
use bitsafe.Prelude.Bytes.{Bytes}
use bitsafe.Prelude.Results.{Result, ok, err}
use bitsafe.Protocol.Codec.{CodecError, crypto, EncryptedCodec, is_replay, decode}
use bitsafe.Protocol.Codec.Crypto.{Json, Aead}
use bitsafe.Protocol.Codec.Sealed.{counter_of, decode-fresh, decode-stale}

abbrev pub replayed : {T : Type 0} → Result CodecError T
replayed = err (crypto "Replayed or out-of-order message rejected")

abbrev max_counter : ℕ
max_counter = 18446744073709551615

behind : (n last : ℕ) → n < last → is_replay n last ≡ true
behind n last h = ground arith

not_replay_of_zero : (n : ℕ) → is_replay n 0 ≡ false
not_replay_of_zero n = ground arith

module _ {T : Type 0} (a : Aead) (j : Json T) where
  -- As long as no message carries the largest counter, the receive counter never goes back,
  -- whatever bytes arrive and whether or not they decrypt.
  pub recv_counter-le-decode :
      (c : EncryptedCodec) (bytes : Bytes)
      → counter_of bytes < 2 ^ 64 - 1
      → c.recv_counter ≤ (decode a j c bytes).1.recv_counter
  unfolding decode
  recv_counter-le-decode c bytes h = ground arith

  accepted-fresh :
      (c : EncryptedCodec) (bytes : Bytes) (msg : T)
      → (decode a j c bytes).0 ≡ ok msg
      → (24 ≤ length bytes) × (is_replay (counter_of bytes) c.recv_counter ≡ false)
  unfolding decode
  accepted-fresh c bytes msg h = ground arith

  pub decode_all : EncryptedCodec → List Bytes → EncryptedCodec
  decode_all c [] = c
  decode_all c (bytes ∷ rest) = decode_all (decode a j c bytes).1 rest

  recv_counter-le-decode_all :
      (c : EncryptedCodec) (between : List Bytes)
      → All (λ bytes. counter_of bytes < 2 ^ 64 - 1) between
      → c.recv_counter ≤ (decode_all c between).recv_counter
  unfolding decode_all
  recv_counter-le-decode_all c [] h = omega arith
  recv_counter-le-decode_all c (bytes ∷ rest) (h, hs) = omega (
    arith,
    recv_counter-le-decode c bytes h,
    recv_counter-le-decode_all (decode a j c bytes).1 rest hs,
  )

  -- Replay protection: once a payload is accepted, every payload whose counter is not larger, itself
  -- first of all, is refused and changes nothing, after any number of other payloads in between,
  -- provided that neither the accepted one nor one in between carries the largest counter.
  pub accepted_once :
      (c : EncryptedCodec) (bytes : Bytes) (msg : T) (between : List Bytes) (late : Bytes)
      → (decode a j c bytes).0 ≡ ok msg
      → counter_of bytes < 2 ^ 64 - 1
      → All (λ other. counter_of other < 2 ^ 64 - 1) between
      → 24 ≤ length late
      → counter_of late ≤ counter_of bytes
      → decode a j (decode_all c (bytes ∷ between)) late
        ≡ (replayed, decode_all c (bytes ∷ between))
  unfolding decode_all
  accepted_once c bytes msg between late hok hb hs long hl =
      let (size, fresh) = accepted-fresh c bytes msg hok in
      let passed : counter_of bytes < (decode a j c bytes).1.recv_counter =
        rw (decode-fresh a j c bytes size fresh) (omega arith) in
      decode-stale a j (decode_all (decode a j c bytes).1 between) late long (
        behind (counter_of late) (decode_all (decode a j c bytes).1 between).recv_counter
          (omega (arith, recv_counter-le-decode_all (decode a j c bytes).1 between hs)))

  -- A payload of at least 24 bytes that carries the largest counter, whatever else it holds and
  -- whether or not it decrypts, sets a receive counter below that one back to 0 and changes nothing
  -- else.
  pub counter_wrap :
      (c : EncryptedCodec) (forged : Bytes)
      → 24 ≤ length forged
      → counter_of forged ≡ 2 ^ 64 - 1
      → c.recv_counter < 2 ^ 64 - 1
      → (decode a j c forged).1 ≡ record c { recv_counter = 0 }
  unfolding decode
  counter_wrap c forged long h hc = ground arith

  recv_cipher-decode :
      (c : EncryptedCodec) (bytes : Bytes) → (decode a j c bytes).1.recv_cipher ≡ c.recv_cipher
  unfolding decode
  recv_cipher-decode c bytes = ground arith

  -- A codec that has seen nothing accepts what one with the same key has accepted.
  reopened :
      (c d : EncryptedCodec) (old : Bytes) (msg : T)
      → (decode a j c old).0 ≡ ok msg
      → d.recv_counter ≡ 0
      → d.recv_cipher ≡ c.recv_cipher
      → (decode a j d old).0 ≡ ok msg
  reopened c d old msg hok zeroed key =
      let (size, fresh) = accepted-fresh c old msg hok in
      let opened = rw (decode-fresh a j c old size fresh) at hok in
      rw (decode-fresh a j d old size (rw zeroed (not_replay_of_zero (counter_of old))))
        (rw key opened)

  -- A forged payload of at least 24 bytes with the largest counter undoes the replay protection: a
  -- payload that was accepted, with a counter at least two below the largest, is accepted again right
  -- behind the forged one.
  pub replay_after_wrap :
      (c : EncryptedCodec) (old : Bytes) (msg : T) (forged : Bytes)
      → (decode a j c old).0 ≡ ok msg
      → counter_of old + 1 < 2 ^ 64 - 1
      → 24 ≤ length forged
      → counter_of forged ≡ 2 ^ 64 - 1
      → (decode a j (decode_all c (old ∷ forged ∷ [])) old).0 ≡ ok msg
  unfolding decode_all
  replay_after_wrap c old msg forged hok ho long hf =
      let (size, fresh) = accepted-fresh c old msg hok in
      let middle : (decode a j c old).1.recv_counter < 2 ^ 64 - 1 =
        rw (decode-fresh a j c old size fresh) (omega arith) in
      let wrapped = counter_wrap (decode a j c old).1 forged long hf middle in
      reopened c (decode a j (decode a j c old).1 forged).1 old msg hok
        (ap (λ d. d.recv_counter) wrapped)
        (ap (λ d. d.recv_cipher) wrapped ∙ recv_cipher-decode c old)
