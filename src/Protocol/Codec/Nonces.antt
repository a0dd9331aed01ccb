-- ===== src/Protocol/Codec/Nonces.antt =====
-- codec.rs: the nonces that `EncryptedCodec::encode` takes.
use bitsafe.Prelude.{
  ℕ, ◌+◌, ◌^◌, ◌≤◌, ◌<◌, ◌≡◌, ◌≢◌, sym, List, [], ◌∷◌, arith, length, ap, ◌∙◌, refl, drop, none,
  some, ◌++◌,
}
use bitsafe.Prelude.Bytes.{Bytes, from_le_bytes, from_le_bytes-to_le_bytes}
use bitsafe.Prelude.Results.{Result, ok, err}
use bitsafe.Protocol.Codec.{CodecError, crypto, EncryptedCodec, frame, nonce_from_counter, encode}
use bitsafe.Protocol.Codec.Crypto.{Json, Aead}

counter_of_nonce : (n : ℕ) → n < 2 ^ 64 → from_le_bytes (drop 4 (nonce_from_counter n)) ≡ n
unfolding nonce_from_counter
counter_of_nonce n h = from_le_bytes-to_le_bytes 8 n h

nonce_from_counter-injective :
    (m n : ℕ) → m < 2 ^ 64 → n < 2 ^ 64 → nonce_from_counter m ≡ nonce_from_counter n → m ≡ n
nonce_from_counter-injective m n hm hn e =
    sym (counter_of_nonce m hm) ∙ ap (λ b. from_le_bytes (drop 4 b)) e ∙ counter_of_nonce n hn

module _ {T : Type 0} (a : Aead) (j : Json T) where
  pub encode_all : EncryptedCodec → List T → EncryptedCodec
  encode_all c [] = c
  encode_all c (msg ∷ rest) = encode_all (encode a j c msg).1 rest

  encode_counter :
      (c : EncryptedCodec) (msg : T)
      → c.send_counter + 1 < 2 ^ 64
      → (c.send_counter ≤ (encode a j c msg).1.send_counter)
        × ((encode a j c msg).1.send_counter ≤ c.send_counter + 1)
  unfolding encode
  encode_counter c msg h = ground arith

  encode_all_counter :
      (c : EncryptedCodec) (msgs : List T)
      → c.send_counter + length msgs < 2 ^ 64
      → (c.send_counter ≤ (encode_all c msgs).send_counter)
        × ((encode_all c msgs).send_counter ≤ c.send_counter + length msgs)
  unfolding encode_all
  encode_all_counter c [] h = omega arith
  encode_all_counter c (msg ∷ rest) h =
      let (lo, hi) = encode_counter c msg (omega arith) in
      omega (arith, encode_all_counter (encode a j c msg).1 rest (omega arith))

  encode_takes :
      (c : EncryptedCodec) (msg : T) (plaintext : Bytes)
      → j.to_vec msg ≡ ok plaintext
      → c.send_counter + 1 < 2 ^ 64
      → (encode a j c msg).1.send_counter ≡ c.send_counter + 1
  unfolding encode
  encode_takes c msg plaintext hv h = ground arith

  encode_all_cipher :
      (c : EncryptedCodec) (msgs : List T) → (encode_all c msgs).send_cipher ≡ c.send_cipher
  unfolding encode_all encode
  encode_all_cipher c [] = refl
  encode_all_cipher c (msg ∷ rest) = encode_all_cipher (encode a j c msg).1 rest ∙ (ground arith)

  -- A message sealed under one key and one nonce: the frame of the nonce's last 8 bytes and what
  -- ChaCha20-Poly1305 makes of the message under that nonce, or the error if it fails.
  abbrev pub sealed_under : Bytes → Bytes → Bytes → Result CodecError Bytes
  sealed_under key nonce plaintext = elim (a.encrypt key nonce plaintext) [
    | some ciphertext ↦ ok (frame (drop 4 nonce ++ ciphertext))
    | none ↦ err (crypto "Encrypt failed")
  ]

  encode-sealed_under :
      (c : EncryptedCodec) (msg : T) (plaintext : Bytes)
      → j.to_vec msg ≡ ok plaintext
      → (encode a j c msg).0
        ≡ sealed_under c.send_cipher (nonce_from_counter c.send_counter) plaintext
  unfolding encode
  encode-sealed_under c msg plaintext hv = ground (arith, hv)

  -- Two messages that one side sends on a connection, with any messages in between, are sealed by
  -- `encode` under the connection's one key and two nonces, and these nonces differ, as long as the
  -- connection has sent fewer than 2^64 messages: also where sealing failed, a serialized message
  -- has used its nonce up. The two messages are taken to serialize.
  pub nonces_differ :
      (c : EncryptedCodec) (first later : T) (plaintext later_plaintext : Bytes) (between : List T)
      → j.to_vec first ≡ ok plaintext
      → j.to_vec later ≡ ok later_plaintext
      → c.send_counter + 1 + length between < 2 ^ 64
      → let c' = encode_all (encode a j c first).1 between in
        (nonce : Bytes) × (nonce' : Bytes) × ((encode a j c first).0
          ≡ sealed_under c.send_cipher nonce plaintext)
        × ((encode a j c' later).0 ≡ sealed_under c.send_cipher nonce' later_plaintext)
        × (nonce ≢ nonce')
  unfolding encode encode_all
  nonces_differ c first later plaintext later_plaintext between hv hl h =
      let c₁ = (encode a j c first).1 in
      let c₂ = encode_all c₁ between in
      let taken = encode_takes c first plaintext hv (omega arith) in
      let (lo, hi) = encode_all_counter c₁ between (omega arith) in
      let key : c₂.send_cipher ≡ c.send_cipher = encode_all_cipher c (first ∷ between) in
      (
        nonce_from_counter c.send_counter,
        nonce_from_counter c₂.send_counter,
        encode-sealed_under c first plaintext hv,
        encode-sealed_under c₂ later later_plaintext hl
            ∙ ap (λ k. sealed_under k (nonce_from_counter c₂.send_counter) later_plaintext) key,
        λ e.
            let same =
              nonce_from_counter-injective c.send_counter c₂.send_counter (omega arith)
                (omega arith) e in
            absurd (omega arith),
      )
