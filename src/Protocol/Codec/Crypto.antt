-- ===== src/Protocol/Codec/Crypto.antt =====
-- The libraries that codec.rs calls, and what it relies on of each.
use bitsafe.Prelude.{◌+◌, String, ◌≡◌, Option, some, length}
use bitsafe.Prelude.Bytes.{Bytes}
use bitsafe.Prelude.Results.{Result, ok}

-- serde_json at one type of messages.
pub record Json (T : Type 0) : Type 0 where
  pub to_vec : T → Result String Bytes
  pub from_slice : Bytes → Result String T

-- What is serialized is read back.
pub record IsJson {T : Type 0} (j : Json T) : Type 0 where
  pub from_slice-to_vec :
      (m : T) (bytes : Bytes) → j.to_vec m ≡ ok bytes → j.from_slice bytes ≡ ok m

-- ChaCha20-Poly1305: key, nonce, and the text.
pub record Aead : Type 0 where
  pub encrypt : Bytes → Bytes → Bytes → Option Bytes
  pub decrypt : Bytes → Bytes → Bytes → Option Bytes

-- The key and the nonce that sealed a text open it, and the tag has 16 bytes.
pub record IsAead (a : Aead) : Type 0 where
  pub decrypt-encrypt :
      (key nonce plaintext ciphertext : Bytes)
      → a.encrypt key nonce plaintext ≡ some ciphertext
      → a.decrypt key nonce ciphertext ≡ some plaintext
  pub length-encrypt :
      (key nonce plaintext ciphertext : Bytes)
      → a.encrypt key nonce plaintext ≡ some ciphertext
      → length ciphertext ≡ length plaintext + 16

-- X25519 and HKDF-SHA256 without a salt: `expand secret info`.
pub record KeyExchange : Type 0 where
  pub public_key : Bytes → Bytes
  pub diffie_hellman : Bytes → Bytes → Bytes
  pub expand : Bytes → Bytes → Bytes

-- Both sides reach one secret, and a public key has 32 bytes.
pub record IsKeyExchange (x : KeyExchange) : Type 0 where
  pub diffie_hellman_comm :
      (a b : Bytes) → x.diffie_hellman a (x.public_key b) ≡ x.diffie_hellman b (x.public_key a)
  pub length-public_key : (a : Bytes) → length (x.public_key a) ≡ 32
