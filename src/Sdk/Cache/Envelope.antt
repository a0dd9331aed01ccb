-- ===== src/Sdk/Cache/Envelope.antt =====
-- cache.rs: the file format and the envelope, read back.
use bitsafe.Prelude.{
  ℕ, ◌+◌, ◌≤◌, ◌<◌, ◌≡◌, refl, ap, ◌∙◌, le→ltb_false, Bool, Option, none, some, ◌∷◌, ◌++◌, arith,
  length, take, drop, length-append, take-append_of_length, drop-append_of_length, take-length,
  true, false, Option-cases, inl, inr,
}
use bitsafe.Prelude.Bytes.{Bytes, to_le_bytes, from_le_bytes, from_le_bytes-to_le_bytes}
use bitsafe.Prelude.Texts.{text_eq}
use bitsafe.Prelude.Results.{ok}
use bitsafe.Sdk.Cache.{
  VaultCache, CacheLibraries, CacheEnvelope, cache_magic, cache_version, max_body_size, slice,
  serialize_envelope, parse_cache_envelope, is_encrypted, seal_cache, open_cache,
}

-- The fields of an envelope have the sizes of its arrays.
pub record IsEnvelope (e : CacheEnvelope) : Type 0 where
  pub flags_byte : e.flags < 256
  pub hash_size : length e.vault_hash ≡ 32
  pub nonce_size : length e.nonce ≡ 24

-- The bytes that `serialize_envelope` writes.
abbrev file : ℕ → Bytes → Bytes → Bytes → Bytes
file flags hash nonce body =
    cache_magic
    ++ (to_le_bytes 4 cache_version
        ++ (flags ∷ (hash ++ (nonce ++ (to_le_bytes 4 (length body) ++ body)))))

module _ (flags : ℕ) (hash nonce body : Bytes) (hh : length hash ≡ 32)
    (hn : length nonce ≡ 24) where
  file-vault_hash : slice 9 32 (file flags hash nonce body) ≡ hash
  unfolding to_le_bytes
  file-vault_hash = take-append_of_length hash _ 32 hh

  file_nonce : slice 41 24 (file flags hash nonce body) ≡ nonce
  unfolding to_le_bytes
  file_nonce =
      ap (take 24) (drop-append_of_length hash _ 32 0 hh) ∙ take-append_of_length nonce _ 24 hn

  file-length : slice 65 4 (file flags hash nonce body) ≡ to_le_bytes 4 (length body)
  unfolding to_le_bytes
  file-length =
      ap (take 4) (drop-append_of_length hash _ 32 24 hh ∙ drop-append_of_length nonce _ 24 0 hn)

  file_body : drop 69 (file flags hash nonce body) ≡ body
  unfolding to_le_bytes
  file_body = drop-append_of_length hash _ 32 28 hh ∙ drop-append_of_length nonce _ 24 4 hn

  file_size : length (file flags hash nonce body) ≡ 69 + length body
  unfolding to_le_bytes
  file_size = omega (
    arith,
    length-append hash (nonce ++ (to_le_bytes 4 (length body) ++ body)),
    length-append nonce (to_le_bytes 4 (length body) ++ body),
  )

  file_magic : text_eq (slice 0 4 (file flags hash nonce body)) cache_magic ≡ true
  unfolding text_eq
  file_magic = refl

  file_version : from_le_bytes (slice 4 4 (file flags hash nonce body)) ≡ cache_version
  unfolding to_le_bytes from_le_bytes
  file_version = refl

  file_flags : from_le_bytes (slice 8 1 (file flags hash nonce body)) ≡ flags
  unfolding to_le_bytes from_le_bytes
  file_flags = omega arith

-- What parsing makes of bytes whose parts are known.
parse_of_parts :
    (x : Bytes) (e : CacheEnvelope)
    → length x ≡ 69 + length e.body
    → length e.body ≤ max_body_size
    → text_eq (slice 0 4 x) cache_magic ≡ true
    → from_le_bytes (slice 4 4 x) ≡ cache_version
    → from_le_bytes (slice 8 1 x) ≡ e.flags
    → slice 9 32 x ≡ e.vault_hash
    → slice 41 24 x ≡ e.nonce
    → from_le_bytes (slice 65 4 x) ≡ length e.body
    → slice 69 (length e.body) x ≡ e.body
    → parse_cache_envelope x ≡ ok e
unfolding parse_cache_envelope
parse_of_parts x e size fits magic version flags hash nonce len body =
    rw (le→ltb_false (length x) 69 (omega arith)) (
      rw magic (
        rw version (
          rw len (
            rw (le→ltb_false max_body_size (length e.body) fits) (
              rw (le→ltb_false (length x) (69 + length e.body) (omega arith))
                (rw (flags, hash, nonce, body)))))))

-- An envelope whose fields have the sizes of its arrays and whose body is at most 256 MiB is
-- written, and the bytes that are written are parsed back to it.
pub parse-serialize :
    (e : CacheEnvelope)
    → IsEnvelope e
    → length e.body ≤ max_body_size
    → (bytes : Bytes) × (serialize_envelope e ≡ ok bytes) × (parse_cache_envelope bytes ≡ ok e)
unfolding serialize_envelope
parse-serialize e h fits =
    let hh = h.hash_size in
    let hn = h.nonce_size in
    let f = e.flags in
    (
      file f e.vault_hash e.nonce e.body,
      ground arith,
      parse_of_parts (file f e.vault_hash e.nonce e.body) e
          (file_size f e.vault_hash e.nonce e.body hh hn) fits
          (file_magic f e.vault_hash e.nonce e.body hh hn)
          (file_version f e.vault_hash e.nonce e.body hh hn)
          (file_flags f e.vault_hash e.nonce e.body hh hn)
          (file-vault_hash f e.vault_hash e.nonce e.body hh hn)
          (file_nonce f e.vault_hash e.nonce e.body hh hn)
          (ap from_le_bytes (file-length f e.vault_hash e.nonce e.body hh hn)
            ∙ from_le_bytes-to_le_bytes 4 (length e.body) (omega arith))
          (ap (take (length e.body)) (file_body f e.vault_hash e.nonce e.body hh hn)
            ∙ take-length e.body),
    )

-- The key and the nonce that sealed a body open it.
pub record IsSealing (lib : CacheLibraries) : Type 0 where
  pub decrypt-encrypt :
      (key nonce plaintext ciphertext : Bytes)
      → lib.encrypt key nonce plaintext ≡ some ciphertext
      → lib.decrypt key nonce ciphertext ≡ some plaintext

abbrev pub is_present : Option Bytes → Bool
is_present none = false
is_present (some key) = true

-- A cache that is serialized and sealed, with a key or without one, is opened with the same key, or
-- without one, as it was, and its envelope is marked as encrypted exactly if there was a key.
pub open-seal :
    (lib : CacheLibraries) (cache : VaultCache) (cek : Option Bytes)
    (random_nonce plaintext : Bytes) (e : CacheEnvelope)
    → lib.cache_to_vec cache ≡ ok plaintext
    → lib.cache_from_slice plaintext ≡ ok cache
    → IsSealing lib
    → seal_cache lib cache cek random_nonce ≡ ok e
    → (open_cache lib e cek ≡ ok cache) × (is_encrypted e ≡ is_present cek)
unfolding seal_cache open_cache
open-seal lib cache none random_nonce plaintext e hs hd law h = ground arith
open-seal lib cache (some key) random_nonce plaintext e hs hd law h =
    elim (Option-cases (lib.encrypt key random_nonce plaintext)) [
      | inl none' ↦ ground arith
      | inr (ciphertext, sealed) ↦
          let opened = law.decrypt-encrypt key random_nonce plaintext ciphertext sealed in
          ground arith
    ]
