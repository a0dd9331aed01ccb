-- ===== src/Tests/Sdk.antt =====
-- cache.rs on concrete caches and files.
use bitsafe.Prelude.{◌≡◌, ◌↔◌, refl, none, some, [], ◌∷◌, arith, replicate, true}
use bitsafe.Prelude.Bytes.{Bytes}
use bitsafe.Prelude.Texts.{Text, text}
use bitsafe.Prelude.Results.{ok}
use bitsafe.Sdk.Cache.{
  VaultCache, CacheLibraries, CacheEnvelope, unsigned_cache, compute_hmac, verify_hmac, build,
  seal_cache, open_cache, compute_vault_hash, is_encrypted, serialize_envelope,
  parse_cache_envelope, hex_encode,
}
use bitsafe.Sdk.Cache.Floor.{
  Kdf, CachedKdf, IsStrong, IsNonZero, from_kdf, to_kdf, validate_floor, validate_floor_iff,
  validated-to_kdf,
}
use bitsafe.Sdk.Cache.Envelope.{IsSealing, parse-serialize, open-seal}
use bitsafe.Sdk.Cache.Integrity.{IsHmac, verify_hmac_iff}
use bitsafe.Tests.Libraries.{seal_bytes, open_bytes, open-sealed}

abbrev signed_text : Text
signed_text = replicate 64 48

abbrev unsigned : VaultCache
unsigned =
    unsigned_cache (Kdf.pbkdf2 600000) (text "key") (text "private") none (text "a@b")
      (text "https://b") [] none

abbrev signed : VaultCache
signed = record unsigned { integrity_hmac = signed_text }

-- The body of a file is that of the cache `signed`; every MAC is 32 zero bytes.
abbrev pub test_libraries : CacheLibraries
test_libraries = record {
  cache_to_vec = λ cache. ok (text "cache");
  cache_from_slice = λ bytes. ok signed;
  ciphers_to_vec = λ ciphers. ok [];
  expand = λ salt secret info. some secret;
  hmac = λ key message. replicate 32 0;
  sha256 = λ message. replicate 32 1;
  encrypt = λ key nonce plaintext. some (seal_bytes plaintext);
  decrypt = λ key nonce ciphertext. open_bytes ciphertext;
}

test_libraries-IsHmac : IsHmac test_libraries
test_libraries-IsHmac = record {
  length-hmac = λ key message. refl;
  bytes-hmac = λ key message. omega arith;
}

test_libraries-IsSealing : IsSealing test_libraries
test_libraries-IsSealing = record { decrypt-encrypt = λ key nonce p c h. open-sealed p c h }

verify_hmac_iff_example :
    (verify_hmac test_libraries signed (text "hash") ≡ ok true)
    ↔ (signed_text ≡ hex_encode (replicate 32 0))
verify_hmac_iff_example =
    verify_hmac_iff test_libraries test_libraries-IsHmac signed (text "hash") (text "hash")
      (text "cache") (omega arith) refl refl

built : build test_libraries unsigned (text "hash") ≡ ok signed
unfolding build compute_hmac hex_encode
built = refl

abbrev sealed : CacheEnvelope
sealed = record {
  flags = 1;
  vault_hash = replicate 32 1;
  nonce = replicate 24 5;
  body = seal_bytes (text "cache");
}

sealed_with_key : seal_cache test_libraries signed (some (9 ∷ [])) (replicate 24 5) ≡ ok sealed
unfolding seal_cache compute_vault_hash
sealed_with_key = refl

open-seal_example :
    (open_cache test_libraries sealed (some (9 ∷ [])) ≡ ok signed) × (is_encrypted sealed ≡ true)
open-seal_example =
    open-seal test_libraries signed (some (9 ∷ [])) (replicate 24 5) (text "cache") sealed refl refl
      test_libraries-IsSealing sealed_with_key

parse-serialize_example :
    (bytes : Bytes) × (serialize_envelope sealed ≡ ok bytes)
    × (parse_cache_envelope bytes ≡ ok sealed)
parse-serialize_example =
    parse-serialize sealed
      (record { flags_byte = omega arith; hash_size = refl; nonce_size = refl })
      (unfold text in omega arith)

abbrev argon : CachedKdf
argon = CachedKdf.argon2id 3 64 4

argon_passes : validate_floor argon ≡ ok tt
argon_passes = (validate_floor_iff argon).1 (omega arith)

validated-to_kdf_example :
    (kdf : Kdf) × IsStrong argon × (to_kdf argon ≡ ok kdf) × IsNonZero kdf × (from_kdf kdf ≡ argon)
validated-to_kdf_example = validated-to_kdf argon argon_passes
