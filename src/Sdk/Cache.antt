-- ===== src/Sdk/Cache.antt =====
-- crates/grimoire-sdk/src/cache.rs: the vault cache, its HMAC, the CEK envelope and the file format.
-- serde_json, HKDF, HMAC, SHA-256, XChaCha20-Poly1305 and the random nonce are parameters.
pub mod Floor
pub mod Envelope
pub mod Integrity
use bitsafe.Prelude.{
  ℕ, zero, ◌+◌, ◌*◌, ◌/◌, ◌%◌, ◌^◌, Bool, true, false, Option, none, some, List, [], ◌∷◌, ◌++◌, ltb,
  leb, ◌==◌, not, ◌||◌, if◌then◌else◌, length, take, drop, replicate, map,
}
use bitsafe.Prelude.Bytes.{Bytes, to_le_bytes, from_le_bytes}
use bitsafe.Prelude.Texts.{Text, text, text_eq, display}
use bitsafe.Prelude.ConstantTime.{fold_difference}
use bitsafe.Prelude.Results.{Result, ok, err, ◌>>=◌, ◌>>◌, map_err, ok_or, reject_if}
use bitsafe.Protocol.Request.Json.{Value}
use bitsafe.Sdk.{SdkError, internal}
use Floor.{Kdf, CachedKdf, from_kdf}

abbrev pub cache_version : ℕ
cache_version = 1

abbrev pub max_body_size : ℕ
max_body_size = 256 * 1024 * 1024

pub record VaultCache : Type 0 where
  pub version : ℕ
  pub kdf : CachedKdf
  pub encrypted_user_key : Text
  pub encrypted_private_key : Text
  pub user_id : Option Text
  pub email : Text
  pub server_url : Text
  pub ciphers : List Value
  pub last_sync : Option ℕ
  pub integrity_hmac : Text

-- The libraries that cache.rs calls. `expand salt secret info` is HKDF-SHA256, `none` where it
-- fails; `encrypt` and `decrypt` take the key, the nonce and the text.
pub record CacheLibraries : Type 0 where
  pub cache_to_vec : VaultCache → Result Text Bytes
  pub cache_from_slice : Bytes → Result Text VaultCache
  pub ciphers_to_vec : List Value → Result Text Bytes
  pub expand : Bytes → Bytes → Bytes → Option Bytes
  pub hmac : Bytes → Bytes → Bytes
  pub sha256 : Bytes → Bytes
  pub encrypt : Bytes → Bytes → Bytes → Option Bytes
  pub decrypt : Bytes → Bytes → Bytes → Option Bytes

pub record CacheEnvelope : Type 0 where
  pub flags : ℕ
  pub vault_hash : Bytes
  pub nonce : Bytes
  pub body : Bytes

-- One byte in two lower-case hexadecimal digits, `{b:02x}`.
hex_digit : ℕ → ℕ
hex_digit d = if ltb d 10 then 48 + d else 87 + d

unfoldable pub hex_encode : Bytes → Text
unfolding hex_digit
hex_encode [] = []
hex_encode (b ∷ bs) = hex_digit (b / 16) ∷ hex_digit (b % 16) ∷ hex_encode bs

pub constant_time_eq_hmac : Bytes → Bytes → Bool
constant_time_eq_hmac a b =
    if not (length a == 64) || not (length b == 64) then false else fold_difference 0 a b == 0

-- `flags & FLAG_CEK_ENCRYPTED != 0`, bit 0.
pub is_encrypted : CacheEnvelope → Bool
is_encrypted envelope = envelope.flags % 2 == 1

-- The fields that `VaultCache::build` starts from.
unfoldable pub unsigned_cache :
    Kdf → Text → Text → Option Text → Text → Text → List Value → Option ℕ → VaultCache
unsigned_cache kdf user_key private_key user_id email server_url ciphers last_sync = record {
  version = cache_version;
  kdf = from_kdf kdf;
  encrypted_user_key = user_key;
  encrypted_private_key = private_key;
  user_id = user_id;
  email = email;
  server_url = server_url;
  ciphers = ciphers;
  last_sync = last_sync;
  integrity_hmac = [];
}

module _ (lib : CacheLibraries) where
  derive_hmac_key : Text → Result SdkError Bytes
  derive_hmac_key password_hash =
      ok_or (internal (text "HKDF expand failed"))
        (lib.expand (text "grimoire-vault-cache") password_hash (text "hmac-v1"))

  -- The cache with its HMAC cleared.
  canonical_bytes : VaultCache → Result SdkError Bytes
  canonical_bytes cache =
      map_err (λ e. internal (text "Cache serialization failed: " ++ e))
        (lib.cache_to_vec (record cache { integrity_hmac = [] }))

  unfoldable pub compute_hmac : VaultCache → Text → Result SdkError Text
  unfolding derive_hmac_key canonical_bytes
  compute_hmac cache password_hash = do
    hmac_key ← derive_hmac_key password_hash
    canonical ← canonical_bytes cache
    ok (hex_encode (lib.hmac hmac_key canonical))

  pub verify_hmac : VaultCache → Text → Result SdkError Bool
  verify_hmac cache password_hash = do
    expected ← compute_hmac cache password_hash
    ok (constant_time_eq_hmac cache.integrity_hmac expected)

  -- `VaultCache::build`; `unsigned` is the cache before its HMAC is set.
  unfoldable pub build : VaultCache → Text → Result SdkError VaultCache
  build unsigned password_hash = do
    mac ← compute_hmac unsigned password_hash
    ok (record unsigned { integrity_hmac = mac })

  -- A cipher array that cannot be serialized is hashed by its error message.
  hash_input : Result Text Bytes → Bytes
  hash_input (ok bytes) = bytes
  hash_input (err e) = text "ERROR:" ++ e

  unfoldable pub compute_vault_hash : List Value → Bytes
  unfolding hash_input
  compute_vault_hash ciphers = lib.sha256 (hash_input (lib.ciphers_to_vec ciphers))

  seal_with : Option Bytes → Bytes → Bytes → Bytes → Result SdkError CacheEnvelope
  seal_with none nonce hash plaintext =
      ok (record { flags = 0; vault_hash = hash; nonce = replicate 24 0; body = plaintext })
  seal_with (some key) nonce hash plaintext = do
    ciphertext ← ok_or (internal (text "Cache encryption failed")) (lib.encrypt key nonce plaintext)
    ok (record { flags = 1; vault_hash = hash; nonce = nonce; body = ciphertext })

  -- The 24 bytes that `OsRng` draws are an argument.
  unfoldable pub seal_cache : VaultCache → Option Bytes → Bytes → Result SdkError CacheEnvelope
  unfolding seal_with
  seal_cache cache cek random_nonce = do
    plaintext ←
        map_err (λ e. internal (text "Cache serialization failed: " ++ e)) (lib.cache_to_vec cache)
    seal_with cek random_nonce (compute_vault_hash cache.ciphers) plaintext

  decrypt_body : CacheEnvelope → Option Bytes → Result SdkError Bytes
  decrypt_body envelope none = err (internal (text "Cache is CEK-encrypted but no CEK available"))
  decrypt_body envelope (some key) =
      ok_or (internal (text "Cache decryption failed (CEK mismatch or corrupted)"))
        (lib.decrypt key envelope.nonce envelope.body)

  pub open_cache : CacheEnvelope → Option Bytes → Result SdkError VaultCache
  unfolding decrypt_body is_encrypted
  open_cache envelope cek = do
    plaintext ← if is_encrypted envelope then decrypt_body envelope cek else ok envelope.body
    map_err (λ e. internal (text "Cache deserialization failed: " ++ e))
        (lib.cache_from_slice plaintext)

-- `b"GRMC"`
abbrev pub cache_magic : Bytes
cache_magic = b'G' ∷ b'R' ∷ b'M' ∷ b'C' ∷ []

-- The bytes of the file; a body of 4 GiB or more is refused.
pub serialize_envelope : CacheEnvelope → Result SdkError Bytes
serialize_envelope envelope =
    if leb (2 ^ 32) (length envelope.body)
    then err (internal (text "Cache body too large"))
    else ok (
        cache_magic
        ++ (to_le_bytes 4 cache_version
            ++ (envelope.flags
                ∷ (envelope.vault_hash
                    ++ (envelope.nonce
                        ++ (to_le_bytes 4 (length envelope.body) ++ envelope.body))))))

-- The bytes `data[from..to]`, within the length that the caller has checked.
abbrev pub slice : ℕ → ℕ → Bytes → Bytes
slice from count bytes = take count (drop from bytes)

abbrev byte_at : ℕ → Bytes → ℕ
byte_at n bytes = from_le_bytes (slice n 1 bytes)

pub parse_cache_envelope : Bytes → Result SdkError CacheEnvelope
parse_cache_envelope bytes = do
  reject_if (ltb (length bytes) 69) (internal (text "Cache file too small"))
  reject_if (not (text_eq (slice 0 4 bytes) cache_magic)) (internal (text "Invalid cache magic"))
  let version = from_le_bytes (slice 4 4 bytes)
  reject_if (not (version == cache_version))
      (internal (text "Unsupported cache version: " ++ display version))
  let body_len = from_le_bytes (slice 65 4 bytes)
  reject_if (ltb max_body_size body_len) (
      internal (
        text "Cache body too large: "
        ++ (display body_len ++ (text " bytes (max " ++ (display max_body_size ++ text ")")))))
  reject_if (ltb (length bytes) (69 + body_len)) (internal (text "Cache file truncated"))
  ok (record {
    flags = byte_at 8 bytes;
    vault_hash = slice 9 32 bytes;
    nonce = slice 41 24 bytes;
    body = slice 69 body_len bytes;
  })
