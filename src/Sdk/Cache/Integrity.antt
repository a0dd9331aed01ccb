-- ===== src/Sdk/Cache/Integrity.antt =====
-- cache.rs: the HMAC that ties a cache to the master password.
use bitsafe.Prelude.{
  ℕ, ◌*◌, ◌/◌, ◌%◌, ◌<◌, ◌≡◌, ◌↔◌, refl, ap, ◌∙◌, subst, true, some, [], ◌∷◌, arith, length, All,
}
use bitsafe.Prelude.Bytes.{Bytes}
use bitsafe.Prelude.Texts.{Text, text}
use bitsafe.Prelude.ConstantTime.{IsByte, fold_difference_iff}
use bitsafe.Prelude.Results.{ok, ◌>>=◌, >>=-eq-ok, ok-injective}
use bitsafe.Sdk.Cache.{
  VaultCache, CacheLibraries, hex_digit, hex_encode, constant_time_eq_hmac, derive_hmac_key,
  canonical_bytes, compute_hmac, verify_hmac, build,
}

-- HMAC-SHA256 gives 32 bytes.
pub record IsHmac (lib : CacheLibraries) : Type 0 where
  pub length-hmac : (key message : Bytes) → length (lib.hmac key message) ≡ 32
  pub bytes-hmac : (key message : Bytes) → All IsByte (lib.hmac key message)

hex_digit-lt : (d : ℕ) → d < 16 → hex_digit d < 256
unfolding hex_digit
hex_digit-lt d h = ground arith

length-hex_encode : (bytes : Bytes) → length (hex_encode bytes) ≡ 2 * length bytes
unfolding hex_encode
length-hex_encode [] = refl
length-hex_encode (b ∷ bs) = omega (arith, length-hex_encode bs)

bytes-hex_encode : (bytes : Bytes) → All IsByte bytes → All IsByte (hex_encode bytes)
unfolding hex_encode
bytes-hex_encode [] h = tt
bytes-hex_encode (b ∷ bs) (h, hs) = (
  hex_digit-lt (b / 16) (omega arith),
  (hex_digit-lt (b % 16) (omega arith), bytes-hex_encode bs hs),
)

-- On texts of 64 bytes the comparison decides equality.
constant_time_eq_iff :
    (a b : Text)
    → All IsByte a
    → All IsByte b
    → length b ≡ 64
    → (constant_time_eq_hmac a b ≡ true) ↔ (a ≡ b)
unfolding constant_time_eq_hmac
constant_time_eq_iff a b ha hb size = (
  λ h. (fold_difference_iff a b ha hb (ground arith)).0 (ground arith),
  λ e.
      let zeroed = (fold_difference_iff a b ha hb (ap length e)).1 e in
      let same = ap length e in ground arith,
)

module _ (lib : CacheLibraries) (law : IsHmac lib) where
  computed_shape :
      (cache : VaultCache) (password_hash mac : Text)
      → compute_hmac lib cache password_hash ≡ ok mac
      → (length mac ≡ 64) × All IsByte mac
  unfolding compute_hmac
  computed_shape cache password_hash mac h =
      let (key, _, h₁) = >>=-eq-ok (derive_hmac_key lib password_hash) _ h in
      let (canonical, _, h₂) = >>=-eq-ok (canonical_bytes lib cache) _ h₁ in
      let shape : (length (hex_encode (lib.hmac key canonical)) ≡ 64)
          × All IsByte (hex_encode (lib.hmac key canonical)) =
        (
          omega (arith, length-hex_encode (lib.hmac key canonical), law.length-hmac key canonical),
          bytes-hex_encode (lib.hmac key canonical) (law.bytes-hmac key canonical),
        ) in
      subst (λ m. (length m ≡ 64) × All IsByte m) (ok-injective h₂) shape

  computed :
      (cache : VaultCache) (password_hash : Text) (key canonical : Bytes)
      → lib.expand (text "grimoire-vault-cache") password_hash (text "hmac-v1") ≡ some key
      → lib.cache_to_vec (record cache { integrity_hmac = [] }) ≡ ok canonical
      → compute_hmac lib cache password_hash ≡ ok (hex_encode (lib.hmac key canonical))
  unfolding compute_hmac derive_hmac_key canonical_bytes
  computed cache password_hash key canonical hk hc = ground (arith, hk, hc)

  verify_hmac_computed :
      (cache : VaultCache) (password_hash mac : Text)
      → All IsByte cache.integrity_hmac
      → compute_hmac lib cache password_hash ≡ ok mac
      → (verify_hmac lib cache password_hash ≡ ok true) ↔ (cache.integrity_hmac ≡ mac)
  unfolding verify_hmac
  verify_hmac_computed cache password_hash mac hb h =
      let (size, bytes) = computed_shape cache password_hash mac h in
      let same = constant_time_eq_iff cache.integrity_hmac mac hb bytes size in
      rw (h, ◌>>=◌) (λ e. same.0 (ok-injective e), λ e. ap ok (same.1 e))

  -- Whether a cache is accepted for a password hash: exactly if its HMAC is, in hexadecimal digits,
  -- the HMAC-SHA256 of the whole cache as JSON, with an empty HMAC in it, under the key that HKDF
  -- derives from the password hash. The derivation and the serialization are taken to succeed,
  -- HMAC-SHA256 to give 32 bytes, and the HMAC in the cache to be of bytes.
  pub verify_hmac_iff :
      (cache : VaultCache) (password_hash : Text) (key canonical : Bytes)
      → All IsByte cache.integrity_hmac
      → lib.expand (text "grimoire-vault-cache") password_hash (text "hmac-v1") ≡ some key
      → lib.cache_to_vec (record cache { integrity_hmac = [] }) ≡ ok canonical
      → (verify_hmac lib cache password_hash ≡ ok true)
        ↔ (cache.integrity_hmac ≡ hex_encode (lib.hmac key canonical))
  verify_hmac_iff cache password_hash key canonical hb hk hc =
      verify_hmac_computed cache password_hash (hex_encode (lib.hmac key canonical)) hb
        (computed cache password_hash key canonical hk hc)

  compute_hmac-signed :
      (cache : VaultCache) (mac password_hash : Text)
      → compute_hmac lib (record cache { integrity_hmac = mac }) password_hash
        ≡ compute_hmac lib cache password_hash
  unfolding compute_hmac
  compute_hmac-signed cache mac password_hash = refl

  -- A cache that was built holds what it was built from and the HMAC of that, and is accepted for
  -- the password hash that it was built with.
  pub verify-build :
      (unsigned : VaultCache) (password_hash : Text) (cache : VaultCache)
      → build lib unsigned password_hash ≡ ok cache
      → (cache ≡ record unsigned { integrity_hmac = cache.integrity_hmac })
        × (compute_hmac lib unsigned password_hash ≡ ok cache.integrity_hmac)
        × (verify_hmac lib cache password_hash ≡ ok true)
  unfolding build
  verify-build unsigned password_hash cache h =
      let (mac, computed, signed) = >>=-eq-ok (compute_hmac lib unsigned password_hash) _ h in
      let is_signed : record unsigned { integrity_hmac = mac } ≡ cache = ok-injective signed in
      subst
        (λ c.
          (c ≡ record unsigned { integrity_hmac = c.integrity_hmac })
          × (compute_hmac lib unsigned password_hash ≡ ok c.integrity_hmac)
          × (verify_hmac lib c password_hash ≡ ok true))
        is_signed
        (
          refl,
          computed,
          (verify_hmac_computed (record unsigned { integrity_hmac = mac }) password_hash mac
                (computed_shape unsigned password_hash mac computed).1
                (compute_hmac-signed unsigned mac password_hash ∙ computed)).1
              refl,
        )
