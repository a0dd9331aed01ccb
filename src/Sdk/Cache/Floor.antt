-- ===== src/Sdk/Cache/Floor.antt =====
-- crates/grimoire-sdk/src/cache.rs: the KDF parameters in the cache and their floor.
use bitsafe.Prelude.{ℕ, zero, suc, ◌≤◌, ◌<◌, ◌≡◌, ◌↔◌, refl, arith, ltb, ◌++◌}
use bitsafe.Prelude.Texts.{Text, text, display}
use bitsafe.Prelude.Results.{Result, ok, err, ◌>>=◌, ◌>>◌, reject_if}
use bitsafe.Sdk.{SdkError, internal}

-- `bitwarden_crypto::Kdf`, whose numbers are `NonZeroU32`: iterations; iterations, memory and
-- parallelism.
pub data Kdf : Type 0 where
  pbkdf2 : ℕ → Kdf
  argon2id : ℕ → ℕ → ℕ → Kdf

pub data CachedKdf : Type 0 where
  pbkdf2 : ℕ → CachedKdf
  argon2id : ℕ → ℕ → ℕ → CachedKdf

abbrev pub IsNonZero : Kdf → Type 0
IsNonZero (Kdf.pbkdf2 iterations) = 0 < iterations
IsNonZero (Kdf.argon2id iterations memory parallelism) =
    (0 < iterations) × (0 < memory) × (0 < parallelism)

abbrev pub min_pbkdf2_iterations : ℕ
min_pbkdf2_iterations = 100000

abbrev pub min_argon2_iterations : ℕ
min_argon2_iterations = 3

abbrev pub min_argon2_memory_mib : ℕ
min_argon2_memory_mib = 64

abbrev pub min_argon2_parallelism : ℕ
min_argon2_parallelism = 1

pub from_kdf : Kdf → CachedKdf
from_kdf (Kdf.pbkdf2 iterations) = CachedKdf.pbkdf2 iterations
from_kdf (Kdf.argon2id iterations memory parallelism) =
    CachedKdf.argon2id iterations memory parallelism

-- `NonZeroU32::new(n).ok_or_else(…)`
non_zero : ℕ → Text → Result SdkError ℕ
non_zero zero message = err (internal message)
non_zero (suc n) message = ok (suc n)

pub to_kdf : CachedKdf → Result SdkError Kdf
unfolding non_zero
to_kdf (CachedKdf.pbkdf2 iterations) = do
  iter ← non_zero iterations (text "Zero PBKDF2 iterations in cache")
  ok (Kdf.pbkdf2 iter)
to_kdf (CachedKdf.argon2id iterations memory parallelism) = do
  iter ← non_zero iterations (text "Zero Argon2 iterations in cache")
  mem ← non_zero memory (text "Zero Argon2 memory in cache")
  par ← non_zero parallelism (text "Zero Argon2 parallelism in cache")
  ok (Kdf.argon2id iter mem par)

below : Text → ℕ → ℕ → Text → SdkError
below what n floor unit = internal (
    text "Cached "
    ++ (what
        ++ (text " ("
            ++ (display n
                ++ (unit ++ (text ") below minimum (" ++ (display floor ++ (unit ++ text ")"))))))))

pub validate_floor : CachedKdf → Result SdkError (Unit {0})
validate_floor (CachedKdf.pbkdf2 iterations) =
    reject_if (ltb iterations min_pbkdf2_iterations)
      (below (text "PBKDF2 iterations") iterations min_pbkdf2_iterations (text ""))
validate_floor (CachedKdf.argon2id iterations memory parallelism) = do
  reject_if (ltb iterations min_argon2_iterations)
      (below (text "Argon2 iterations") iterations min_argon2_iterations (text ""))
  reject_if (ltb memory min_argon2_memory_mib)
      (below (text "Argon2 memory") memory min_argon2_memory_mib (text " MiB"))
  reject_if (ltb parallelism min_argon2_parallelism)
      (below (text "Argon2 parallelism") parallelism min_argon2_parallelism (text ""))

-- The parameters that the cache may hold.
abbrev pub IsStrong : CachedKdf → Type 0
IsStrong (CachedKdf.pbkdf2 iterations) = 100000 ≤ iterations
IsStrong (CachedKdf.argon2id iterations memory parallelism) =
    (3 ≤ iterations) × (64 ≤ memory) × (1 ≤ parallelism)

-- The floor check accepts exactly the parameters at or above every minimum.
pub validate_floor_iff : (k : CachedKdf) → (validate_floor k ≡ ok tt) ↔ IsStrong k
unfolding validate_floor
validate_floor_iff (CachedKdf.pbkdf2 i) = (ground arith, ground arith)
validate_floor_iff (CachedKdf.argon2id i m p) = (ground arith, ground arith)

strong-to_kdf :
    (k : CachedKdf)
    → IsStrong k
    → (kdf : Kdf) × (to_kdf k ≡ ok kdf) × IsNonZero kdf × (from_kdf kdf ≡ k)
unfolding to_kdf from_kdf
strong-to_kdf (CachedKdf.pbkdf2 zero) h = absurd (omega arith)
strong-to_kdf (CachedKdf.pbkdf2 (suc i)) h = (Kdf.pbkdf2 (suc i), refl, omega arith, refl)
strong-to_kdf (CachedKdf.argon2id zero m p) h = absurd (omega arith)
strong-to_kdf (CachedKdf.argon2id (suc i) zero p) h = absurd (omega arith)
strong-to_kdf (CachedKdf.argon2id (suc i) (suc m) zero) h = absurd (omega arith)
strong-to_kdf (CachedKdf.argon2id (suc i) (suc m) (suc p)) h =
    (Kdf.argon2id (suc i) (suc m) (suc p), refl, omega arith, refl)

-- Cached parameters that pass the floor check are at or above every minimum, and the conversion
-- behind the check succeeds on them: it gives non-zero parameters that are cached as the same ones.
pub validated-to_kdf :
    (k : CachedKdf)
    → validate_floor k ≡ ok tt
    → (kdf : Kdf) × IsStrong k × (to_kdf k ≡ ok kdf) × IsNonZero kdf × (from_kdf kdf ≡ k)
validated-to_kdf k h =
    let strong = (validate_floor_iff k).0 h in
    let (kdf, converted, nonzero, back) = strong-to_kdf k strong in
    (kdf, strong, converted, nonzero, back)
