-- ===== src/Prelude/Bytes.antt =====
-- Fixed-width integers as bytes: `to_le_bytes`, `to_be_bytes` and their inverses.
use Prim.Native.Nat.{ℕ, zero, suc, ◌+◌, ◌*◌, ◌/◌, ◌%◌, ◌^◌, ◌<◌}
use mathlib.Core.Path.{◌≡◌, refl, ap}
use mathlib.Core.List.{List, [], ◌∷◌}
use native.Mathlib.Omega.{arith}
use native.Mathlib.Nat.{pow-suc}
use bitsafe.Prelude.Lists.{length}

abbrev pub Bytes : Type 0
Bytes = List ℕ

-- `(n as uK).to_le_bytes()` for K = 8 * k.
unfoldable pub to_le_bytes : ℕ → ℕ → Bytes
to_le_bytes zero n = []
to_le_bytes (suc k) n = n % 256 ∷ to_le_bytes k (n / 256)

unfoldable pub from_le_bytes : Bytes → ℕ
from_le_bytes [] = 0
from_le_bytes (b ∷ bs) = b + 256 * from_le_bytes bs

pub length-to_le_bytes : (k n : ℕ) → length (to_le_bytes k n) ≡ k
unfolding to_le_bytes
length-to_le_bytes zero n = refl
length-to_le_bytes (suc k) n = ap suc (length-to_le_bytes k (n / 256))

pub from_le_bytes-to_le_bytes : (k n : ℕ) → n < 256 ^ k → from_le_bytes (to_le_bytes k n) ≡ n
unfolding to_le_bytes from_le_bytes
from_le_bytes-to_le_bytes zero n h = omega arith
from_le_bytes-to_le_bytes (suc k) n h =
    let room : n < 256 ^ k * 256 = rw pow-suc at h in
    omega (arith, from_le_bytes-to_le_bytes k (n / 256) (omega arith))

-- `n.to_be_bytes()` of a u32.
unfoldable pub u32_to_be_bytes : ℕ → Bytes
u32_to_be_bytes n = n / 16777216 % 256 ∷ n / 65536 % 256 ∷ n / 256 % 256 ∷ n % 256 ∷ []

-- `u32::from_be_bytes`, of four bytes.
unfoldable pub u32_from_be_bytes : Bytes → ℕ
u32_from_be_bytes (a ∷ b ∷ c ∷ d ∷ _) = a * 16777216 + b * 65536 + c * 256 + d
u32_from_be_bytes _ = 0

pub u32_from_be_bytes-u32_to_be_bytes :
    (n : ℕ) → n < 2 ^ 32 → u32_from_be_bytes (u32_to_be_bytes n) ≡ n
unfolding u32_to_be_bytes u32_from_be_bytes
u32_from_be_bytes-u32_to_be_bytes n h = omega arith

pub length-u32_to_be_bytes : (n : ℕ) → length (u32_to_be_bytes n) ≡ 4
unfolding u32_to_be_bytes
length-u32_to_be_bytes n = refl
