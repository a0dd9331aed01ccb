-- ===== src/Prelude/ConstantTime.antt =====
-- The comparison without early exit: `zip(a, b).fold(0, |acc, (x, y)| acc | (x ^ y)) == 0`.
use Prim.Native.Nat.{◌/◌, ℕ, zero, suc, ◌<◌, bit_or, bit_xor}
use mathlib.Core.Path.{◌≡◌, refl, sym, ap, ap₂, ◌∙◌}
use mathlib.Core.Logic.{◌↔◌}
use mathlib.Core.Bool.{Bool, true, not, ◌&&◌}
use mathlib.Core.List.{[], ◌∷◌}
use native.Mathlib.Omega.{arith}
use bitsafe.Prelude.Tests.{◌==◌, if◌then◌else◌}
use bitsafe.Prelude.Lists.{length, All}
use bitsafe.Prelude.Bytes.{Bytes}

abbrev pub IsByte : ℕ → Type 0
IsByte b = b < 256

unfoldable pub fold_difference : ℕ → Bytes → Bytes → ℕ
fold_difference acc (x ∷ xs) (y ∷ ys) = fold_difference (bit_or acc (bit_xor x y)) xs ys
fold_difference acc _ _ = acc

holds_below : (ℕ → Bool) → ℕ → Bool
holds_below test zero = true
holds_below test (suc bound) = holds_below test bound && test bound

-- A test that was run on every number below a bound.
below_bound :
    (test : ℕ → Bool) (bound x : ℕ) → x < bound → holds_below test bound ≡ true → test x ≡ true
unfolding holds_below
below_bound test zero x lt run = absurd (omega arith)
below_bound test (suc bound) x lt run = ground (arith, below_bound test bound x)

-- Over bytes, `x ^ y` is a byte, and is 0 exactly where they agree.
abbrev xor_row : ℕ → ℕ → Bool
xor_row x y = if bit_xor x y == 0 then x == y else not (x == y) && (bit_xor x y / 256 == 0)

-- `x | y` is a byte, and is 0 exactly where both are.
abbrev or_row : ℕ → ℕ → Bool
or_row x y = if bit_or x y == 0 then (x == 0) && (y == 0) else bit_or x y / 256 == 0

xor_table : holds_below (λ x. holds_below (xor_row x) 256) 256 ≡ true
unfolding holds_below
xor_table = refl

or_table : holds_below (λ x. holds_below (or_row x) 256) 256 ≡ true
unfolding holds_below
or_table = refl

module _ (x y : ℕ) (hx : IsByte x) (hy : IsByte y) where
  xor_holds : xor_row x y ≡ true
  xor_holds = below_bound (xor_row x) 256 y hy (below_bound _ 256 x hx xor_table)

  or_holds : or_row x y ≡ true
  or_holds = below_bound (or_row x) 256 y hy (below_bound _ 256 x hx or_table)

  xor-IsByte : IsByte (bit_xor x y)
  xor-IsByte = ground (arith, xor_holds)

  xor_zero : bit_xor x y ≡ 0 → x ≡ y
  xor_zero h = ground (arith, xor_holds)

  zero_xor : x ≡ y → bit_xor x y ≡ 0
  zero_xor h = ground (arith, xor_holds)

  or-IsByte : IsByte (bit_or x y)
  or-IsByte = ground (arith, or_holds)

  or_zero : bit_or x y ≡ 0 → (x ≡ 0) × (y ≡ 0)
  or_zero h = ground (arith, or_holds)

-- A difference that is left at the end was there, and none means that the texts agree.
fold_difference-eq_zero :
    (acc : ℕ) (xs ys : Bytes)
    → IsByte acc
    → All IsByte xs
    → All IsByte ys
    → length xs ≡ length ys
    → fold_difference acc xs ys ≡ 0
    → (acc ≡ 0) × (xs ≡ ys)
unfolding fold_difference
fold_difference-eq_zero acc [] [] ha hx hy e h = (h, refl)
fold_difference-eq_zero acc [] (y ∷ ys) ha hx hy e h = absurd (omega arith)
fold_difference-eq_zero acc (x ∷ xs) [] ha hx hy e h = absurd (omega arith)
fold_difference-eq_zero acc (x ∷ xs) (y ∷ ys) ha (hx, hxs) (hy, hys) e h =
    let d = xor-IsByte x y hx hy in
    let (clear, same) =
      fold_difference-eq_zero (bit_or acc (bit_xor x y)) xs ys (or-IsByte acc (bit_xor x y) ha d)
        hxs hys (omega arith) h in
    let (first, second) = or_zero acc (bit_xor x y) ha d clear in
    (first, ap₂ (λ b bs. b ∷ bs) (xor_zero x y hx hy second) same)

fold_difference_self : (xs : Bytes) → All IsByte xs → fold_difference 0 xs xs ≡ 0
unfolding fold_difference
fold_difference_self [] h = refl
fold_difference_self (x ∷ xs) (h, hs) =
    ap (λ d. fold_difference (bit_or 0 d) xs xs) (zero_xor x x h h refl)
    ∙ fold_difference_self xs hs

-- On texts of one length the fold ends at 0 exactly where they are equal.
pub fold_difference_iff :
    (xs ys : Bytes)
    → All IsByte xs
    → All IsByte ys
    → length xs ≡ length ys
    → (fold_difference 0 xs ys ≡ 0) ↔ (xs ≡ ys)
fold_difference_iff xs ys hx hy e = (
  λ h. (fold_difference-eq_zero 0 xs ys (omega arith) hx hy e h).1,
  λ same. ap (fold_difference 0 xs) (sym same) ∙ fold_difference_self xs hx,
)
