-- ===== src/Prelude/Texts.antt =====
-- Rust's `String` and `&str` as their UTF-8 bytes.
use Prim.Native.Nat.{ℕ, zero, suc, ◌+◌, ◌/◌, ◌%◌}
use Prim.Native.Char.{code}
use Prim.Native.String.{String}
use mathlib.Core.Path.{◌≡◌, refl}
use mathlib.Core.Bool.{Bool, true, false, ◌&&◌}
use mathlib.Core.List.{[], ◌∷◌, ◌++◌}
use native.Mathlib.Omega.{arith}
use bitsafe.Prelude.Tests.{ltb, ◌==◌, if◌then◌else◌}
use bitsafe.Prelude.Bytes.{Bytes}

abbrev pub Text : Type 0
Text = Bytes

-- The bytes of one code point.
utf8 : ℕ → Bytes
utf8 c =
    if ltb c 128
    then c ∷ []
    else if ltb c 2048
    then (192 + c / 64) ∷ (128 + c % 64) ∷ []
    else if ltb c 65536
    then (224 + c / 4096) ∷ (128 + c / 64 % 64) ∷ (128 + c % 64) ∷ []
    else (240 + c / 262144) ∷ (128 + c / 4096 % 64) ∷ (128 + c / 64 % 64) ∷ (128 + c % 64) ∷ []

-- A text that the source writes out.
unfoldable pub text : String → Text
unfolding utf8
text String.[] = []
text (String.◌∷◌ c s) = utf8 (code c) ++ text s

unfoldable pub text_eq : Text → Text → Bool
text_eq [] [] = true
text_eq [] (_ ∷ _) = false
text_eq (_ ∷ _) [] = false
text_eq (a ∷ s) (b ∷ t) = (a == b) && text_eq s t

pub text_eq_sound : (s t : Text) → text_eq s t ≡ true → s ≡ t
unfolding text_eq
text_eq_sound [] [] h = refl
text_eq_sound [] (b ∷ bs) h = absurd (cc)
text_eq_sound (a ∷ as') [] h = absurd (cc)
text_eq_sound (a ∷ as') (b ∷ bs) h = ground (arith, text_eq_sound as' bs)

pub text_eq_refl : (s : Text) → text_eq s s ≡ true
unfolding text_eq
text_eq_refl [] = refl
text_eq_refl (a ∷ as') = ground (arith, text_eq_refl as')

-- The digits of a number, as `{n}` prints it. A number has at most `n` digits where it is not 0.
digits_of : ℕ → ℕ → Text → Text
digits_of zero n rest = rest
digits_of (suc fuel) n rest = elim (ltb n 10) [
  | true ↦ (48 + n) ∷ rest
  | false ↦ digits_of fuel (n / 10) ((48 + n % 10) ∷ rest)
]

pub display : ℕ → Text
unfolding digits_of
display n = digits_of (suc n) n []
