-- ===== src/Prelude/Strings.antt =====
-- The methods of `str` that the source calls, on UTF-8 bytes: prefixes, suffixes, splits, `lines` and
-- `trim`.
use Prim.Native.Nat.{ℕ, zero, suc, ◌+◌, ◌-◌, ◌*◌, ◌^◌}
use mathlib.Core.Bool.{Bool, true, false, ◌&&◌, ◌||◌}
use mathlib.Core.Option.{Option, none, some}
use mathlib.Core.List.{List, [], ◌∷◌, ◌++◌, reverse}
use mathlib.Core.Path.{◌≡◌, refl}
use bitsafe.Prelude.Tests.{ltb, leb, ◌==◌, if◌then◌else◌}
use bitsafe.Prelude.Lists.{length, drop}
use bitsafe.Prelude.Texts.{Text, text}

unfoldable pub strip_prefix : Text → Text → Option Text
strip_prefix [] s = some s
strip_prefix (a ∷ p) [] = none
strip_prefix (a ∷ p) (b ∷ s) = if a == b then strip_prefix p s else none

-- `unwrap_or`
abbrev pub or_else : Option Text → Text → Text
or_else none s = s
or_else (some t) s = t

abbrev pub is_some : Option Text → Bool
is_some none = false
is_some (some t) = true

unfoldable pub starts_with : Text → Text → Bool
unfolding strip_prefix
starts_with prefix s = is_some (strip_prefix prefix s)

unfoldable pub contains : Text → Text → Bool
unfolding starts_with
contains q [] = starts_with q []
contains q (a ∷ s) = starts_with q (a ∷ s) || contains q s

reversed : Option Text → Option Text
reversed none = none
reversed (some s) = some (reverse s)

unfoldable pub strip_suffix : Text → Text → Option Text
unfolding strip_prefix reversed
strip_suffix suffix s = reversed (strip_prefix (reverse suffix) (reverse s))

-- `trim_end_matches(c)`
without_front : ℕ → Text → Text
without_front c [] = []
without_front c (a ∷ s) = let rest = without_front c s in if a == c then rest else a ∷ s

unfoldable pub trim_end_matches : ℕ → Text → Text
unfolding without_front
trim_end_matches c s = reverse (without_front c (reverse s))

-- The part before the first `c`, and the part behind it.
unfoldable pub with_front : ℕ → Option (Text × Text) → Option (Text × Text)
with_front a none = none
with_front a (some (before, behind)) = some (a ∷ before, behind)

unfoldable pub split_once : ℕ → Text → Option (Text × Text)
unfolding with_front
split_once c [] = none
split_once c (a ∷ s) = if a == c then some ([], s) else with_front a (split_once c s)

-- The same at the last `c`.
unfoldable pub rsplit_once : ℕ → Text → Option (Text × Text)
rsplit_once c [] = none
rsplit_once c (a ∷ s) = elim (rsplit_once c s) [
  | some (before, behind) ↦ some (a ∷ before, behind)
  | none ↦ if a == c then some ([], s) else none
]

unfoldable pub contains_byte : ℕ → Text → Bool
contains_byte c [] = false
contains_byte c (a ∷ s) = (a == c) || contains_byte c s

-- A part that goes on with `a`.
unfoldable pub extend : ℕ → List Text → List Text
extend a [] = (a ∷ []) ∷ []
extend a (l ∷ ls) = (a ∷ l) ∷ ls

-- `split(c)`: at least one part.
unfoldable pub split : ℕ → Text → List Text
unfolding extend
split c [] = [] ∷ []
split c (a ∷ s) = let parts = split c s in if a == c then [] ∷ parts else extend a parts

-- `lines`: a line ends at `\n` or `\r\n`, and no line follows the last end.
unfoldable pub lines : Text → List Text
unfolding extend
lines [] = []
lines (a ∷ []) = if a == 10 then [] ∷ [] else (a ∷ []) ∷ []
lines (a ∷ b ∷ s) =
    let behind = lines s in
    let next = lines (b ∷ s) in
    if a == 10 then [] ∷ next else if (a == 13) && (b == 10) then [] ∷ behind else extend a next

-- The number of bytes of a `White_Space` character in front, and 0 where there is none.
white2 : ℕ → ℕ → ℕ
white2 a b = if (a == 194) && ((b == 133) || (b == 160)) then 2 else 0

white3 : ℕ → ℕ → ℕ → Bool
white3 a b c =
    (a == 225) && (b == 154) && (c == 128)
    || (a == 226)
      && (b == 128)
      && (leb 128 c && leb c 138 || (c == 168) || (c == 169) || (c == 175))
    || (a == 226) && (b == 129) && (c == 159)
    || (a == 227) && (b == 128) && (c == 128)

white1 : ℕ → Bool
white1 a = leb 9 a && leb a 13 || (a == 32)

unfoldable pub white_length : Text → ℕ
unfolding white1 white2 white3
white_length [] = 0
white_length (a ∷ []) = if white1 a then 1 else 0
white_length (a ∷ b ∷ []) = if white1 a then 1 else white2 a b
white_length (a ∷ b ∷ c ∷ _) = if white1 a then 1 else if white3 a b c then 3 else white2 a b

-- The same in a text that is read from its end.
white_length_end : Text → ℕ
unfolding white1 white2 white3
white_length_end [] = 0
white_length_end (a ∷ []) = if white1 a then 1 else 0
white_length_end (b ∷ a ∷ []) = if white1 b then 1 else white2 a b
white_length_end (c ∷ b ∷ a ∷ _) = if white1 c then 1 else if white3 a b c then 3 else white2 b c

-- The characters go one by one; a text has at most as many as it has bytes.
trim_by : (Text → ℕ) → ℕ → Text → Text
trim_by white zero s = s
trim_by white (suc n) s = elim (white s) [ zero ↦ s | suc k ↦ trim_by white n (drop (suc k) s) ]

unfoldable pub trim : Text → Text
unfolding trim_by white_length white_length_end
trim s =
    let front = trim_by white_length (length s) s in
    reverse (trim_by white_length_end (length front) (reverse front))

trim_runs : trim (text " \t a b\r\n ") ≡ text "a b"
unfolding trim text
trim_runs = refl

lines_runs : lines (text "a\r\n\nb\r") ≡ text "a" ∷ [] ∷ text "b\r" ∷ []
unfolding lines text
lines_runs = refl

split_runs : split 43 (text "a+b+") ≡ text "a" ∷ text "b" ∷ [] ∷ []
unfolding split text
split_runs = refl

rsplit_runs : rsplit_once 47 (text "a/b/c") ≡ some (text "a/b", text "c")
unfolding rsplit_once text
rsplit_runs = refl

strip_suffix_runs : strip_suffix (text ".git") (text "repo.git") ≡ some (text "repo")
unfolding strip_suffix text
strip_suffix_runs = refl

unfoldable pub flush : Text → List Text → List Text
flush [] ws = ws
flush (a ∷ w) ws = (a ∷ w) ∷ ws

-- `split_whitespace`: `skip` bytes of a white character are still to be passed, and `word` is the
-- word so far.
unfoldable pub words : ℕ → Text → Text → List Text
unfolding flush white_length
words skip word [] = flush word []
words (suc skip) word (c ∷ s) = words skip word s
words zero word (c ∷ s) = elim (white_length (c ∷ s)) [
  | zero ↦ words zero (word ++ c ∷ []) s
  | suc k ↦ flush word (words k [] s)
]

-- `str::parse::<u32>`: digits behind an optional plus sign, below 2^32.
digits_value : ℕ → Text → Option ℕ
digits_value n [] = some n
digits_value n (c ∷ s) =
    let next = digits_value (10 * n + (c - 48)) s in
    if (leb 48 c && leb c 57) && ltb (10 * n + (c - 48)) (2 ^ 32) then next else none

unfoldable pub parse_u32 : Text → Option ℕ
unfolding digits_value
parse_u32 [] = none
parse_u32 (c ∷ []) = if c == b'+' then none else digits_value 0 (c ∷ [])
parse_u32 (c ∷ d ∷ s) = if c == b'+' then digits_value 0 (d ∷ s) else digits_value 0 (c ∷ d ∷ s)

words_run : words 0 [] (text " a  bc\td ") ≡ text "a" ∷ text "bc" ∷ text "d" ∷ []
unfolding words text
words_run = refl

parse_u32_runs :
    (parse_u32 (text "4294967295") ≡ some 4294967295) × (parse_u32 (text "4294967296") ≡ none)
unfolding parse_u32 text
parse_u32_runs = (refl, refl)
