-- ===== src/Cli/Generate.antt =====
-- crates/grimoire-cli/src/commands/generate.rs: passwords and passphrases. A draw `gen_range(0..n)` of
-- the system's random source is `draw i n`, the i-th of a run; the word list, a file that is compiled
-- in, is a parameter. The estimate of the entropy, in floating point, is left out.
pub mod Charset
pub mod Password
use bitsafe.Prelude.{
  ℕ, zero, suc, Bool, true, false, Option, none, some, List, [], ◌∷◌, ◌++◌, map, ltb, ◌==◌,
  if◌then◌else◌, length,
}
use bitsafe.Prelude.Texts.{Text, text, text_eq, display}
use bitsafe.Prelude.Strings.{split, trim, lines}
use bitsafe.Prelude.Results.{Result, ok, err, ◌>>=◌, ◌>>◌, reject_if}
use bitsafe.Cli.Error.{CliError, bail}

abbrev pub lowercase : Text
lowercase = text "abcdefghijklmnopqrstuvwxyz"

abbrev pub uppercase : Text
uppercase = text "ABCDEFGHIJKLMNOPQRSTUVWXYZ"

abbrev pub numeric : Text
numeric = text "0123456789"

abbrev pub symbols : Text
symbols = text "!@#$%^&*()-_=+[]{}|;:'\",.<>?/~"

abbrev pub min_password_length : ℕ
min_password_length = 8

abbrev pub min_passphrase_words : ℕ
min_passphrase_words = 4

-- The arms of `match part.trim()`. The last name cannot come from a split at `+`.
unfoldable pub charset_part : Text → Result CliError Text
unfolding text_eq text
charset_part part =
    if text_eq part (text "lowercase")
    then ok lowercase
    else if text_eq part (text "uppercase")
    then ok uppercase
    else if text_eq part (text "alpha")
    then ok (lowercase ++ uppercase)
    else if text_eq part (text "numeric")
    then ok numeric
    else if text_eq part (text "alphanumeric")
    then ok (lowercase ++ (uppercase ++ numeric))
    else if text_eq part (text "symbols")
    then ok symbols
    else if text_eq part (text "alphanumeric+symbols")
    then ok (lowercase ++ (uppercase ++ (numeric ++ symbols)))
    else err (
        bail (
          text "Unknown charset: '"
          ++ (part ++ text "'. Use: lowercase, uppercase, alpha, numeric, alphanumeric, symbols")))

unfoldable pub join_parts : List Text → Result CliError Text
unfolding charset_part trim
join_parts [] = ok []
join_parts (part ∷ parts) = do
  here ← charset_part (trim part)
  rest ← join_parts parts
  ok (here ++ rest)

-- `sort_unstable` on bytes: equal bytes cannot be told apart.
unfoldable pub insert : ℕ → Text → Text
insert a [] = a ∷ []
insert a (b ∷ s) = let later = b ∷ insert a s in if ltb b a then later else a ∷ b ∷ s

unfoldable pub sort : Text → Text
unfolding insert
sort [] = []
sort (a ∷ s) = insert a (sort s)

-- `dedup`: of equal neighbours one stays.
unfoldable pub dedup : Text → Text
dedup [] = []
dedup (a ∷ []) = a ∷ []
dedup (a ∷ b ∷ s) = let rest = dedup (b ∷ s) in if a == b then rest else a ∷ rest

unfoldable pub build_charset : Text → Result CliError Text
unfolding join_parts split sort dedup
build_charset spec = do charset ← join_parts (split b'+' spec); ok (dedup (sort charset))

-- `charset[i]`; the code never indexes past the end.
unfoldable pub at : {A : Type 0} → List A → ℕ → Option A
at [] i = none
at (a ∷ s) zero = some a
at (a ∷ s) (suc i) = at s i

abbrev pub Draw : Type 0
Draw = ℕ → ℕ → ℕ

is_empty : {A : Type 0} → List A → Bool
is_empty [] = true
is_empty (a ∷ s) = false

abbrev pub with_char : {A : Type 0} → Option A → Option (List A) → Option (List A)
with_char none rest = none
with_char (some c) none = none
with_char (some c) (some rest) = some (c ∷ rest)

-- `(0..n).map(…)`, the draws from the i-th on; `none` is an index out of bounds, which panics.
unfoldable pub pick : {A : Type 0} → Draw → List A → ℕ → ℕ → Option (List A)
unfolding at
pick draw from i zero = some []
pick draw from i (suc n) = with_char (at from (draw i (length from))) (pick draw from (suc i) n)

unfoldable pub generate_password : Draw → ℕ → Text → Result CliError (Option Text)
unfolding is_empty pick
generate_password draw length' charset = do
  reject_if (ltb length' min_password_length) (bail (text "Password length must be at least 8"))
  reject_if (is_empty charset) (bail (text "Charset is empty"))
  ok (pick draw charset 0 length')

-- `selected.join(separator)`
unfoldable pub join : Text → List Text → Text
join separator [] = []
join separator (w ∷ []) = w
join separator (w ∷ v ∷ ws) = w ++ (separator ++ join separator (v ∷ ws))

unfoldable pub generate_passphrase : Draw → List Text → ℕ → Text → Result CliError (Option Text)
unfolding is_empty pick join
generate_passphrase draw wordlist words separator = do
  reject_if (ltb words min_passphrase_words) (bail (text "Passphrase must have at least 4 words"))
  reject_if (is_empty wordlist) (bail (text "Wordlist is empty"))
  ok (elim (pick draw wordlist 0 words) [
    | none ↦ none
    | some selected ↦ some (join separator selected)
  ])

-- The value that `handle_generate` prints; `wordlist` is the text of the file.
pub handle_generate : Draw → Text → Text → ℕ → Text → ℕ → Text → Result CliError (Option Text)
unfolding build_charset generate_password generate_passphrase lines text_eq
handle_generate draw wordlist gen_type length' charset_spec words separator =
    if text_eq gen_type (text "password")
    then (do charset ← build_charset charset_spec; generate_password draw length' charset)
    else if text_eq gen_type (text "passphrase")
    then generate_passphrase draw (lines wordlist) words separator
    else err (bail (text "Unknown type: '" ++ (gen_type ++ text "'. Use: password, passphrase")))
