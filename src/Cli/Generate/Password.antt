-- ===== src/Cli/Generate/Password.antt =====
-- generate.rs: the passwords that are generated.
use bitsafe.Prelude.{
  ℕ, zero, suc, ◌≤◌, ◌<◌, ◌≡◌, refl, ap, ◌∙◌, inl, inr, true, some, List, [], ◌∷◌, ◌++◌, ◌==◌,
  arith, length, length-append, All, le→ltb_false, Bool-cases,
}
use bitsafe.Prelude.Texts.{Text, text}
use bitsafe.Prelude.Strings.{contains_byte, split, extend, trim}
use bitsafe.Prelude.Results.{ok, ◌>>=◌, >>=-eq-ok}
use bitsafe.Cli.Generate.{
  Draw, at, pick, is_empty, charset_part, join_parts, build_charset, generate_password,
  handle_generate,
}
use bitsafe.Cli.Generate.Charset.{Ascends, build_charset-Ascends}

-- A draw below a bound that is not 0 is below it.
abbrev pub InRange : Draw → Type 0
InRange draw = (i n : ℕ) → 0 < n → draw i n < n

at-contains :
    (s : Text) (i : ℕ) → i < length s → (c : ℕ) × (at s i ≡ some c) × (contains_byte c s ≡ true)
unfolding at contains_byte
at-contains [] i h = absurd (omega arith)
at-contains (a ∷ s) zero h = (a, refl, ground arith)
at-contains (a ∷ s) (suc i) h =
    let (c, e, inside) = at-contains s i (omega arith) in (c, e, ground arith)

pick-contains :
    (draw : Draw) (charset : Text) (i n : ℕ)
    → InRange draw
    → 0 < length charset
    → (pw : Text) × (pick draw charset i n ≡ some pw)
      × (length pw ≡ n)
      × All (λ c. contains_byte c charset ≡ true) pw
unfolding pick
pick-contains draw charset i zero range pos = ([], refl, refl, tt)
pick-contains draw charset i (suc n) range pos =
    let (c, e, inside) =
      at-contains charset (draw i (length charset)) (range i (length charset) pos) in
    let (pw, picked, size, all_in) = pick-contains draw charset (suc i) n range pos in
    (c ∷ pw, rw (e, picked), ap suc size, (inside, all_in))

charset_part-pos : (part s : Text) → charset_part part ≡ ok s → 0 < length s
unfolding charset_part
charset_part-pos part s h = ground arith

extend-cons :
    (a : ℕ) (parts : List Text) → (p : Text) × (ps : List Text) × (extend a parts ≡ p ∷ ps)
unfolding extend
extend-cons a [] = (a ∷ [], [], refl)
extend-cons a (l ∷ ls) = (a ∷ l, ls, refl)

split-cons : (c : ℕ) (s : Text) → (p : Text) × (ps : List Text) × (split c s ≡ p ∷ ps)
unfolding split
split-cons c [] = ([], [], refl)
split-cons c (a ∷ s) = elim (Bool-cases (a == c)) [
  | inl cut ↦ ([], split c s, rw cut)
  | inr kept ↦ let (p, ps, e) = extend-cons a (split c s) in (p, ps, rw kept e)
]

join_parts-pos :
    (part : Text) (parts : List Text) (s : Text) → join_parts (part ∷ parts) ≡ ok s → 0 < length s
unfolding join_parts
join_parts-pos part parts s h =
    let (here, e, h') =
      >>=-eq-ok (charset_part (trim part)) (λ here. join_parts parts >>= λ rest. ok (here ++ rest))
        h in
    let (rest, _, last) = >>=-eq-ok (join_parts parts) (λ rest. ok (here ++ rest)) h' in
    let same : here ++ rest ≡ s = cc in
    let pos = charset_part-pos (trim part) here e in
    omega (arith, length-append here rest, ap length same)

first-contains : (s : Text) → 0 < length s → (c : ℕ) × (contains_byte c s ≡ true)
unfolding contains_byte
first-contains [] h = absurd (omega arith)
first-contains (a ∷ s) h = (a, ground arith)

contains-pos : (c : ℕ) (s : Text) → contains_byte c s ≡ true → 0 < length s
unfolding contains_byte
contains-pos c [] h = cc
contains-pos c (a ∷ s) h = omega arith

build_charset-pos : (spec charset : Text) → build_charset spec ≡ ok charset → 0 < length charset
build_charset-pos spec charset h =
    let (parts, joined, _, same) = build_charset-Ascends spec charset h in
    let (p, ps, e) = split-cons b'+' spec in
    let (c, inside) = first-contains parts (join_parts-pos p ps parts (rw e at joined)) in
    contains-pos c charset (same c ∙ inside)

generate-ok :
    (draw : Draw) (n : ℕ) (charset pw : Text)
    → 8 ≤ n
    → 0 < length charset
    → pick draw charset 0 n ≡ some pw
    → generate_password draw n charset ≡ ok (some pw)
unfolding generate_password is_empty
generate-ok draw n [] pw long pos e = absurd (omega arith)
generate-ok draw n (c ∷ charset) pw long pos e = rw (le→ltb_false n 8 long, e)

-- Whenever the specification of the character set is accepted and at least 8 characters are wanted, a
-- password is generated and no index is out of bounds: it has the wanted length, all of its
-- characters are in the set, and the set, in ascending order, holds exactly the characters of the
-- parts of the specification, each once.
pub handle_generate-password :
    (draw : Draw) (wordlist spec separator charset : Text) (n words : ℕ)
    → InRange draw
    → 8 ≤ n
    → build_charset spec ≡ ok charset
    → (pw parts : Text) × (handle_generate draw wordlist (text "password") n spec words separator
        ≡ ok (some pw))
      × (length pw ≡ n)
      × All (λ c. contains_byte c charset ≡ true) pw
      × (join_parts (split b'+' spec) ≡ ok parts)
      × Ascends charset
      × ((c : ℕ) → contains_byte c charset ≡ contains_byte c parts)
unfolding handle_generate
handle_generate-password draw wordlist spec separator charset n words range long accepted =
    let pos = build_charset-pos spec charset accepted in
    let (pw, picked, size, inside) = pick-contains draw charset 0 n range pos in
    let (parts, joined, ascends, same) = build_charset-Ascends spec charset accepted in
    (
      pw,
      parts,
      rw accepted (generate-ok draw n charset pw long pos picked),
      size,
      inside,
      joined,
      ascends,
      same,
    )
