-- ===== src/Cli/Generate/Charset.antt =====
-- generate.rs: the character sets that `build_charset` gives.
use bitsafe.Prelude.{
  ℕ, ◌≤◌, ◌<◌, ◌≡◌, refl, sym, subst, ap, ◌∙◌, inl, inr, ◌||◌, [], ◌∷◌, ◌==◌, arith, Bool-cases,
}
use bitsafe.Prelude.Texts.{Text}
use bitsafe.Prelude.Strings.{contains_byte, split}
use bitsafe.Prelude.Results.{ok, >>=-eq-ok}
use bitsafe.Cli.Generate.{insert, sort, dedup, join_parts, build_charset}

-- Strictly, so that no byte stands twice.
abbrev pub Ascends : Text → Type 0
Ascends [] = Unit {0}
Ascends (a ∷ []) = Unit {0}
Ascends (a ∷ b ∷ s) = (a < b) × Ascends (b ∷ s)

abbrev NeverFalls : Text → Type 0
NeverFalls [] = Unit {0}
NeverFalls (a ∷ []) = Unit {0}
NeverFalls (a ∷ b ∷ s) = (a ≤ b) × NeverFalls (b ∷ s)

insert-NeverFalls : (a : ℕ) (s : Text) → NeverFalls s → NeverFalls (insert a s)
unfolding insert
insert-NeverFalls a [] h = tt
insert-NeverFalls a (b ∷ []) h = ground arith
insert-NeverFalls a (b ∷ c ∷ s) (h, rest) =
    let ih = insert-NeverFalls a (c ∷ s) rest in ground arith

sort-NeverFalls : (s : Text) → NeverFalls (sort s)
unfolding sort
sort-NeverFalls [] = tt
sort-NeverFalls (a ∷ s) = insert-NeverFalls a (sort s) (sort-NeverFalls s)

-- What is left begins with the same byte.
dedup_head :
    (a : ℕ) (s : Text) → NeverFalls (a ∷ s) → (t : Text) × (dedup (a ∷ s) ≡ a ∷ t) × Ascends (a ∷ t)
unfolding dedup
dedup_head a [] h = ([], refl, tt)
dedup_head a (b ∷ s) (h, rest) =
    let (t, e, asc) = dedup_head b s rest in
    elim (Bool-cases (a == b)) [
      | inl same ↦
          let eq : a ≡ b = ground (arith, same) in
          (t, rw same (e ∙ ap (λ x. x ∷ t) (sym eq)), subst (λ x. Ascends (x ∷ t)) (sym eq) asc)
      | inr other ↦ (b ∷ t, rw other (ap (λ x. a ∷ x) e), (ground (arith, other), asc))
    ]

dedup-Ascends : (s : Text) → NeverFalls s → Ascends (dedup s)
dedup-Ascends [] h = unfold dedup in tt
dedup-Ascends (a ∷ s) h = let (t, e, asc) = dedup_head a s h in rw e asc

contains_byte-insert :
    (c a : ℕ) (s : Text) → contains_byte c (insert a s) ≡ (a == c) || contains_byte c s
unfolding contains_byte insert
contains_byte-insert c a [] = refl
contains_byte-insert c a (b ∷ s) = ground (arith, contains_byte-insert c a s)

contains_byte-sort : (c : ℕ) (s : Text) → contains_byte c (sort s) ≡ contains_byte c s
unfolding contains_byte sort
contains_byte-sort c [] = refl
contains_byte-sort c (a ∷ s) =
    contains_byte-insert c a (sort s) ∙ ap (λ t. (a == c) || t) (contains_byte-sort c s)

contains_byte-dedup : (c : ℕ) (s : Text) → contains_byte c (dedup s) ≡ contains_byte c s
unfolding contains_byte dedup
contains_byte-dedup c [] = refl
contains_byte-dedup c (a ∷ []) = refl
contains_byte-dedup c (a ∷ b ∷ s) = ground (arith, contains_byte-dedup c (b ∷ s))

-- An accepted specification gives a set with exactly the bytes of its parts, in ascending order.
pub build_charset-Ascends :
    (spec charset : Text)
    → build_charset spec ≡ ok charset
    → (parts : Text) × (join_parts (split b'+' spec) ≡ ok parts)
      × Ascends charset
      × ((c : ℕ) → contains_byte c charset ≡ contains_byte c parts)
unfolding build_charset
build_charset-Ascends spec charset h =
    let (parts, joined, e) =
      >>=-eq-ok (join_parts (split b'+' spec)) (λ parts. ok (dedup (sort parts))) h in
    let same : dedup (sort parts) ≡ charset = cc in
    (
      parts,
      joined,
      subst Ascends same (dedup-Ascends (sort parts) (sort-NeverFalls parts)),
      λ c.
          ap (contains_byte c) (sym same)
          ∙ contains_byte-dedup c (sort parts)
          ∙ contains_byte-sort c parts,
    )
