-- ===== src/Cli/Credentials/Choice.antt =====
-- credential_helper.rs: which item `match_vault_items` chooses.
use bitsafe.Prelude.{
  ℕ, suc, ◌≤◌, ◌<◌, ◌≡◌, refl, ap, inl, inr, Option, none, some, List, [], ◌∷◌, ◌++◌, ◌==◌,
  if◌then◌else◌, arith, length, All, Bool-cases,
}
use bitsafe.Prelude.Texts.{Text}
use bitsafe.Prelude.Results.{Result, ok, err}
use bitsafe.Cli.Error.{CliError}
use bitsafe.Cli.Credentials.{
  MatchPriority, rank, UriMatch, priority_of, add_match, find_matches, best_rank, ranked, ambiguous,
  only_match, choose_match, match_vault_items,
}

abbrev Item : Type 0
Item = Text × Option Text

-- 0 where the item does not match.
abbrev rank_of : Option MatchPriority → ℕ
rank_of none = 0
rank_of (some p) = rank p

rank_pos : (p : MatchPriority) → 0 < rank p
unfolding rank
rank_pos MatchPriority.host_only = omega arith
rank_pos MatchPriority.host_and_path_prefix = omega arith
rank_pos MatchPriority.exact = omega arith

module _ (to_lowercase : Text → Text) (host : Text) (path : Option Text) where
  abbrev pub match_rank : Item → ℕ
  match_rank item = rank_of (priority_of to_lowercase host path item.1)

  abbrev pub count_at : ℕ → List Item → ℕ
  count_at k [] = 0
  count_at k (i ∷ items) = if match_rank i == k then suc (count_at k items) else count_at k items

  -- What a result says of the items: none matches; the chosen one is in the list and every other one
  -- matches less well; or several match best, and equally well.
  abbrev pub IsChoice : List Item → Result CliError (Option Text) → Type 0
  IsChoice items (ok none) = All (λ i. match_rank i ≡ 0) items
  IsChoice items (ok (some id)) =
      (before : List Item) × (item : Item) × (after : List Item) × (items ≡ before ++ item ∷ after)
      × (item.0 ≡ id)
      × (0 < match_rank item)
      × All (λ i. match_rank i < match_rank item) before
      × All (λ i. match_rank i < match_rank item) after
  IsChoice items (err e) =
      (k : ℕ) × (0 < k)
      × All (λ i. match_rank i ≤ k) items
      × (2 ≤ count_at k items)
      × (e ≡ ambiguous to_lowercase host path (count_at k items))

  abbrev matches_of : List Item → List UriMatch
  matches_of = find_matches to_lowercase host path

  abbrev at_rank : ℕ → List UriMatch → List UriMatch
  at_rank = ranked to_lowercase host path

  abbrev top : List UriMatch → ℕ
  top = best_rank to_lowercase host path

  -- One item in front.
  module _ (id : Text) (found : List UriMatch) where
    ranked-add :
        (k : ℕ) (p : Option MatchPriority)
        → 0 < k
        → length (at_rank k (add_match to_lowercase host path id p found))
          ≡ (if rank_of p == k then suc (length (at_rank k found)) else length (at_rank k found))
    unfolding ranked add_match
    ranked-add k none pos = ground arith
    ranked-add k (some p) pos = ground arith

    best-add :
        (p : Option MatchPriority)
        → (rank_of p ≤ top (add_match to_lowercase host path id p found))
          × (top found ≤ top (add_match to_lowercase host path id p found))
    unfolding best_rank add_match
    best-add none = (omega arith, omega arith)
    best-add (some p) = ground arith

  length-ranked :
      (k : ℕ) (items : List Item) → 0 < k → length (at_rank k (matches_of items)) ≡ count_at k items
  unfolding find_matches ranked
  length-ranked k [] pos = refl
  length-ranked k ((id, uri) ∷ items) pos = ground (
    arith,
    ranked-add id (matches_of items) k (priority_of to_lowercase host path uri),
    length-ranked k items pos,
  )

  le-best :
      (k : ℕ) (items : List Item) → top (matches_of items) ≤ k → All (λ i. match_rank i ≤ k) items
  unfolding find_matches
  le-best k [] h = tt
  le-best k ((id, uri) ∷ items) h =
      let step = best-add id (matches_of items) (priority_of to_lowercase host path uri) in
      (omega arith, le-best k items (omega arith))

  below-All :
      (k : ℕ) (items : List Item)
      → All (λ i. match_rank i ≤ k) items
      → count_at k items ≡ 0
      → All (λ i. match_rank i < k) items
  below-All k [] le none_at = tt
  below-All k (i ∷ items) (le, rest) none_at = elim (Bool-cases (match_rank i == k)) [
    | inl at ↦ absurd (ground (arith, at))
    | inr off ↦ (ground arith, below-All k items rest (rw off at none_at))
  ]

  -- The one item of a rank that no item exceeds.
  abbrev Only : ℕ → List Item → Text → Type 0
  Only k items id =
      (before : List Item) × (item : Item) × (after : List Item) × (items ≡ before ++ item ∷ after)
      × (item.0 ≡ id)
      × (match_rank item ≡ k)
      × All (λ i. match_rank i < k) before
      × All (λ i. match_rank i < k) after

  Only-cons :
      (k : ℕ) (i : Item) (items : List Item) (id : Text)
      → match_rank i < k
      → Only k items id
      → Only k (i ∷ items) id
  Only-cons k i items id lt (before, item, after, e, named, ranked_k, hb, ha) =
      (i ∷ before, item, after, ap (λ xs. i ∷ xs) e, named, ranked_k, (lt, hb), ha)

  Only-here :
      (k : ℕ) (id : Text) (uri : Option Text) (items : List Item) (m : UriMatch) (p : MatchPriority)
      → 0 < k
      → All (λ i. match_rank i ≤ k) items
      → priority_of to_lowercase host path uri ≡ some p
      → rank p ≡ k
      → record { priority = p; item_id = id } ∷ at_rank k (matches_of items) ≡ m ∷ []
      → Only k ((id, uri) ∷ items) m.item_id
  Only-here k id uri items m p pos rest e at h =
      let alone : at_rank k (matches_of items) ≡ [] = cc in
      (
        [],
        (id, uri),
        items,
        refl,
        cc,
        rw e at,
        tt,
        below-All k items rest (omega (arith, length-ranked k items, ap length alone)),
      )

  Only-add :
      (k : ℕ) (id : Text) (uri : Option Text) (items : List Item) (m : UriMatch)
      (p : Option MatchPriority)
      → 0 < k
      → match_rank (id, uri) ≤ k
      → All (λ i. match_rank i ≤ k) items
      → priority_of to_lowercase host path uri ≡ p
      → (at_rank k (matches_of items) ≡ m ∷ [] → Only k items m.item_id)
      → at_rank k (add_match to_lowercase host path id p (matches_of items)) ≡ m ∷ []
      → Only k ((id, uri) ∷ items) m.item_id
  unfolding add_match ranked
  Only-add k id uri items m none pos le rest e ih h =
      Only-cons k (id, uri) items m.item_id (rw e pos) (ih h)
  Only-add k id uri items m (some p) pos le rest e ih h = elim (Bool-cases (rank p == k)) [
    | inl at ↦ Only-here k id uri items m p pos rest e (ground (arith, at)) (rw at at h)
    | inr off ↦
        Only-cons k (id, uri) items m.item_id
          (rw e (let le' : rank p ≤ k = rw e at le in ground (arith, off))) (ih (rw off at h))
  ]

  Only-one :
      (k : ℕ) (items : List Item) (m : UriMatch)
      → 0 < k
      → All (λ i. match_rank i ≤ k) items
      → at_rank k (matches_of items) ≡ m ∷ []
      → Only k items m.item_id
  unfolding find_matches ranked
  Only-one k [] m pos le h = absurd (cc)
  Only-one k ((id, uri) ∷ items) m pos (le, rest) h =
      Only-add k id uri items m (priority_of to_lowercase host path uri) pos le rest refl
        (Only-one k items m pos rest) h

  best_attained : (found : List UriMatch) → 0 < top found → 0 < length (at_rank (top found) found)
  unfolding best_rank ranked
  best_attained [] pos = pos
  best_attained (m ∷ found) pos = ground (arith, best_attained found)

  zero-All :
      (items : List Item) → All (λ i. match_rank i ≤ 0) items → All (λ i. match_rank i ≡ 0) items
  zero-All [] h = tt
  zero-All (i ∷ items) (h, rest) = (omega arith, zero-All items rest)

  chosen-IsChoice :
      (k : ℕ) (items : List Item) (chosen : List UriMatch)
      → 0 < k
      → All (λ i. match_rank i ≤ k) items
      → at_rank k (matches_of items) ≡ chosen
      → 0 < length chosen
      → IsChoice items (only_match to_lowercase host path chosen)
  unfolding only_match
  chosen-IsChoice k items [] pos le e some_chosen = absurd (omega arith)
  chosen-IsChoice k items (m ∷ []) pos le e some_chosen =
      let (before, item, after, split, named, at, hb, ha) = Only-one k items m pos le e in
      (before, item, after, split, named, rw at pos, rw at hb, rw at ha)
  chosen-IsChoice k items (m ∷ n ∷ rest) pos le e some_chosen =
      let counted = length-ranked k items pos in
      let size = ap length e in
      (k, pos, le, omega arith, ap (ambiguous to_lowercase host path) (omega arith))

  best-pos : (m : UriMatch) (found : List UriMatch) → 0 < top (m ∷ found)
  unfolding best_rank
  best-pos m found = ground (arith, rank_pos m.priority)

  choose-IsChoice :
      (items : List Item) (found : List UriMatch)
      → matches_of items ≡ found
      → IsChoice items (choose_match to_lowercase host path found)
  unfolding choose_match
  choose-IsChoice items [] e =
      zero-All items (le-best 0 items (rw e (unfold best_rank in omega arith)))
  choose-IsChoice items (m ∷ found) e =
      chosen-IsChoice (top (m ∷ found)) items _ (best-pos m found)
        (le-best (top (m ∷ found)) items (rw e (omega arith))) (ap (at_rank (top (m ∷ found))) e)
        (best_attained (m ∷ found) (best-pos m found))

  -- Which item answers a request for credentials, for any host, path and items: if none matches,
  -- none; the chosen one matches, and each other item does so less well or not at all; if several
  -- match best, the error for so many items.
  pub match_vault_items-IsChoice :
      (items : List Item) → IsChoice items (match_vault_items to_lowercase host path items)
  unfolding match_vault_items
  match_vault_items-IsChoice items = choose-IsChoice items (matches_of items) refl
