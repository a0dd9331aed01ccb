-- ===== src/Sdk/Vault/Uris.antt =====
-- vault.rs: the listed items have no URI.
use bitsafe.Prelude.{
  ◌≡◌, refl, subst, Bool, Option, none, some, List, [], ◌∷◌, map, All, Bool-cases, inl, inr,
}
use bitsafe.Prelude.Results.{Result, ok, map_err, >>=-eq-ok}
use bitsafe.Sdk.Client.{Client, CipherSummary, CipherType, VaultFilter}
use bitsafe.Prelude.Texts.{Text}
use bitsafe.Sdk.{SdkError}
use bitsafe.Sdk.Vault.{CipherListView, PasswordManager, summary_of, retain, of_type, found_by, list}

abbrev pub NoUris : List CipherSummary → Type 0
NoUris items = All (λ i. i.uri ≡ none) items

-- The client lists items without their URIs.
pub record ListsNoUris {C : Type 0} (client : Client C) : Type 0 where
  pub no_uris :
      (sdk : C) (filter : VaultFilter) (items : List CipherSummary)
      → client.list sdk filter ≡ ok items
      → NoUris items

map-NoUris : (views : List CipherListView) → NoUris (map summary_of views)
unfolding summary_of
map-NoUris [] = tt
map-NoUris (v ∷ views) = (refl, map-NoUris views)

retain-NoUris :
    (test : CipherSummary → Bool) (items : List CipherSummary)
    → NoUris items
    → NoUris (retain test items)
unfolding retain
retain-NoUris test [] h = tt
retain-NoUris test (c ∷ items) (h, rest) = elim (Bool-cases (test c)) [
  | inl kept ↦ rw kept (h, retain-NoUris test items rest)
  | inr dropped ↦ rw dropped (retain-NoUris test items rest)
]

of_type-NoUris :
    (kind : Option CipherType) (items : List CipherSummary)
    → NoUris items
    → NoUris (of_type kind items)
unfolding of_type
of_type-NoUris none items h = h
of_type-NoUris (some kind) items h = retain-NoUris _ items h

module _ {C : Type 0} (pm : PasswordManager C) where
  found_by-NoUris :
      (search : Option Text) (items : List CipherSummary)
      → NoUris items
      → NoUris (found_by pm search items)
  unfolding found_by
  found_by-NoUris none items h = h
  found_by-NoUris (some search) items h = retain-NoUris _ items h

  listed : VaultFilter → List CipherListView → Result SdkError (List CipherSummary)
  listed filter views =
      ok (found_by pm filter.search (of_type filter.cipher_type (map summary_of views)))

  -- A list of items has no URI, whatever the SDK gives and whatever is searched for.
  pub list-NoUris :
      (sdk : C) (filter : VaultFilter) (items : List CipherSummary)
      → list pm sdk filter ≡ ok items
      → NoUris items
  unfolding list listed
  list-NoUris sdk filter items h =
      let (views, _, e) = >>=-eq-ok (map_err _ (pm.list sdk)) (listed filter) h in
      let same : found_by pm filter.search (of_type filter.cipher_type (map summary_of views))
          ≡ items =
        cc in
      subst NoUris same (found_by-NoUris filter.search _ (of_type-NoUris _ _ (map-NoUris views)))
