-- ===== src/Service/Unlock/Uris.antt =====
-- state.rs: the items that `vault_list` gives.
use bitsafe.Prelude.{◌≡◌}
use bitsafe.Prelude.Results.{Result, ok}
use bitsafe.Sdk.{SdkError}
use bitsafe.Sdk.Client.{VaultFilter}
use bitsafe.Sdk.Vault.Uris.{NoUris, ListsNoUris}
use bitsafe.Sdk.Act.Ends.{Anything, Ends, Ends-any, Ends-lift, Ends-bind}
use bitsafe.Service.World.{Outside}
use bitsafe.Service.Unlock.{query, vault_list}

module _ {C : Type 0} (o : Outside C) where
  query-value :
      {A : Type 0} {V : A → Type 0} (f : C → Result SdkError A)
      → ((sdk : C) (a : A) → f sdk ≡ ok a → V a)
      → Ends Anything V (query o f)
  unfolding query
  query-value f h = Ends-bind _ _ (Ends-any _) (λ _.
      Ends-bind _ _ (Ends-any _)
        (λ _. Ends-bind _ _ (Ends-any _) (λ sdk. Ends-lift (f sdk) (h sdk))))

  pub vault_list-NoUris :
      ListsNoUris o.client → (filter : VaultFilter) → Ends Anything NoUris (vault_list o filter)
  unfolding vault_list
  vault_list-NoUris law filter = query-value _ (λ sdk items. law.no_uris sdk filter items)
