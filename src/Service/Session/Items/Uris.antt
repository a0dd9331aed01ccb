-- ===== src/Service/Session/Items/Uris.antt =====
-- session.rs: the URIs in the answers of `vault.list`.
use bitsafe.Prelude.{ℕ, ◌≡◌, Option, none, some, List, [], ◌∷◌, map, All}
use bitsafe.Prelude.Results.{Result, ok, err}
use bitsafe.Sdk.{SdkError}
use bitsafe.Sdk.Client.{CipherSummary}
use bitsafe.Protocol.Request.{RequestParams}
use bitsafe.Protocol.Response.{Response, Answer, RpcError, failure}
use bitsafe.Sdk.Act.Ends.{Outcome, Anything, Ends}
use bitsafe.Service.World.{Outside}
use bitsafe.Sdk.Vault.Uris.{NoUris, ListsNoUris}
use bitsafe.Service.Unlock.Uris.{vault_list-NoUris}
use bitsafe.Service.Task.Replies.{Ends-reading_value}
use bitsafe.Service.Session.Items.{answer_with, list_answer, vault_item, handle_vault_list}

-- No item of a list has a URI.
abbrev pub LacksUris : Option Answer → Type 0
LacksUris (some (Answer.vault_list items)) = All (λ i. i.uri ≡ none) items
LacksUris _ = Unit {0}

pub record IsUriFree (r : Response) : Type 0 where
  pub uris : LacksUris r.result

pub failure-IsUriFree : (id : Option ℕ) (e : RpcError) → IsUriFree (failure id e)
failure-IsUriFree id e = record { uris = tt }

map-vault_item :
    (items : List CipherSummary) → NoUris items → All (λ i. i.uri ≡ none) (map vault_item items)
unfolding vault_item
map-vault_item [] h = tt
map-vault_item (i ∷ items) (h, rest) = (h, map-vault_item items rest)

module _ {C : Type 0} (o : Outside C) (law : ListsNoUris o.client) (id : Option ℕ) where
  listed-IsUriFree :
      (r : Result SdkError (List CipherSummary))
      → Outcome Anything NoUris r
      → IsUriFree (answer_with o id (λ items. Answer.vault_list (map vault_item items)) r)
  unfolding answer_with
  listed-IsUriFree (ok items) h = record { uris = map-vault_item items h }
  listed-IsUriFree (err e) h = failure-IsUriFree id _

  pub handle_vault_list-IsUriFree :
      (params : Option RequestParams) → Ends IsUriFree IsUriFree (handle_vault_list o id params)
  unfolding handle_vault_list list_answer
  handle_vault_list-IsUriFree params =
      Ends-reading_value _ (λ w. listed-IsUriFree _ ((vault_list-NoUris o law _).from w))
