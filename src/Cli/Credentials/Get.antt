-- ===== src/Cli/Credentials/Get.antt =====
-- crates/grimoire-cli/src/main.rs: `handle_credential_helper_action` and `handle_credential_get`. The
-- result is what is printed on standard output; what goes to standard error is left out.
pub mod Silent
use bitsafe.Prelude.{
  ℕ, Bool, true, false, not, ◌||◌, Option, none, some, List, [], ◌∷◌, map, if◌then◌else◌,
}
use bitsafe.Prelude.Texts.{Text, text, text_eq}
use bitsafe.Prelude.Strings.{or_else}
use bitsafe.Prelude.Results.{Result, ok, err, ok_or}
use bitsafe.Protocol.Request.{Request}
use bitsafe.Protocol.Response.{Response, Answer, VaultItem, VaultItemDetail}
use bitsafe.Sdk.Act.{Steps, pure, raise, lift, ◌>>=◌, ◌>>◌}
use bitsafe.Cli.Error.{CliError, bail, wrong_shape}
use bitsafe.Cli.Requests.{list_request, get_request, check_error, send_unlocked}
use bitsafe.Cli.Credentials.{
  CredentialRequest, parse_credential_request, credential_response, match_vault_items,
}

-- `serde_json::from_value` to `Vec<VaultItem>` and to `VaultItemDetail`: an empty array is a list of
-- items, whatever it was a list of.
unfoldable pub items_of : Answer → Option (List VaultItem)
items_of (Answer.vault_list items) = some items
items_of (Answer.resolved_refs []) = some []
items_of (Answer.ssh_keys []) = some []
items_of _ = none

unfoldable pub detail_of : Answer → Option VaultItemDetail
detail_of (Answer.vault_item d) = some d
detail_of _ = none

-- `response.result.context("No result")`, and the value in the expected shape.
unfoldable pub result_as : {A : Type 0} → (Answer → Option A) → Option Answer → Result CliError A
result_as shape none = err (bail (text "No result"))
result_as shape (some answer) = ok_or wrong_shape (shape answer)

is_empty : Text → Bool
is_empty [] = true
is_empty (_ ∷ _) = false

text_is : Text → Option Text → Bool
text_is hint none = false
text_is hint (some name) = text_eq name hint

keep_named : Text → List VaultItem → List VaultItem
unfolding text_is
keep_named hint [] = []
keep_named hint (i ∷ items) =
    let rest = keep_named hint items in if text_is hint i.username then i ∷ rest else rest

-- The items with the user name that git asks for, where it asks for one.
hinted : Option Text → List VaultItem → List VaultItem
unfolding keep_named
hinted none items = items
hinted (some hint) items = keep_named hint items

pair_of : VaultItem → Text × Option Text
pair_of i = (i.id, i.uri)

printed : Text → VaultItemDetail → Text
unfolding is_empty
printed host detail =
    let username = or_else detail.username [] in
    let password = or_else detail.password [] in
    if not (is_empty username) || not (is_empty password)
    then credential_response (text "https") host username password
    else []

module _ {S : Type 0} (to_lowercase : Text → Text)
    (send : Request → Steps CliError S Response) where
  print_item : Text → Text → Steps CliError S Text
  unfolding printed
  print_item host id = do
    response ← send (get_request id none)
    lift (check_error response)
    detail ← lift (result_as detail_of response.result)
    pure (printed host detail)

  -- No match, and an ambiguous one, print nothing.
  print_match : Text → Result CliError (Option Text) → Steps CliError S Text
  unfolding print_item
  print_match host (ok (some id)) = print_item host id
  print_match host (ok none) = pure []
  print_match host (err e) = pure []

  answer_host : CredentialRequest → Text → Steps CliError S Text
  unfolding print_match hinted pair_of
  answer_host req host = do
    response ←
        send_unlocked send (text "No GUI prompt available. Run `grimoire approve` first.")
          (list_request (some (text "login")) none)
    lift (check_error response)
    items ← lift (result_as items_of response.result)
    print_match host
        (match_vault_items to_lowercase host req.path (map pair_of (hinted req.username items)))

  -- Only requests for HTTPS with a host are answered.
  answer_https : CredentialRequest → Bool → Option Text → Steps CliError S Text
  unfolding answer_host
  answer_https req true (some host) = answer_host req host
  answer_https req true none = pure []
  answer_https req false host = pure []

  pub handle_credential_get : Text → Steps CliError S Text
  unfolding answer_https text_is
  handle_credential_get input = do
    req ← lift (parse_credential_request input)
    answer_https req (text_is (text "https") req.protocol) req.host

  pub handle_credential_helper_action : Text → Text → Steps CliError S Text
  unfolding handle_credential_get text_eq
  handle_credential_helper_action action input =
      if text_eq action (text "get")
      then handle_credential_get input
      else if text_eq action (text "store") || text_eq action (text "erase")
      then pure []
      else raise (bail (text "Unknown credential helper action"))
