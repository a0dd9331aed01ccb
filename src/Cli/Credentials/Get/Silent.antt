-- ===== src/Cli/Credentials/Get/Silent.antt =====
-- main.rs: the credential helper over the service.
use bitsafe.Prelude.{
  ap, ℕ, ◌≡◌, refl, Bool, true, false, Option, none, some, List, [], ◌∷◌, map, All, Bool-cases, inl,
  inr,
}
use bitsafe.Prelude.Texts.{Text, text}
use bitsafe.Prelude.Results.{ok}
use bitsafe.Protocol.Request.{Request, method_of}
use bitsafe.Protocol.Response.{Response, Answer, VaultItem}
use bitsafe.Sdk.Act.{Steps}
use bitsafe.Sdk.Act.Ends.{
  Outcome, Anything, Ends, Ends-pure, Ends-any, Ends-lift, Ends-bind, Ends-bind_value,
}
use bitsafe.Sdk.Auth.{AuthClient}
use bitsafe.Sdk.Auth.Prelogin.{Network}
use bitsafe.Sdk.Grimoire.{SdkLibraries, grimoire_client, grimoire_client-ListsNoUris}
use bitsafe.Sdk.Sync.{SyncNetwork}
use bitsafe.Service.World.{Outside}
use bitsafe.Sdk.Vault.Uris.{ListsNoUris}
use bitsafe.Service.Task.{Sys, returned}
use bitsafe.Service.Session.{dispatch}
use bitsafe.Service.Session.Items.Uris.{LacksUris, IsUriFree}
use bitsafe.Service.Session.Uris.{dispatch-IsUriFree}
use bitsafe.Cli.Error.{CliError}
use bitsafe.Cli.Requests.{list_request}
use bitsafe.Cli.Requests.Replies.{send_unlocked-Ends}
use bitsafe.Cli.Credentials.{
  CredentialRequest, priority_of, add_match, find_matches, choose_match, match_vault_items,
}
use bitsafe.Cli.Credentials.Get.{
  items_of, result_as, text_is, keep_named, hinted, pair_of, print_match, answer_host, answer_https,
  handle_credential_get,
}

abbrev pub IsEmpty : Text → Type 0
IsEmpty printed = printed ≡ []

abbrev NoUri : List VaultItem → Type 0
NoUri items = All (λ i. i.uri ≡ none) items

hinted-NoUri :
    (hint : Option Text) (items : List VaultItem) → NoUri items → NoUri (hinted hint items)
unfolding hinted keep_named
hinted-NoUri none items h = h
hinted-NoUri (some hint) [] h = tt
hinted-NoUri (some hint) (i ∷ items) (h, rest) = elim (Bool-cases (text_is hint i.username)) [
  | inl same ↦ rw same (h, hinted-NoUri (some hint) items rest)
  | inr other ↦ rw other (hinted-NoUri (some hint) items rest)
]

items_of-NoUri :
    (answer : Option Answer) (items : List VaultItem)
    → LacksUris answer
    → result_as items_of answer ≡ ok items
    → NoUri items
unfolding result_as items_of
items_of-NoUri none items h e = absurd (cc)
items_of-NoUri (some (Answer.vault_list items')) items h e =
    let same : items' ≡ items = cc in rw same at h
items_of-NoUri (some (Answer.resolved_refs [])) items h e =
    let same : [] ≡ items = cc in rw (← same) tt
items_of-NoUri (some (Answer.ssh_keys [])) items h e = let same : [] ≡ items = cc in rw (← same) tt
items_of-NoUri (some _) items h e = absurd (cc)

module _ (to_lowercase : Text → Text) where
  -- Items without URIs never match.
  no_match :
      (host : Text) (path : Option Text) (items : List VaultItem)
      → NoUri items
      → find_matches to_lowercase host path (map pair_of items) ≡ []
  unfolding find_matches priority_of add_match pair_of
  no_match host path [] h = refl
  no_match host path (i ∷ items) (h, rest) = rw (h, no_match host path items rest)

  match_none :
      (host : Text) (path : Option Text) (items : List VaultItem)
      → NoUri items
      → match_vault_items to_lowercase host path (map pair_of items) ≡ ok none
  unfolding match_vault_items choose_match
  match_none host path items h =
      ap (choose_match to_lowercase host path) (no_match host path items h)

  module _ {S : Type 0} (send : Request → Steps CliError S Response)
      (unlisted : Ends Anything IsUriFree (send (list_request (some (text "login")) none))) where
    printed-IsEmpty :
        (req : CredentialRequest) (host : Text) (items : List VaultItem)
        → NoUri items
        → Ends Anything IsEmpty (
            print_match to_lowercase send host (
              match_vault_items to_lowercase host req.path
                (map pair_of (hinted req.username items))))
    unfolding print_match
    printed-IsEmpty req host items h =
        rw
          (match_none host req.path (hinted req.username items) (hinted-NoUri req.username items h))
          (Ends-pure [] refl)

    answer_host-IsEmpty :
        (req : CredentialRequest) (host : Text)
        → Ends Anything IsEmpty (answer_host to_lowercase send req host)
    unfolding answer_host
    answer_host-IsEmpty req host =
        Ends-bind_value _ _ (send_unlocked-Ends send IsUriFree _ unlisted _) (λ response free.
          Ends-bind _ _ (Ends-any _) (λ _.
            Ends-bind_value _ _
              (Ends-lift (result_as items_of response.result)
                (λ items e. items_of-NoUri response.result items free.uris e))
              (λ items h. printed-IsEmpty req host items h)))

    answer_https-IsEmpty :
        (req : CredentialRequest) (is_https : Bool) (host : Option Text)
        → Ends Anything IsEmpty (answer_https to_lowercase send req is_https host)
    unfolding answer_https
    answer_https-IsEmpty req true (some host) = answer_host-IsEmpty req host
    answer_https-IsEmpty req true none = Ends-pure [] refl
    answer_https-IsEmpty req false host = Ends-pure [] refl

    get-IsEmpty :
        (input : Text) → Ends Anything IsEmpty (handle_credential_get to_lowercase send input)
    unfolding handle_credential_get
    get-IsEmpty input = Ends-bind _ _ (Ends-any _) (λ req. answer_https-IsEmpty req _ req.host)

-- A request that the service serves.
abbrev pub served : {C : Type 0} → Outside C → Option ℕ → Request → Steps CliError (Sys C) Response
served o pid request s = let (r, s') = dispatch o request pid s in (ok (returned r), s')

served-IsEmpty :
    {C : Type 0} (o : Outside C) (pid : Option ℕ) (to_lowercase : Text → Text) (input : Text)
    (s : Sys C)
    → ListsNoUris o.client
    → Outcome Anything IsEmpty (handle_credential_get to_lowercase (served o pid) input s).0
served-IsEmpty o pid to_lowercase input s law =
    (get-IsEmpty to_lowercase (served o pid)
        (record { from = λ s. dispatch-IsUriFree o _ pid s law (unfold method_of in refl) })
        input).from
      s

-- A service whose vault client is `GrimoireClient`.
abbrev pub with_client :
    {P E : Type 0}
    → SdkLibraries P E
    → Network
    → SyncNetwork
    → Outside (AuthClient P)
    → Outside (AuthClient P)
with_client l network sync_network o = record o { client = grimoire_client l network sync_network }

-- The credential helper never gives git a credential: whatever git asks for, whatever the vault holds
-- and the servers answer, in every state of the service and however its other tasks interleave, it
-- ends with an error or prints nothing.
pub handle_credential_get-IsEmpty :
    {P E : Type 0} (l : SdkLibraries P E) (network : Network) (sync_network : SyncNetwork)
    (o : Outside (AuthClient P)) (pid : Option ℕ) (to_lowercase : Text → Text) (input : Text)
    (s : Sys (AuthClient P))
    → Outcome Anything IsEmpty
        (handle_credential_get to_lowercase
          (served (with_client l network sync_network o) pid)
          input
          s).0
handle_credential_get-IsEmpty l network sync_network o pid to_lowercase input s =
    served-IsEmpty (with_client l network sync_network o) pid to_lowercase input s
      (grimoire_client-ListsNoUris l network sync_network)
