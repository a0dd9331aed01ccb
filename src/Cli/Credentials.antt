-- ===== src/Cli/Credentials.antt =====
-- crates/grimoire-cli/src/commands/credential_helper.rs: git's requests for credentials, and which
-- vault item answers one. `to_lowercase` of the standard library, which goes by the Unicode tables, is
-- a parameter.
pub mod Choice
pub mod Get
use bitsafe.Prelude.{
  ℕ, Bool, true, false, not, ◌&&◌, Option, none, some, List, [], ◌∷◌, ◌++◌, ltb, ◌==◌,
  if◌then◌else◌, length,
}
use bitsafe.Prelude.Texts.{Text, text, text_eq, display}
use bitsafe.Prelude.Strings.{
  strip_prefix, strip_suffix, starts_with, or_else, split_once, contains_byte, lines,
}
use bitsafe.Prelude.Results.{Result, ok, err}
use bitsafe.Cli.Error.{CliError, bail}

pub record CredentialRequest : Type 0 where
  pub protocol : Option Text
  pub host : Option Text
  pub path : Option Text
  pub username : Option Text

abbrev pub no_request : CredentialRequest
no_request = record { protocol = none; host = none; path = none; username = none }

-- Unknown keys are ignored.
set_key : Text → Text → CredentialRequest → CredentialRequest
set_key key value req =
    if text_eq key (text "protocol")
    then record req { protocol = some value }
    else if text_eq key (text "host")
    then record req { host = some value }
    else if text_eq key (text "path")
    then record req { path = some value }
    else if text_eq key (text "username")
    then record req { username = some value }
    else req

parse_lines : List Text → CredentialRequest → Result CliError CredentialRequest
unfolding set_key
parse_lines [] req = ok req
parse_lines ([] ∷ rest) req = ok req
parse_lines ((a ∷ line) ∷ rest) req = elim (split_once b'=' (a ∷ line)) [
  | none ↦ err (bail (text "Invalid credential line (missing '=' delimiter)"))
  | some (key, value) ↦ parse_lines rest (set_key key value req)
]

-- Of the text on standard input.
unfoldable pub parse_credential_request : Text → Result CliError CredentialRequest
unfolding parse_lines lines split_once
parse_credential_request input = parse_lines (lines input) no_request

-- What `write_credential_response` prints.
pub credential_response : Text → Text → Text → Text → Text
credential_response protocol host username password =
    text "protocol="
    ++ (protocol
        ++ (text "\nhost="
            ++ (host
                ++ (text "\nusername="
                    ++ (username ++ (text "\npassword=" ++ (password ++ text "\n\n")))))))

pub data MatchPriority : Type 0 where
  host_only host_and_path_prefix exact : MatchPriority

unfoldable pub rank : MatchPriority → ℕ
rank host_only = 1
rank host_and_path_prefix = 2
rank exact = 3

pub record UriMatch : Type 0 where
  pub priority : MatchPriority
  pub item_id : Text

unfoldable pub normalize_path : Text → Text
unfolding strip_prefix strip_suffix
normalize_path path =
    let path1 = or_else (strip_prefix (text "/") path) path in
    let path2 = or_else (strip_suffix (text "/") path1) path1 in
    let path3 = or_else (strip_suffix (text ".git") path2) path2 in
    or_else (strip_suffix (text "/") path3) path3

-- `split(':').next()`
without_port : Text → Text
without_port host = elim (split_once b':' host) [ none ↦ host | some (name, _) ↦ name ]

module _ (to_lowercase : Text → Text) where
  -- The host, and the path behind the first slash.
  host_and_path : Text → Text × Option Text
  unfolding without_port
  host_and_path rest = elim (split_once b'/' rest) [
    | some (host, path) ↦ (to_lowercase (without_port host), some path)
    | none ↦ (to_lowercase (without_port rest), none)
  ]

  -- Of a URI without a scheme.
  parse_bare : Text → Option (Text × Option Text)
  unfolding host_and_path
  parse_bare [] = none
  parse_bare (a ∷ uri) =
      if contains_byte b' ' (a ∷ uri) then none else some (host_and_path (a ∷ uri))

  unfoldable pub parse_uri : Text → Option (Text × Option Text)
  unfolding parse_bare host_and_path strip_prefix split_once contains_byte
  parse_uri uri = elim (strip_prefix (text "https://") uri) [
    | some rest ↦ some (host_and_path rest)
    | none ↦ elim (strip_prefix (text "http://") uri) [
      | some rest ↦ some (host_and_path rest)
      | none ↦ parse_bare uri
    ]
  ]

  -- `none` where the item's path does not match.
  unfoldable pub path_priority : Option Text → Option Text → Option MatchPriority
  unfolding normalize_path starts_with
  path_priority (some item_path) (some request_path) =
      let norm_item = normalize_path item_path in
      let norm_req = normalize_path request_path in
      if text_eq norm_item norm_req
      then some exact
      else if starts_with norm_item norm_req
      then some host_and_path_prefix
      else none
  path_priority (some item_path) none = some host_only
  path_priority none request_path = some host_only

  module _ (request_host : Text) (request_path : Option Text) where
    host_priority : Option (Text × Option Text) → Option MatchPriority
    unfolding path_priority without_port
    host_priority none = none
    host_priority (some (item_host, item_path)) =
        if text_eq item_host (without_port (to_lowercase request_host))
        then path_priority item_path request_path
        else none

    -- How an item's URI matches, `none` where the loop goes on to the next item.
    unfoldable pub priority_of : Option Text → Option MatchPriority
    unfolding host_priority parse_uri
    priority_of none = none
    priority_of (some uri) = host_priority (parse_uri uri)

    add_match : Text → Option MatchPriority → List UriMatch → List UriMatch
    add_match item_id none found = found
    add_match item_id (some p) found = record { priority = p; item_id = item_id } ∷ found

    find_matches : List (Text × Option Text) → List UriMatch
    unfolding add_match
    find_matches [] = []
    find_matches ((item_id, uri) ∷ items) = add_match item_id (priority_of uri) (find_matches items)

    best_rank : List UriMatch → ℕ
    best_rank [] = 0
    best_rank (m ∷ found) =
        let best = best_rank found in if ltb best (rank m.priority) then rank m.priority else best

    ranked : ℕ → List UriMatch → List UriMatch
    ranked k [] = []
    ranked k (m ∷ found) =
        let rest = ranked k found in if rank m.priority == k then m ∷ rest else rest

    abbrev pub ambiguous : ℕ → CliError
    ambiguous n = bail (
        text "Ambiguous: "
        ++ (display n
            ++ text
                " vault items match at the same priority level. Set more specific URIs on your vault items to disambiguate."))

    only_match : List UriMatch → Result CliError (Option Text)
    only_match (m ∷ []) = ok (some m.item_id)
    only_match found = err (ambiguous (length found))

    choose_match : List UriMatch → Result CliError (Option Text)
    unfolding only_match best_rank ranked
    choose_match [] = ok none
    choose_match (m ∷ found) = only_match (ranked (best_rank (m ∷ found)) (m ∷ found))

    pub match_vault_items : List (Text × Option Text) → Result CliError (Option Text)
    unfolding choose_match find_matches priority_of rank
    match_vault_items items = choose_match (find_matches items)
