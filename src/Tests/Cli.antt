-- ===== src/Tests/Cli.antt =====
-- The commands on concrete inputs.
use bitsafe.Prelude.{
  ℕ, ◌≡◌, refl, arith, All, Option, some, none, List, [], ◌∷◌, length, true, if◌then◌else◌,
}
use bitsafe.Prelude.Texts.{Text, text, text_eq}
use bitsafe.Prelude.Results.{ok}
use bitsafe.Prelude.Strings.{split, trim, lines, contains_byte, split_once}
use bitsafe.Protocol.Request.{Request, RequestParams}
use bitsafe.Protocol.Response.{Response, success, Answer}
use bitsafe.Sdk.Act.Ends.{Outcome, Anything}
use bitsafe.Cli.Credentials.{match_vault_items}
use bitsafe.Cli.Credentials.Choice.{IsChoice, match_vault_items-IsChoice}
use bitsafe.Cli.Credentials.Get.{handle_credential_get}
use bitsafe.Cli.Credentials.Get.Silent.{IsEmpty, served, with_client, handle_credential_get-IsEmpty}
use bitsafe.Cli.Generate.{
  Draw, join_parts, build_charset, handle_generate, charset_part, sort, dedup, insert,
}
use bitsafe.Cli.Generate.Charset.{Ascends}
use bitsafe.Cli.Generate.Password.{handle_generate-password}
use bitsafe.Cli.Manifest.{Env, ManifestEntry, var, apply_manifests, parse_manifest}
use bitsafe.Cli.Manifest.First.{first_entry, or_first, all_entries, var-apply_manifests}
use bitsafe.Cli.Run.{handle_run}
use bitsafe.Cli.Run.Resolved.{IsResolved, handle_run-IsResolved}
use bitsafe.Service.Task.{Sys}
use bitsafe.Sdk.Auth.{AuthClient}
use bitsafe.Tests.Client.{test_sdk, no_network, no_sync, auth_outside, open_account}

abbrev as_is : Text → Text
as_is s = s

abbrev items : List (Text × Option Text)
items =
    (text "a", some (text "https://github.com"))
    ∷ (text "b", some (text "https://github.com/acme"))
    ∷ (text "c", none)
    ∷ []

match_vault_items-IsChoice_example :
    IsChoice as_is
      (text "github.com")
      (some (text "acme/repo.git"))
      items
      (match_vault_items as_is (text "github.com") (some (text "acme/repo.git")) items)
match_vault_items-IsChoice_example =
    match_vault_items-IsChoice as_is (text "github.com") (some (text "acme/repo.git")) items

abbrev asked : Text
asked = text "protocol=https\nhost=github.com\n\n"

abbrev alone : Sys (AuthClient ℕ)
alone = record { world = open_account; others = λ n w. w }

handle_credential_get-IsEmpty_example :
    Outcome Anything IsEmpty
      (handle_credential_get as_is
        (served (with_client test_sdk no_network no_sync auth_outside) (some 42))
        asked
        alone).0
handle_credential_get-IsEmpty_example =
    handle_credential_get-IsEmpty test_sdk no_network no_sync auth_outside (some 42) as_is asked
      alone

abbrev first_of_all : Draw
first_of_all i n = 0

abbrev digits : Text
digits = text "0123456789"

digits_accepted : build_charset (text "numeric") ≡ ok digits
unfolding build_charset join_parts split sort dedup insert charset_part trim text text_eq
digits_accepted = refl

handle_generate-password_example :
    (pw parts : Text) × (handle_generate first_of_all []
        (text "password")
        12
        (text "numeric")
        6
        (text "-")
      ≡ ok (some pw))
    × (length pw ≡ 12)
    × All (λ c. contains_byte c digits ≡ true) pw
    × (join_parts (split b'+' (text "numeric")) ≡ ok parts)
    × Ascends digits
    × ((c : ℕ) → contains_byte c digits ≡ contains_byte c parts)
handle_generate-password_example =
    handle_generate-password first_of_all [] (text "numeric") (text "-") digits 12 6 (λ i n h. h)
      (omega arith) digits_accepted

-- Two files that name the same variable.
abbrev manifest_file : Text → Option Text
manifest_file path =
    if text_eq path (text "a")
    then some (text "# comment\nTOKEN=grimoire:one/password\n")
    else some (text "TOKEN = grimoire:two/password")

abbrev both : List ManifestEntry
both =
    record { key = text "TOKEN"; reference = text "grimoire:one/password" }
    ∷ record { key = text "TOKEN"; reference = text "grimoire:two/password" }
    ∷ []

both_read : all_entries manifest_file (text "a" ∷ text "b" ∷ []) ≡ ok both
unfolding parse_manifest lines trim split_once text text_eq
both_read = refl

var-apply_manifests_example :
    (env' : Env) × (apply_manifests manifest_file (text "a" ∷ text "b" ∷ []) [] ≡ ok env')
    × (var (text "TOKEN") env' ≡ or_first (var (text "TOKEN") []) (first_entry (text "TOKEN") both))
var-apply_manifests_example =
    var-apply_manifests manifest_file (text "a" ∷ text "b" ∷ []) [] both (text "TOKEN") both_read

abbrev resolved_reply : Response
resolved_reply = success (some 1) (
    Answer.resolved_refs (
      record {
        reference = text "grimoire:one/password";
        value = some (text "secret");
        error = none;
      }
      ∷ []))

-- A service that resolves one reference, and answers other requests with no results.
abbrev resolver : Request → Response
resolver request = elim request.params [
  | some (RequestParams.resolve_refs (r ∷ [])) ↦ resolved_reply
  | _ ↦ success (some 1) (Answer.resolved_refs [])
]

abbrev environment : Env
environment = (text "TOKEN", text "grimoire:one/password") ∷ (text "HOME", text "/root") ∷ []

handle_run-IsResolved_example :
    Outcome Anything
      (IsResolved (λ request r. r ≡ resolver request) environment)
      (handle_run {S = ℕ}
        (λ request s. (ok (resolver request), s))
        (λ path. none)
        []
        (text "env" ∷ [])
        environment
        0).0
handle_run-IsResolved_example =
    handle_run-IsResolved (λ request (s : ℕ). (ok (resolver request), s))
      (λ request r. r ≡ resolver request) (λ request. record { from = λ s. refl }) (λ path. none) []
      (text "env") [] environment environment 0 (unfold apply_manifests in refl)
