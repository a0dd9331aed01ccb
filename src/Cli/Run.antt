-- ===== src/Cli/Run.antt =====
-- crates/grimoire-cli/src/main.rs: `handle_run`, up to the start of the command. The result is the
-- environment that the command gets. A reply with more results than references panics where the code
-- indexes past the end.
pub mod Resolved
use bitsafe.Prelude.{ℕ, Bool, true, false, Option, none, some, List, [], ◌∷◌, map, if◌then◌else◌}
use bitsafe.Prelude.Texts.{Text, text}
use bitsafe.Prelude.Results
use bitsafe.Prelude.Results.{Result, ok, err}
use bitsafe.Protocol.Request.{Request, RequestParams, VaultRef}
use bitsafe.Protocol.Response.{Response, Answer, ResolvedRef}
use bitsafe.Sdk.Act.{Steps, pure, raise, lift, ◌>>=◌, ◌>>◌}
use bitsafe.Cli.Error.{CliError, bail, panicked}
use bitsafe.Cli.Requests.{request_of, check_error, send_unlocked, approve_first}
use bitsafe.Cli.Credentials.Get.{result_as}
use bitsafe.Cli.Manifest.{Env, set_var, parse_grimoire_ref, apply_manifests}

-- The variables that hold a reference.
abbrev pub Refs : Type 0
Refs = List (Text × VaultRef)

add_ref : Text → Option VaultRef → Refs → Refs
add_ref key none refs = refs
add_ref key (some r) refs = (key, r) ∷ refs

unfoldable pub refs_of : Env → Refs
unfolding add_ref parse_grimoire_ref
refs_of [] = []
refs_of ((key, value) ∷ env) = add_ref key (parse_grimoire_ref value) (refs_of env)

-- `serde_json::from_value` to `Vec<ResolvedRef>`. An item or a key of a vault is no resolved
-- reference, which has a `ref`.
unfoldable pub resolved_of : Answer → Option (List ResolvedRef)
resolved_of (Answer.resolved_refs results) = some results
resolved_of (Answer.vault_list []) = some []
resolved_of (Answer.ssh_keys []) = some []
resolved_of _ = none

-- Whether some reference was not resolved. The name of its variable is printed, `refs_to_resolve[i]`.
name_error : Refs → Option Text → Result CliError Bool → Result CliError Bool
name_error refs none later = later
name_error [] (some e) later = err panicked
name_error (r ∷ refs) (some e) (ok later) = ok true
name_error (r ∷ refs) (some e) (err panic) = err panic

tail_of : Refs → Refs
tail_of [] = []
tail_of (r ∷ refs) = refs

had_errors : Refs → List ResolvedRef → Result CliError Bool
unfolding name_error tail_of
had_errors refs [] = ok false
had_errors refs (result ∷ results) =
    name_error refs result.error (had_errors (tail_of refs) results)

set_value : Refs → Option Text → Env → Result CliError Env
set_value refs none env = ok env
set_value [] (some value) env = err panicked
set_value ((key, r) ∷ refs) (some value) env = ok (set_var key value env)

-- Each result replaces the variable of its reference.
set_values : Refs → List ResolvedRef → Env → Result CliError Env
unfolding set_value tail_of
set_values refs [] env = ok env
set_values refs (result ∷ results) env =
    Results.◌>>=◌ (set_value refs result.value env) λ env'. set_values (tail_of refs) results env'

module _ {S : Type 0} (send : Request → Steps CliError S Response) where
  resolve_request : Refs → Request
  resolve_request refs =
      request_of (text "vault.resolve_refs")
        (some (RequestParams.resolve_refs (map (λ r. r.1) refs)))

  replace_refs : Refs → Env → List ResolvedRef → Steps CliError S Env
  unfolding had_errors set_values
  replace_refs refs env results = do
    failed ← lift (had_errors refs results)
    if failed
        then raise (bail (text "Some vault references could not be resolved"))
        else lift (set_values refs results env)

  resolve_refs : Refs → Env → Steps CliError S Env
  unfolding replace_refs resolve_request resolved_of
  resolve_refs refs env = do
    response ← send_unlocked send approve_first (resolve_request refs)
    lift (check_error response)
    results ← lift (result_as resolved_of response.result)
    replace_refs refs env results

  resolve_env : Refs → Env → Steps CliError S Env
  unfolding resolve_refs
  resolve_env [] env = pure env
  resolve_env (r ∷ refs) env = resolve_refs (r ∷ refs) env

  pub handle_run : (Text → Option Text) → List Text → List Text → Env → Steps CliError S Env
  unfolding resolve_env apply_manifests refs_of
  handle_run read_file manifests [] env =
      raise (bail (text "No command specified. Usage: grimoire run -- <command> [args...]"))
  handle_run read_file manifests (program ∷ args) env = do
    env' ← lift (apply_manifests read_file manifests env)
    resolve_env (refs_of env') env'
