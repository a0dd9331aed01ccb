-- ===== src/Cli/Run/Resolved.antt =====
-- main.rs: with which environment `handle_run` starts the command.
use bitsafe.Prelude.{
  ◌≡◌, refl, sym, ap, subst, ◌⊎◌, ◌∙◌, inl, inr, Bool, true, false, Option, none, some, List, [],
  ◌∷◌, All, map, arith, Bool-cases, if◌then◌else◌,
}
use bitsafe.Prelude.Texts.{Text, text, text_eq, text_eq_sound}
use bitsafe.Prelude.Results.{Result, ok, err, >>=-eq-ok}
use bitsafe.Protocol.Request.{Request, RequestParams}
use bitsafe.Protocol.Response.{Response, ResolvedRef}
use bitsafe.Sdk.Act.{Steps, raise, lift}
use bitsafe.Sdk.Act.Ends.{
  Outcome, Anything, Ends, Ends-lift, Ends-pure, Ends-raise, Ends-bind_value,
}
use bitsafe.Cli.Error.{CliError, bail}
use bitsafe.Cli.Requests.{check_error}
use bitsafe.Cli.Requests.Replies.{send_unlocked-Ends}
use bitsafe.Cli.Credentials.Get.{result_as}
use bitsafe.Cli.Manifest.{Env, var, set_var, apply_manifests}
use bitsafe.Cli.Manifest.First.{var-set_var_self, var-set_var_other}
use bitsafe.Cli.Run.{
  Refs, refs_of, name_error, had_errors, tail_of, set_value, set_values, replace_refs, resolve_refs,
  resolve_request, resolved_of, resolve_env, handle_run,
}

-- What a result makes of the value of a variable: it is replaced if the result is for it.
abbrev pub next_value : Text → Refs → Option Text → Option Text → Option Text
next_value key refs none old = old
next_value key [] (some value) old = old
next_value key ((k, r) ∷ refs) (some value) old = if text_eq k key then some value else old

abbrev pub tail_refs : Refs → Refs
tail_refs [] = []
tail_refs (r ∷ refs) = refs

-- The value that a variable has behind all results: of several for it, the last one counts.
abbrev pub last_value : Text → Refs → List ResolvedRef → Option Text → Option Text
last_value key refs [] old = old
last_value key refs (result ∷ results) old =
    last_value key (tail_refs refs) results (next_value key refs result.value old)

tail_of_lem : (refs : Refs) → tail_of refs ≡ tail_refs refs
unfolding tail_of
tail_of_lem [] = refl
tail_of_lem (r ∷ refs) = refl

unnamed :
    (refs : Refs) (e : Option Text) (later : Result CliError Bool)
    → name_error refs e later ≡ ok false
    → (e ≡ none) × (later ≡ ok false)
unfolding name_error
unnamed refs none later h = (refl, h)
unnamed [] (some e) later h = absurd (cc)
unnamed (r ∷ refs) (some e) (ok later) h = absurd (cc)
unnamed (r ∷ refs) (some e) (err panic) h = absurd (cc)

no_errors :
    (refs : Refs) (results : List ResolvedRef)
    → had_errors refs results ≡ ok false
    → All (λ r. r.error ≡ none) results
unfolding had_errors
no_errors refs [] h = tt
no_errors refs (result ∷ results) h =
    let (clean, later) = unnamed refs result.error (had_errors (tail_of refs) results) h in
    (clean, no_errors (tail_of refs) results later)

value_set :
    (key : Text) (refs : Refs) (value : Option Text) (env env' : Env)
    → set_value refs value env ≡ ok env'
    → var key env' ≡ next_value key refs value (var key env)
unfolding set_value
value_set key refs none env env' h = let same : env ≡ env' = cc in ap (var key) (sym same)
value_set key [] (some v) env env' h = absurd (cc)
value_set key ((k, r) ∷ refs) (some v) env env' h =
    let same : set_var k v env ≡ env' = cc in
    ap (var key) (sym same) ∙ elim (Bool-cases (text_eq k key)) [
      | inl equal ↦ rw equal (
          ap (λ name. var name (set_var k v env)) (sym (text_eq_sound k key equal))
          ∙ var-set_var_self k v env)
      | inr other ↦ rw other (var-set_var_other key k v env other)
    ]

values_set :
    (key : Text) (refs : Refs) (results : List ResolvedRef) (env env' : Env)
    → set_values refs results env ≡ ok env'
    → var key env' ≡ last_value key refs results (var key env)
unfolding set_values
values_set key refs [] env env' h = let same : env ≡ env' = cc in ap (var key) (sym same)
values_set key refs (result ∷ results) env env' h =
    let (env1, first, rest) =
      >>=-eq-ok (set_value refs result.value env) (λ env1. set_values (tail_of refs) results env1)
        h in
    values_set key (tail_of refs) results env1 env' rest
    ∙ ap (λ t. last_value key t results (var key env1)) (tail_of_lem refs)
    ∙ ap (last_value key (tail_refs refs) results) (value_set key refs result.value env env1 first)

-- The request that asks for all references of an environment, in their order.
abbrev pub asking_for : Env → Request
asking_for env = record {
  id = some 1;
  method = text "vault.resolve_refs";
  params = some (RequestParams.resolve_refs (map (λ r. r.1) (refs_of env)));
}

-- What the command's environment is, from the environment behind the manifests: the same where it
-- holds no reference; else the service answered the request for all of its references as `P` says,
-- neither with an error nor with one in a result, and each variable has the value that the results
-- give it, and that it had where they give none.
abbrev pub IsResolved : (Request → Response → Type 0) → Env → Env → Type 0
IsResolved P env env' =
    ((refs_of env ≡ []) × (env' ≡ env))
    ⊎ ((response : Response) × (results : List ResolvedRef) × P (asking_for env) response
        × (response.error ≡ none)
        × (result_as resolved_of response.result ≡ ok results)
        × All (λ r. r.error ≡ none) results
        × ((key : Text) → var key env' ≡ last_value key (refs_of env) results (var key env)))

no_error : (response : Response) → check_error response ≡ ok tt → response.error ≡ none
unfolding check_error
no_error response h = ground arith

module _ {S : Type 0} (send : Request → Steps CliError S Response) (P : Request → Response → Type 0)
    (replies : (request : Request) → Ends Anything (P request) (send request)) where
  failed_or_set :
      (env : Env) (response : Response) (results : List ResolvedRef) (failed : Bool)
      → P (asking_for env) response
      → response.error ≡ none
      → result_as resolved_of response.result ≡ ok results
      → had_errors (refs_of env) results ≡ ok failed
      → Ends {S = S} Anything (IsResolved P env) (
          if failed
          then raise (bail (text "Some vault references could not be resolved"))
          else lift (set_values (refs_of env) results env))
  failed_or_set env response results true p clean shape h = Ends-raise _ tt
  failed_or_set env response results false p clean shape h =
      Ends-lift (set_values (refs_of env) results env) (λ env' e. inr (
        response,
        results,
        p,
        clean,
        shape,
        no_errors (refs_of env) results h,
        λ key. values_set key (refs_of env) results env env' e,
      ))

  replace_refs-Ends :
      (env : Env) (response : Response) (results : List ResolvedRef)
      → P (asking_for env) response
      → response.error ≡ none
      → result_as resolved_of response.result ≡ ok results
      → Ends Anything (IsResolved P env) (replace_refs send (refs_of env) env results)
  unfolding replace_refs
  replace_refs-Ends env response results p clean shape =
      Ends-bind_value _ _ (Ends-lift (had_errors (refs_of env) results) (λ failed e. e))
        (λ failed e. failed_or_set env response results failed p clean shape e)

  resolve_refs-Ends :
      (env : Env) → Ends Anything (IsResolved P env) (resolve_refs send (refs_of env) env)
  unfolding resolve_refs resolve_request
  resolve_refs-Ends env =
      Ends-bind_value _ _
        (send_unlocked-Ends send (P (asking_for env)) _ (replies (asking_for env)) _)
        (λ response p.
          Ends-bind_value _ _ (Ends-lift (check_error response) (λ _ e. no_error response e))
            (λ _ clean.
              Ends-bind_value _ _
                (Ends-lift (result_as resolved_of response.result) (λ results e. e))
                (λ results e. replace_refs-Ends env response results p clean e)))

  resolve_env-Ends :
      (env : Env) (refs : Refs)
      → refs_of env ≡ refs
      → Ends Anything (IsResolved P env) (resolve_env send refs env)
  unfolding resolve_env
  resolve_env-Ends env [] e = Ends-pure env (inl (e, refl))
  resolve_env-Ends env (r ∷ refs) e =
      subst (λ t. Ends Anything (IsResolved P env) (resolve_refs send t env)) e
        (resolve_refs-Ends env)

  -- With which environment a command is started, where the service answers every request as a
  -- relation `P` of requests and replies says: if the manifests were read, then that behind the
  -- manifests, with its references resolved, if it has some, by an answer without any error to the
  -- one request that holds all of them.
  pub handle_run-IsResolved :
      (read_file : Text → Option Text) (manifests : List Text) (program : Text) (args : List Text)
      (env env1 : Env) (s : S)
      → apply_manifests read_file manifests env ≡ ok env1
      → Outcome Anything
          (IsResolved P env1)
          (handle_run send read_file manifests (program ∷ args) env s).0
  unfolding handle_run
  handle_run-IsResolved read_file manifests program args env env1 s h =
      (Ends-bind_value _ _ (Ends-lift (apply_manifests read_file manifests env) (λ env2 e. e))
          (λ env2 e.
            let same : env1 ≡ env2 = cc in
            subst (λ x. Ends Anything (IsResolved P env1) (resolve_env send (refs_of x) x)) same
              (resolve_env-Ends env1 (refs_of env1) refl))).from
        s
