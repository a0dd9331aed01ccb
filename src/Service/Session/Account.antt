-- ===== src/Service/Session/Account.antt =====
-- session.rs: the handlers of the `auth.*` methods.
pub mod Safe
pub mod Replies
pub mod Backoff
pub mod Offline
use bitsafe.Prelude.{ℕ, ◌+◌, Bool, true, false, not, Option, none, some, ltb, if◌then◌else◌}
use bitsafe.Prelude.Texts.{Text, text}
use bitsafe.Prelude.Results.{Result, ok, err}
use bitsafe.Sdk.{SdkError, auth_failed}
use bitsafe.Protocol.Request.{RequestParams, LoginParams}
use bitsafe.Protocol.Response.{
  Response, Answer, ok_result, success, failure, rpc_error, invalid_params, internal_error,
  prompt_unavailable, not_logged_in,
}
use bitsafe.Protocol.Response as Response
use bitsafe.Sdk.Act.{pure, raise, ◌>>=◌, ◌>>◌}
use bitsafe.Service.Prompt.{PromptMethod, is_none_method, prompt_password}
use bitsafe.Service.World.{
  VaultState, logged_out, locked, unlocked, ServiceState, World, Outside, is_unlocked, is_locked,
  is_logged_out,
}
use bitsafe.Service.State.{
  master_password_backoff_remaining, record_password_failure, reset_password_attempts, login, lock,
  logout, set_pin, pin_set,
}
use bitsafe.Service.Unlock.{unlock, verify_password}
use bitsafe.Service.Task.{Sys, Task, critical, reading, writing, return_if}
use bitsafe.Service.Approval.{resolve_scope_key, grant_scope}
use bitsafe.Service.Session.Errors.{sdk_err_to_rpc, too_many_attempts}

-- `VaultState::to_string`
state_name : VaultState → Text
state_name logged_out = text "logged_out"
state_name locked = text "locked"
state_name unlocked = text "unlocked"

-- `OkResult { ok: true }`
abbrev pub ok_true : Answer
ok_true = ok_result true

login_params : Option RequestParams → Option LoginParams
login_params (some (RequestParams.login p)) = some p
login_params _ = none

unlock_password : Option RequestParams → Option Text
unlock_password (some (RequestParams.unlock password)) = password
unlock_password _ = none

set_pin_params : Option RequestParams → Option Text
set_pin_params (some (RequestParams.set_pin pin)) = some pin
set_pin_params _ = none

module _ {C : Type 0} (id : Option ℕ) where
  status_of : World C → Response
  unfolding state_name
  status_of w = success id (
      Answer.status (record {
        state = state_name w.service.vault_state;
        email = w.service.email;
        server_url = w.service.server_url;
        last_sync = w.service.last_sync;
        session_active = none;
        pin_set = if is_unlocked w.service.vault_state then some (pin_set w) else none;
      }))

  pub handle_status : Task C Response Response
  unfolding status_of
  handle_status = reading status_of

  -- `if remaining > 0 { return … }`
  pub enforce_backoff : Task C Response (Unit {0})
  enforce_backoff = do
    remaining ← reading master_password_backoff_remaining
    return_if (ltb 0 remaining) (failure id (too_many_attempts remaining))

  password_or_return : Text → Result Text (Option Text) → Task C Response Text
  password_or_return cancelled (ok (some password)) = pure password
  password_or_return cancelled (ok none) = raise (failure id (rpc_error 1010 cancelled))
  password_or_return cancelled (err e) = raise (failure id (internal_error e))

module _ {C : Type 0} (o : Outside C) (id : Option ℕ) where
  -- The password of the request, or what the prompt program gives.
  obtain_password : Text → Option Text → Task C Response Text
  unfolding password_or_return
  obtain_password cancelled (some password) = pure password
  obtain_password cancelled none = do
    method ← reading (λ w. w.service.prompt_method)
    return_if (is_none_method method) (failure id prompt_unavailable)
    password_or_return id cancelled (prompt_password o.run method)

  -- What the handlers do, still under the lock, with the result of a check of the password.
  answer_attempt :
      (World C → World C)
      → Result SdkError (Unit {0})
      → World C
      → Result Response (Unit {0}) × World C
  answer_attempt on_success (ok _) w = (ok tt, on_success (reset_password_attempts o w))
  answer_attempt on_success (err (auth_failed message)) w =
      (err (failure id (Response.auth_failed message)), record_password_failure o w)
  answer_attempt on_success (err e) w = (err (failure id (sdk_err_to_rpc e)), w)

  pub login_locked : LoginParams → Text → World C → Result Response (Unit {0}) × World C
  unfolding answer_attempt
  login_locked p password w =
      let (r, w') = login o p.email password p.server_url w in answer_attempt (λ v. v) r w'

  or_return : Result Response (Unit {0}) → Task C Response (Unit {0})
  or_return (ok _) = pure tt
  or_return (err response) = raise response

  login_with : Option LoginParams → Task C Response Response
  unfolding obtain_password login_locked or_return enforce_backoff
  login_with none = raise (failure id (invalid_params (text "Expected {email}")))
  login_with (some p) = do
    enforce_backoff id
    password ← obtain_password (text "Login cancelled by user") p.password
    r ← critical (login_locked p password)
    or_return r
    pure (success id ok_true)

  pub handle_login : Option RequestParams → Task C Response Response
  unfolding login_with login_params
  handle_login params = login_with (login_params params)

  -- The scope of the peer is resolved and granted under the lock.
  pub grant_here : Option ℕ → World C → World C
  grant_here peer_pid w = let (key, w') = resolve_scope_key o peer_pid w in grant_scope o key w'

  unlock_locked : (World C → World C) → Text → World C → Result Response (Unit {0}) × World C
  unfolding answer_attempt
  unlock_locked on_success password w =
      let (r, w') = unlock o password w in answer_attempt on_success r w'

  -- `tokio::spawn(sync_now)`
  pub spawn_sync : World C → World C
  spawn_sync w = record w { spawned_syncs = w.spawned_syncs + 1 }

  pub handle_unlock : Option RequestParams → Option ℕ → Task C Response Response
  unfolding obtain_password unlock_locked or_return enforce_backoff grant_here spawn_sync
      unlock_password
  handle_unlock params peer_pid = do
    enforce_backoff id
    password ← obtain_password (text "Unlock cancelled by user") (unlock_password params)
    r ← critical (unlock_locked (grant_here peer_pid) password)
    or_return r
    writing spawn_sync
    pure (success id ok_true)

  answer_of : Result SdkError (Unit {0}) → Response
  answer_of (ok _) = success id ok_true
  answer_of (err e) = failure id (sdk_err_to_rpc e)

  lock_locked : World C → Response × World C
  unfolding answer_of
  lock_locked w =
      if not (is_unlocked w.service.vault_state)
      then (success id ok_true, w)
      else let (r, w') = lock o w in (answer_of r, w')

  pub handle_lock : Task C Response Response
  unfolding lock_locked
  handle_lock = critical lock_locked

  logout_locked : World C → Response × World C
  unfolding answer_of
  logout_locked w = let (r, w') = logout o w in (answer_of r, w')

  pub handle_logout : Task C Response Response
  unfolding logout_locked
  handle_logout = critical logout_locked

  set_pin_locked : Text → World C → Response × World C
  unfolding answer_of
  set_pin_locked pin w = let (r, w') = set_pin pin w in (answer_of r, w')

  set_pin_with : Option Text → Task C Response Response
  unfolding set_pin_locked
  set_pin_with none = raise (failure id (invalid_params (text "Expected {pin}")))
  set_pin_with (some pin) = critical (set_pin_locked pin)

  pub handle_set_pin : Option RequestParams → Task C Response Response
  unfolding set_pin_with set_pin_params
  handle_set_pin params = set_pin_with (set_pin_params params)

  may_authorize : World C → Result Response (Unit {0})
  may_authorize w =
      if is_logged_out w.service.vault_state
      then err (failure id not_logged_in)
      else let remaining = master_password_backoff_remaining w in
        if ltb 0 remaining then err (failure id (too_many_attempts remaining)) else ok tt

  authorize_locked : Text → Task C Response (Unit {0})
  unfolding unlock_locked or_return spawn_sync
  authorize_locked password = do
    r ← critical (unlock_locked (λ w. w) password)
    or_return r
    writing spawn_sync

  record_verified : Result SdkError (Unit {0}) → Task C Response (Unit {0})
  unfolding answer_attempt or_return
  record_verified (ok _) = writing (reset_password_attempts o)
  record_verified (err (auth_failed message)) = do
    writing (record_password_failure o)
    raise (failure id (Response.auth_failed message))
  record_verified (err e) = raise (failure id (sdk_err_to_rpc e))

  authorize_unlocked : Text → Task C Response (Unit {0})
  unfolding record_verified
  authorize_unlocked password = do r ← critical (verify_password o password); record_verified r

  authorize_with : Option ℕ → Option Text → Task C Response Response
  unfolding may_authorize authorize_locked authorize_unlocked grant_here or_return
  authorize_with peer_pid none = raise (failure id (invalid_params (text "Expected {password}")))
  authorize_with peer_pid (some password) = do
    may ← reading may_authorize
    or_return may
    needs_unlock ← reading (λ w. is_locked w.service.vault_state)
    if needs_unlock then authorize_locked password else authorize_unlocked password
    writing (grant_here peer_pid)
    pure (success id ok_true)

  pub handle_authorize : Option RequestParams → Option ℕ → Task C Response Response
  unfolding authorize_with unlock_password
  handle_authorize params peer_pid = authorize_with peer_pid (unlock_password params)
