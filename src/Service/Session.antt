-- ===== src/Service/Session.antt =====
-- crates/grimoire-service/src/session.rs: the gate, the handlers and `dispatch`. A time in an answer
-- is the number that `to_rfc3339` prints.
pub mod Errors
pub mod Account
pub mod Refs
pub mod Items
pub mod Safe
pub mod Replies
pub mod Uris
pub mod Gate
pub mod Attempts
use bitsafe.Prelude.{
  ℕ, ◌+◌, Bool, true, false, not, Option, none, some, List, map, ◌++◌, ltb, if◌then◌else◌,
}
use bitsafe.Prelude.Texts.{Text, text, display}
use bitsafe.Prelude.Results.{Result, ok, err}
use bitsafe.Protocol.Request.{
  Request, Method, method_of, auth_status, auth_login, auth_unlock, auth_lock, auth_logout,
  auth_set_pin, auth_authorize, sync_trigger, sync_status, ssh_list_keys, vault_resolve_refs,
  unknown,
}
use bitsafe.Protocol.Response.{
  Response, Answer, RpcError, success, failure, vault_locked, access_approval_denied,
  method_not_found,
}
use bitsafe.Sdk.Act.{pure, raise, ◌>>=◌, ◌>>◌}
use bitsafe.Service.Prompt.{PromptMethod}
use bitsafe.Service.World.{ServiceState, World, Outside, is_unlocked}
use bitsafe.Service.Approvals.{is_approved}
use bitsafe.Service.State.{touch}
use bitsafe.Service.Task.{Sys, Task, critical, reading, writing, call, return_if}
use bitsafe.Service.Approval.{resolve_scope_key, attempt_approval}
use Account.{
  handle_status, handle_login, handle_unlock, handle_lock, handle_logout, handle_set_pin,
  handle_authorize,
}
use Items.{
  handle_vault_list, handle_vault_get, handle_vault_totp, handle_resolve_refs, handle_ssh_list_keys,
  handle_ssh_sign, handle_sync_trigger, handle_sync_status,
}

unfoldable pub requires_approval : Method → Bool
requires_approval Method.vault_list = true
requires_approval Method.vault_get = true
requires_approval Method.vault_totp = true
requires_approval Method.vault_resolve_refs = true
requires_approval Method.ssh_list_keys = true
requires_approval Method.ssh_sign = true
requires_approval Method.sync_trigger = true
requires_approval _ = false

module _ {C : Type 0} (o : Outside C) where
  denied : Option ℕ → Bool → Response
  denied id still_unlocked =
      failure id (if still_unlocked then access_approval_denied else vault_locked)

  approve : Option ℕ → PromptMethod → Option ℕ → Task C Response (Unit {0})
  unfolding denied
  approve id method peer_pid = do
    approved ← call (attempt_approval o method peer_pid)
    if approved then pure tt else do
      still_unlocked ← reading (λ w. is_unlocked w.service.vault_state)
      raise (denied id still_unlocked)

  -- What the first read of the gate takes from the state.
  gate_snapshot : World C → Bool × PromptMethod
  gate_snapshot w = (is_unlocked w.service.vault_state, w.service.prompt_method)

  pub gate : Option ℕ → Option ℕ → Task C Response (Unit {0})
  unfolding approve gate_snapshot
  gate id peer_pid = do
    writing touch
    snapshot ← reading gate_snapshot
    return_if (not snapshot.0) (failure id vault_locked)
    scope_key ← critical (resolve_scope_key o peer_pid)
    already_approved ← reading (λ w. is_approved w.now scope_key w.service.approval_cache)
    if already_approved then pure tt else approve id snapshot.1 peer_pid

  -- The arms of `match request.method.as_str()`.
  pub serve : Request → Method → Option ℕ → Task C Response Response
  serve r Method.auth_status peer_pid = handle_status r.id
  serve r Method.auth_login peer_pid = handle_login o r.id r.params
  serve r Method.auth_unlock peer_pid = handle_unlock o r.id r.params peer_pid
  serve r Method.auth_lock peer_pid = handle_lock o r.id
  serve r Method.auth_logout peer_pid = handle_logout o r.id
  serve r Method.auth_set_pin peer_pid = handle_set_pin o r.id r.params
  serve r Method.auth_authorize peer_pid = handle_authorize o r.id r.params peer_pid
  serve r Method.vault_list peer_pid = handle_vault_list o r.id r.params
  serve r Method.vault_get peer_pid = handle_vault_get o r.id r.params
  serve r Method.vault_totp peer_pid = handle_vault_totp o r.id r.params
  serve r Method.vault_resolve_refs peer_pid = handle_resolve_refs o r.id r.params
  serve r Method.ssh_list_keys peer_pid = handle_ssh_list_keys o r.id
  serve r Method.ssh_sign peer_pid = handle_ssh_sign o r.id r.params
  serve r Method.sync_trigger peer_pid = handle_sync_trigger o r.id
  serve r Method.sync_status peer_pid = handle_sync_status o r.id
  serve r Method.unknown peer_pid = pure (failure r.id (method_not_found r.method))

  gated : Request → Method → Option ℕ → Task C Response (Unit {0})
  unfolding gate requires_approval
  gated r method peer_pid = if requires_approval method then gate r.id peer_pid else pure tt

  dispatch_method : Request → Method → Option ℕ → Task C Response Response
  unfolding gated serve
  dispatch_method r method peer_pid = do gated r method peer_pid; serve r method peer_pid

  pub dispatch : Request → Option ℕ → Task C Response Response
  unfolding dispatch_method
  dispatch r peer_pid = dispatch_method r (method_of r.method) peer_pid
