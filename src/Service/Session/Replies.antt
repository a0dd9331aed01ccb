-- ===== src/Service/Session/Replies.antt =====
-- session.rs: `dispatch` answers the request that it was given.
use bitsafe.Prelude.{ℕ, Option}
use bitsafe.Prelude.Results.{Result, ok, err}
use bitsafe.Protocol.Request.{Request, Method, method_of}
use bitsafe.Protocol.Response.{Response}
use bitsafe.Sdk.Act.Ends.{Outcome, Anything, Ends, Ends-pure, ends_rules}
use bitsafe.Service.Prompt.{PromptMethod}
use bitsafe.Service.World.{Outside}
use bitsafe.Service.Task.{Sys, returned}
use bitsafe.Service.Task.Replies.{IsReply, reply_rules}
use bitsafe.Service.Session.Account.Replies.{
  handle_status-Reply, handle_login-Reply, handle_unlock-Reply, handle_lock-Reply,
  handle_logout-Reply, handle_set_pin-Reply, handle_authorize-Reply,
}
use bitsafe.Service.Session.Items.Replies.{
  handle_vault_list-Reply, handle_vault_get-Reply, handle_vault_totp-Reply,
  handle_resolve_refs-Reply, handle_ssh_list_keys-Reply, handle_ssh_sign-Reply,
  handle_sync_trigger-Reply, handle_sync_status-Reply,
}
use bitsafe.Service.Session.{approve, gate, serve, gated, dispatch_method, dispatch}

module _ {C : Type 0} (o : Outside C) where
  approve-Reply :
      (id : Option ℕ) (method : PromptMethod) (pid : Option ℕ)
      → Ends (IsReply id) Anything (approve o id method pid)
  unfolding approve
  approve-Reply id method pid = search reply_rules depth 20

  gate-Reply : (id pid : Option ℕ) → Ends (IsReply id) Anything (gate o id pid)
  unfolding gate
  gate-Reply id pid = search (reply_rules, approve-Reply) depth 30

  gated-Reply :
      (r : Request) (m : Method) (pid : Option ℕ) → Ends (IsReply r.id) Anything (gated o r m pid)
  unfolding gated
  gated-Reply r m pid = search (reply_rules, gate-Reply) depth 10

  serve-Reply :
      (r : Request) (m : Method) (pid : Option ℕ)
      → Ends (IsReply r.id) (IsReply r.id) (serve o r m pid)
  unfolding serve
  serve-Reply r Method.auth_status pid = handle_status-Reply o r.id
  serve-Reply r Method.auth_login pid = handle_login-Reply o r.id r.params
  serve-Reply r Method.auth_unlock pid = handle_unlock-Reply o r.id r.params pid
  serve-Reply r Method.auth_lock pid = handle_lock-Reply o r.id
  serve-Reply r Method.auth_logout pid = handle_logout-Reply o r.id
  serve-Reply r Method.auth_set_pin pid = handle_set_pin-Reply o r.id r.params
  serve-Reply r Method.auth_authorize pid = handle_authorize-Reply o r.id r.params pid
  serve-Reply r Method.vault_list pid = handle_vault_list-Reply o r.id r.params
  serve-Reply r Method.vault_get pid = handle_vault_get-Reply o r.id r.params
  serve-Reply r Method.vault_totp pid = handle_vault_totp-Reply o r.id r.params
  serve-Reply r Method.vault_resolve_refs pid = handle_resolve_refs-Reply o r.id r.params
  serve-Reply r Method.ssh_list_keys pid = handle_ssh_list_keys-Reply o r.id
  serve-Reply r Method.ssh_sign pid = handle_ssh_sign-Reply o r.id r.params
  serve-Reply r Method.sync_trigger pid = handle_sync_trigger-Reply o r.id
  serve-Reply r Method.sync_status pid = handle_sync_status-Reply o r.id
  serve-Reply r Method.unknown pid = Ends-pure _ (IsReply.refused _)

  dispatch_method-Reply :
      (r : Request) (m : Method) (pid : Option ℕ)
      → Ends (IsReply r.id) (IsReply r.id) (dispatch_method o r m pid)
  unfolding dispatch_method
  dispatch_method-Reply r m pid = search (ends_rules, gated-Reply, serve-Reply) depth 10

  returned-Reply :
      (id : Option ℕ) (r : Result Response Response)
      → Outcome (IsReply id) (IsReply id) r
      → IsReply id (returned r)
  returned-Reply id (ok response) h = h
  returned-Reply id (err response) h = h

  -- Every request gets a reply that carries its id and either a result or an error, never both and
  -- never neither, for every method, peer and state, and however the other tasks interleave.
  pub dispatch-IsReply :
      (r : Request) (pid : Option ℕ) (s : Sys C) → IsReply r.id (returned (dispatch o r pid s).0)
  unfolding dispatch
  dispatch-IsReply r pid s =
      returned-Reply r.id (dispatch_method o r (method_of r.method) pid s).0
        ((dispatch_method-Reply r (method_of r.method) pid).from s)
