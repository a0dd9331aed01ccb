-- ===== src/Service/Session/Safe.antt =====
-- session.rs: every request keeps the invariant of `ServiceState`, whatever the other tasks do.
use bitsafe.Prelude.{ℕ, Option}
use bitsafe.Protocol.Request.{Request, Method, method_of}
use bitsafe.Sdk.Act.Keeps.{Keeps, Keeps-pure}
use bitsafe.Service.Prompt.{PromptMethod}
use bitsafe.Service.World.{World, Outside}
use bitsafe.Service.State.Consistent.{IsConsistent, touch-IsConsistent}
use bitsafe.Service.Task.{Sys}
use bitsafe.Service.Task.Safe.{Safe, safe_rules}
use bitsafe.Service.Approval.Safe.{resolve_scope_key-IsConsistent, attempt_approval-Safe}
use bitsafe.Service.Session.Account.Safe.{
  handle_status-Safe, handle_login-Safe, handle_unlock-Safe, handle_lock-Safe, handle_logout-Safe,
  handle_set_pin-Safe, handle_authorize-Safe,
}
use bitsafe.Service.Session.Items.Safe.{
  handle_vault_list-Safe, handle_vault_get-Safe, handle_vault_totp-Safe, handle_resolve_refs-Safe,
  handle_ssh_list_keys-Safe, handle_ssh_sign-Safe, handle_sync_trigger-Safe,
  handle_sync_status-Safe,
}
use bitsafe.Service.Session.{approve, gate, serve, gated, dispatch_method, dispatch}

module _ {C : Type 0} (o : Outside C) where
  approve-Safe :
      (id : Option ℕ) (method : PromptMethod) (pid : Option ℕ)
      → Keeps (Safe IsConsistent) (approve o id method pid)
  unfolding approve
  approve-Safe id method pid = search (safe_rules, attempt_approval-Safe) depth 20

  gate-Safe : (id pid : Option ℕ) → Keeps (Safe IsConsistent) (gate o id pid)
  unfolding gate
  gate-Safe id pid =
      search (safe_rules, touch-IsConsistent, resolve_scope_key-IsConsistent, approve-Safe) depth 30

  serve-Safe :
      (r : Request) (m : Method) (pid : Option ℕ) → Keeps (Safe IsConsistent) (serve o r m pid)
  unfolding serve
  serve-Safe r Method.auth_status pid = handle_status-Safe o r.id
  serve-Safe r Method.auth_login pid = handle_login-Safe o r.id r.params
  serve-Safe r Method.auth_unlock pid = handle_unlock-Safe o r.id r.params pid
  serve-Safe r Method.auth_lock pid = handle_lock-Safe o r.id
  serve-Safe r Method.auth_logout pid = handle_logout-Safe o r.id
  serve-Safe r Method.auth_set_pin pid = handle_set_pin-Safe o r.id r.params
  serve-Safe r Method.auth_authorize pid = handle_authorize-Safe o r.id r.params pid
  serve-Safe r Method.vault_list pid = handle_vault_list-Safe o r.id r.params
  serve-Safe r Method.vault_get pid = handle_vault_get-Safe o r.id r.params
  serve-Safe r Method.vault_totp pid = handle_vault_totp-Safe o r.id r.params
  serve-Safe r Method.vault_resolve_refs pid = handle_resolve_refs-Safe o r.id r.params
  serve-Safe r Method.ssh_list_keys pid = handle_ssh_list_keys-Safe o r.id
  serve-Safe r Method.ssh_sign pid = handle_ssh_sign-Safe o r.id r.params
  serve-Safe r Method.sync_trigger pid = handle_sync_trigger-Safe o r.id
  serve-Safe r Method.sync_status pid = handle_sync_status-Safe o r.id
  serve-Safe r Method.unknown pid = Keeps-pure _

  gated-Safe :
      (r : Request) (m : Method) (pid : Option ℕ) → Keeps (Safe IsConsistent) (gated o r m pid)
  unfolding gated
  gated-Safe r m pid = search (safe_rules, gate-Safe) depth 10

  dispatch_method-Safe :
      (r : Request) (m : Method) (pid : Option ℕ)
      → Keeps (Safe IsConsistent) (dispatch_method o r m pid)
  unfolding dispatch_method
  dispatch_method-Safe r m pid = search (safe_rules, gated-Safe, serve-Safe) depth 10

  -- Any request, from any peer and however the other tasks interleave with it, leaves the state
  -- consistent, provided that it was and that each thing the other tasks do keeps it so: an account
  -- is there exactly if the service is not logged out, a session exactly if it is unlocked, a PIN
  -- has four bytes at least, and fewer than three wrong PINs are outstanding.
  pub dispatch-IsConsistent :
      (r : Request) (pid : Option ℕ) (s : Sys C)
      → IsConsistent s.world
      → ((n : ℕ) (w : World C) → IsConsistent w → IsConsistent (s.others n w))
      → IsConsistent (dispatch o r pid s).1.world
  unfolding dispatch
  dispatch-IsConsistent r pid s h others =
      ((dispatch_method-Safe r (method_of r.method) pid).at s
        (record { holds = h; kept = others })).holds
