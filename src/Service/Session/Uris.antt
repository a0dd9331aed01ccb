-- ===== src/Service/Session/Uris.antt =====
-- session.rs: a request for the list of items never gets a URI.
use bitsafe.Prelude.{ℕ, ◌≡◌, Option}
use bitsafe.Prelude.Results.{Result, ok, err}
use bitsafe.Protocol.Request.{Request, Method, method_of}
use bitsafe.Protocol.Response.{Response}
use bitsafe.Sdk.Act.Ends.{Outcome, Anything, Ends, ends_rules}
use bitsafe.Service.Prompt.{PromptMethod}
use bitsafe.Service.World.{Outside}
use bitsafe.Sdk.Vault.Uris.{ListsNoUris}
use bitsafe.Service.Task.{Sys, returned}
use bitsafe.Service.Task.Replies.{reply_rules}
use bitsafe.Service.Session.Items.Uris.{IsUriFree, failure-IsUriFree, handle_vault_list-IsUriFree}
use bitsafe.Service.Session.{approve, gate, serve, gated, dispatch_method, dispatch}

module _ {C : Type 0} (o : Outside C) where
  approve-IsUriFree :
      (id : Option ℕ) (method : PromptMethod) (pid : Option ℕ)
      → Ends IsUriFree Anything (approve o id method pid)
  unfolding approve
  approve-IsUriFree id method pid = search (reply_rules, failure-IsUriFree) depth 20

  gate-IsUriFree : (id pid : Option ℕ) → Ends IsUriFree Anything (gate o id pid)
  unfolding gate
  gate-IsUriFree id pid = search (reply_rules, failure-IsUriFree, approve-IsUriFree) depth 30

  gated-IsUriFree :
      (r : Request) (m : Method) (pid : Option ℕ) → Ends IsUriFree Anything (gated o r m pid)
  unfolding gated
  gated-IsUriFree r m pid = search (reply_rules, gate-IsUriFree) depth 10

  list-IsUriFree :
      (r : Request) (pid : Option ℕ)
      → ListsNoUris o.client
      → Ends IsUriFree IsUriFree (dispatch_method o r Method.vault_list pid)
  unfolding dispatch_method serve
  list-IsUriFree r pid law =
      search (ends_rules, gated-IsUriFree, handle_vault_list-IsUriFree o law) depth 10

  returned-IsUriFree :
      (r : Result Response Response) → Outcome IsUriFree IsUriFree r → IsUriFree (returned r)
  returned-IsUriFree (ok response) h = h
  returned-IsUriFree (err response) h = h

  pub dispatch-IsUriFree :
      (r : Request) (pid : Option ℕ) (s : Sys C)
      → ListsNoUris o.client
      → method_of r.method ≡ Method.vault_list
      → IsUriFree (returned (dispatch o r pid s).0)
  unfolding dispatch
  dispatch-IsUriFree r pid s law list =
      rw list (returned-IsUriFree _ ((list-IsUriFree r pid law).from s))
