-- ===== src/Service/Session/Gate.antt =====
-- session.rs: what the gate of `dispatch` lets through.
use bitsafe.Prelude.{ℕ, suc, ◌≡◌, refl, true, false, Option, none, some}
use bitsafe.Prelude.Results.{err}
use bitsafe.Protocol.Request.{Request, method_of}
use bitsafe.Protocol.Response.{Response, failure, vault_locked}
use bitsafe.Sdk.Act.{raise, ◌>>=◌}
use bitsafe.Service.Prompt.{PromptMethod}
use bitsafe.Service.World.{World, Outside, is_unlocked}
use bitsafe.Service.State.{touch}
use bitsafe.Service.Approval.{attempt_approval, resolve_scope_key}
use bitsafe.Service.Approval.Denied.{IsStranger, alone, attempt_approval-IsStranger}
use bitsafe.Service.Approvals.{is_approved}
use bitsafe.Service.Task.{Sys, returned, critical, reading, writing, call, return_if}
use bitsafe.Service.Session.{
  denied, gate_snapshot, approve, gate, gated, dispatch_method, dispatch, requires_approval,
}

module _ {C : Type 0} (o : Outside C) where
  -- The state as the gate reads it, behind the renewal of the inactivity timer.
  abbrev pub at_gate : Sys C → World C
  at_gate s = s.others 1 (touch (s.others 0 s.world))

  gate-locked :
      (id pid : Option ℕ) (s : Sys C)
      → is_unlocked (at_gate s).service.vault_state ≡ false
      → gate o id pid s ≡ (
        err (failure id vault_locked),
        record { world = at_gate s; others = λ n. s.others (suc (suc n)) },
      )
  unfolding gate ◌>>=◌ writing reading critical return_if gate_snapshot
  gate-locked id pid s h = rw h

  -- A request for vault data that reaches the gate while the vault is locked or logged out is
  -- answered with the error for a locked vault, and apart from the inactivity timer the request
  -- changes nothing.
  pub dispatch-locked :
      (r : Request) (pid : Option ℕ) (s : Sys C)
      → requires_approval (method_of r.method) ≡ true
      → is_unlocked (at_gate s).service.vault_state ≡ false
      → (returned (dispatch o r pid s).0 ≡ failure r.id vault_locked)
        × ((dispatch o r pid s).1.world ≡ at_gate s)
  unfolding dispatch dispatch_method gated ◌>>=◌
  dispatch-locked r pid s hr h = rw (hr, gate-locked r.id pid s h) (refl, refl)

  approve-denied :
      (id : Option ℕ) (method : PromptMethod) (pid : Option ℕ) (s : Sys C)
      → returned (attempt_approval o method pid s).0 ≡ false
      → (response : Response) × ((approve o id method pid s).0 ≡ err response)
        × (response.result ≡ none)
  unfolding approve ◌>>=◌ call reading critical raise denied
  approve-denied id method pid s h = rw h (denied o id _, refl, refl)

  gate-denied :
      (id : Option ℕ) (pid : ℕ) (w : World C)
      → is_unlocked w.service.vault_state ≡ true
      → is_approved w.now (resolve_scope_key o (some pid) w).0 w.service.approval_cache ≡ false
      → IsStranger o w.service.prompt_method (touch w)
      → (response : Response) × ((gate o id (some pid) (alone w)).0 ≡ err response)
        × (response.result ≡ none)
  unfolding gate ◌>>=◌ writing reading critical return_if gate_snapshot touch resolve_scope_key
  gate-denied id pid w hu ha h =
      rw (hu, ha)
        (approve-denied id w.service.prompt_method (some pid) (alone (touch w))
          (attempt_approval-IsStranger o w.service.prompt_method (some pid) (touch w) h))

  -- Where no other task runs: a request for vault data from a process whose terminal session has no
  -- approval while the vault is unlocked, and for which no prompt authenticates the user, gets no
  -- result.
  pub dispatch-IsStranger :
      (r : Request) (pid : ℕ) (w : World C)
      → requires_approval (method_of r.method) ≡ true
      → is_unlocked w.service.vault_state ≡ true
      → is_approved w.now (resolve_scope_key o (some pid) w).0 w.service.approval_cache ≡ false
      → IsStranger o w.service.prompt_method (touch w)
      → (returned (dispatch o r (some pid) (alone w)).0).result ≡ none
  unfolding dispatch dispatch_method gated ◌>>=◌
  dispatch-IsStranger r pid w hr hu ha h =
      let (response, refused, no_result) = gate-denied r.id pid w hu ha h in
      rw (hr, refused) no_result
