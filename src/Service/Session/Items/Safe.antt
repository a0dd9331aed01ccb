-- ===== src/Service/Session/Items/Safe.antt =====
-- session.rs: the other handlers keep the invariant of `ServiceState`, whatever the other tasks do.
use bitsafe.Prelude.{ℕ, Option, none, some, List, arith}
use bitsafe.Prelude.Results.{Result, ok, err}
use bitsafe.Sdk.{SdkError}
use bitsafe.Protocol.Request.{RequestParams, VaultRef, SshSignParams}
use bitsafe.Protocol.Request.Json.{Value}
use bitsafe.Protocol.Response.{Response}
use bitsafe.Sdk.Act.Keeps.{Keeps, Keeps-raise}
use bitsafe.Service.World.{World, Outside}
use bitsafe.Service.State.Consistent.{IsConsistent}
use bitsafe.Service.Unlock.{with_client}
use bitsafe.Service.Task.{Task}
use bitsafe.Service.Task.Safe.{Safe, Safe-reading, safe_rules}
use bitsafe.Service.Session.Items.{
  expected_id, handle_vault_list, handle_vault_get, handle_vault_totp, resolve_refs_with,
  handle_resolve_refs, handle_ssh_list_keys, sign_with, handle_ssh_sign, sync_reading, synced_now,
  sync_answer, handle_sync_trigger, handle_sync_status, get_params, totp_params, refs_params,
  sign_params, get_answer, totp_answer,
}

module _ {C : Type 0} (o : Outside C) (id : Option ℕ) where
  pub handle_vault_list-Safe :
      (params : Option RequestParams) → Keeps (Safe IsConsistent) (handle_vault_list o id params)
  unfolding handle_vault_list
  handle_vault_list-Safe params = Safe-reading _

  expected_id-Safe :
      {A : Type 0} (f : A → Task C Response Response)
      → ((a : A) → Keeps (Safe IsConsistent) (f a))
      → (given : Option A) → Keeps (Safe IsConsistent) (expected_id o id f given)
  unfolding expected_id
  expected_id-Safe f h none = Keeps-raise _
  expected_id-Safe f h (some a) = h a

  pub handle_vault_get-Safe :
      (params : Option RequestParams) → Keeps (Safe IsConsistent) (handle_vault_get o id params)
  unfolding handle_vault_get
  handle_vault_get-Safe params =
      expected_id-Safe _ (λ p. Safe-reading (get_answer o id p)) (get_params params)

  pub handle_vault_totp-Safe :
      (params : Option RequestParams) → Keeps (Safe IsConsistent) (handle_vault_totp o id params)
  unfolding handle_vault_totp
  handle_vault_totp-Safe params =
      expected_id-Safe _ (λ item. Safe-reading (totp_answer o id item)) (totp_params params)

  resolve_refs_with-Safe :
      (refs : Option (List VaultRef)) → Keeps (Safe IsConsistent) (resolve_refs_with o id refs)
  unfolding resolve_refs_with
  resolve_refs_with-Safe none = Keeps-raise _
  resolve_refs_with-Safe (some refs) = Safe-reading _

  pub handle_resolve_refs-Safe :
      (params : Option RequestParams) → Keeps (Safe IsConsistent) (handle_resolve_refs o id params)
  unfolding handle_resolve_refs
  handle_resolve_refs-Safe params = resolve_refs_with-Safe (refs_params params)

  pub handle_ssh_list_keys-Safe : Keeps (Safe IsConsistent) (handle_ssh_list_keys o id)
  unfolding handle_ssh_list_keys
  handle_ssh_list_keys-Safe = Safe-reading _

  sign_with-Safe : (p : Option SshSignParams) → Keeps (Safe IsConsistent) (sign_with o id p)
  unfolding sign_with
  sign_with-Safe none = Keeps-raise _
  sign_with-Safe (some p) = Safe-reading _

  pub handle_ssh_sign-Safe :
      (params : Option RequestParams) → Keeps (Safe IsConsistent) (handle_ssh_sign o id params)
  unfolding handle_ssh_sign
  handle_ssh_sign-Safe params = sign_with-Safe (sign_params params)

  sync_reading-IsConsistent : (w : World C) → IsConsistent w → IsConsistent (sync_reading o id w).1
  unfolding sync_reading with_client
  sync_reading-IsConsistent w h = ground arith

  synced_now-IsConsistent : (w : World C) → IsConsistent w → IsConsistent (synced_now o id w)
  unfolding synced_now
  synced_now-IsConsistent w h = ground arith

  sync_answer-Safe :
      (r : Result Response (Result SdkError (List Value)))
      → Keeps (Safe IsConsistent) (sync_answer o id r)
  unfolding sync_answer
  sync_answer-Safe (err response) = Keeps-raise response
  sync_answer-Safe (ok (ok ciphers)) = search (safe_rules, synced_now-IsConsistent) depth 10
  sync_answer-Safe (ok (err e)) = Keeps-raise _

  pub handle_sync_trigger-Safe : Keeps (Safe IsConsistent) (handle_sync_trigger o id)
  unfolding handle_sync_trigger
  handle_sync_trigger-Safe =
      search (safe_rules, sync_reading-IsConsistent, sync_answer-Safe) depth 12

  pub handle_sync_status-Safe : Keeps (Safe IsConsistent) (handle_sync_status o id)
  unfolding handle_sync_status
  handle_sync_status-Safe = Safe-reading _
