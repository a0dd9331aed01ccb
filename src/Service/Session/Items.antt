-- ===== src/Service/Session/Items.antt =====
-- session.rs: the handlers of the `vault.*`, `ssh.*` and `sync.*` methods.
pub mod Safe
pub mod Replies
pub mod Uris
use bitsafe.Prelude.{ℕ, Bool, true, false, not, Option, none, some, List, map, ◌++◌, if◌then◌else◌}
use bitsafe.Prelude.Bytes.{Bytes}
use bitsafe.Prelude.Texts.{Text, text}
use bitsafe.Prelude.Results.{Result, ok, err}
use bitsafe.Sdk.{SdkError}
use bitsafe.Sdk.Client.{Client, CipherSummary, CipherDetail, VaultFilter, CipherType, SshKey}
use bitsafe.Protocol.Request.{
  RequestParams, VaultListParams, VaultGetParams, VaultRef, SshSignParams,
}
use bitsafe.Protocol.Request.Json.{Value}
use bitsafe.Protocol.Response.{
  Response, Answer, success, failure, rpc_error, invalid_params, vault_locked, not_logged_in,
  VaultItem, VaultItemDetail, SshKeyInfo, TotpResult,
}
use bitsafe.Sdk.Act.{pure, raise, ◌>>=◌, ◌>>◌}
use bitsafe.Service.World.{ServiceState, World, Outside, is_unlocked}
use bitsafe.Service.Unlock.{vault_list, vault_get, vault_totp, with_client}
use bitsafe.Service.Task.{Sys, Task, critical, reading, writing, return_if}
use bitsafe.Service.Session.Account.{ok_true}
use bitsafe.Service.Session.Errors.{sdk_err_to_rpc, sdk_error_display}
use bitsafe.Service.Session.Refs.{cipher_type_name, parse_cipher_type, resolve_ref}

kind_of : Option Text → Option CipherType
kind_of none = none
kind_of (some name) = parse_cipher_type name

filter_of : Option RequestParams → VaultFilter
unfolding kind_of
filter_of (some (RequestParams.vault_list p)) = record {
  cipher_type = kind_of p.kind;
  search = p.search;
}
filter_of _ = record { cipher_type = none; search = none }

vault_item : CipherSummary → VaultItem
vault_item c = record {
  id = c.id;
  name = c.name;
  kind = cipher_type_name c.cipher_type;
  username = c.username;
  uri = c.uri;
}

item_detail : CipherDetail → VaultItemDetail
item_detail d = record {
  id = d.id;
  name = d.name;
  kind = cipher_type_name d.cipher_type;
  username = d.username;
  password = d.password;
  uri = d.uri;
  notes = d.notes;
  totp = d.totp;
}

key_info : SshKey → SshKeyInfo
key_info k = record {
  id = k.id;
  name = k.name;
  public_key = k.public_key;
  fingerprint = k.fingerprint;
}

get_params : Option RequestParams → Option VaultGetParams
get_params (some (RequestParams.vault_get p)) = some p
get_params _ = none

unfoldable pub totp_params : Option RequestParams → Option Text
totp_params (some (RequestParams.vault_totp id)) = some id
totp_params _ = none

refs_params : Option RequestParams → Option (List VaultRef)
refs_params (some (RequestParams.resolve_refs refs)) = some refs
refs_params _ = none

sign_params : Option RequestParams → Option SshSignParams
sign_params (some (RequestParams.ssh_sign p)) = some p
sign_params _ = none

module _ {C : Type 0} (o : Outside C) (id : Option ℕ) where
  answer_with : {A : Type 0} → (A → Answer) → Result SdkError A → Response
  answer_with f (ok a) = success id (f a)
  answer_with f (err e) = failure id (sdk_err_to_rpc e)

  -- `let s = state.read().await; match s.f(…).await { … }`
  list_answer : Option RequestParams → World C → Response
  unfolding answer_with filter_of vault_item
  list_answer params w =
      answer_with (λ items. Answer.vault_list (map vault_item items))
        (vault_list o (filter_of params) w).0

  pub handle_vault_list : Option RequestParams → Task C Response Response
  unfolding list_answer
  handle_vault_list params = reading (list_answer params)

  expected_id : {A : Type 0} → (A → Task C Response Response) → Option A → Task C Response Response
  expected_id f none = raise (failure id (invalid_params (text "Expected {id}")))
  expected_id f (some a) = f a

  get_answer : VaultGetParams → World C → Response
  unfolding answer_with item_detail
  get_answer p w = answer_with (λ d. Answer.vault_item (item_detail d)) (vault_get o p.id w).0

  pub handle_vault_get : Option RequestParams → Task C Response Response
  unfolding get_answer expected_id get_params
  handle_vault_get params = expected_id (λ p. reading (get_answer p)) (get_params params)

  totp_answer : Text → World C → Response
  unfolding answer_with
  totp_answer item w =
      answer_with (λ code. Answer.totp (record { code = code; period = 30 }))
        (vault_totp o item w).0

  pub handle_vault_totp : Option RequestParams → Task C Response Response
  unfolding totp_answer expected_id totp_params
  handle_vault_totp params = expected_id (λ item. reading (totp_answer item)) (totp_params params)

  -- `let Some(sdk) = &s.sdk else { return … }`
  with_sdk : (C → Response) → Option C → Response
  with_sdk f none = failure id not_logged_in
  with_sdk f (some sdk) = f sdk

  refs_answer : List VaultRef → C → Response
  unfolding answer_with
  refs_answer refs sdk =
      answer_with (λ items. Answer.resolved_refs (map (resolve_ref o.client sdk items) refs))
        (o.client.list sdk (record { cipher_type = none; search = none }))

  resolve_refs_with : Option (List VaultRef) → Task C Response Response
  unfolding refs_answer with_sdk
  resolve_refs_with none = raise (failure id (invalid_params (text "Expected {refs: [...]}")))
  resolve_refs_with (some refs) = reading (λ w. with_sdk (refs_answer refs) w.service.sdk)

  pub handle_resolve_refs : Option RequestParams → Task C Response Response
  unfolding resolve_refs_with refs_params
  handle_resolve_refs params = resolve_refs_with (refs_params params)

  keys_answer : C → Response
  unfolding answer_with key_info
  keys_answer sdk =
      answer_with (λ keys. Answer.ssh_keys (map key_info keys)) (o.client.list_keys sdk)

  pub handle_ssh_list_keys : Task C Response Response
  unfolding keys_answer with_sdk
  handle_ssh_list_keys = reading (λ w. with_sdk keys_answer w.service.sdk)

  sign_answer : SshSignParams → C → Response
  unfolding answer_with
  sign_answer p sdk = answer_with Answer.signature (o.client.sign sdk p.key_id p.payload p.flags)

  sign_with : Option SshSignParams → Task C Response Response
  unfolding sign_answer with_sdk
  sign_with none = raise (failure id (invalid_params (text "Expected {key_id, data, flags}")))
  sign_with (some p) = reading (λ w. with_sdk (sign_answer p) w.service.sdk)

  pub handle_ssh_sign : Option RequestParams → Task C Response Response
  unfolding sign_with sign_params
  handle_ssh_sign params = sign_with (sign_params params)

  -- The sync runs under the read lock; it replaces the ciphers in the client.
  sync_client :
      Option C → Option Text → World C → Result Response (Result SdkError (List Value)) × World C
  sync_client (some sdk) (some url) w =
      let (r, w') = with_client (λ c. o.client.sync c url) sdk w in (ok r, w')
  sync_client _ _ w = (err (failure id not_logged_in), w)

  sync_reading : World C → Result Response (Result SdkError (List Value)) × World C
  unfolding sync_client
  sync_reading w =
      if not (is_unlocked w.service.vault_state)
      then (err (failure id vault_locked), w)
      else sync_client w.service.sdk w.service.server_url w

  -- `s.last_sync = Some(Utc::now())`
  synced_now : World C → World C
  synced_now w = record w { service = record w.service { last_sync = some w.epoch } }

  sync_answer : Result Response (Result SdkError (List Value)) → Task C Response Response
  unfolding synced_now
  sync_answer (err response) = raise response
  sync_answer (ok (ok ciphers)) = do writing synced_now; pure (success id ok_true)
  sync_answer (ok (err e)) =
      raise (failure id (rpc_error 1004 (text "Sync failed: " ++ sdk_error_display e)))

  pub handle_sync_trigger : Task C Response Response
  unfolding sync_reading sync_answer
  handle_sync_trigger = do r ← critical sync_reading; sync_answer r

  pub handle_sync_status : Task C Response Response
  handle_sync_status = reading (λ w. success id (Answer.last_sync w.service.last_sync))
