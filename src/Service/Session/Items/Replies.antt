-- ===== src/Service/Session/Items/Replies.antt =====
-- session.rs: the other handlers reply to the request that they serve; vault.totp over the wire.
use bitsafe.Prelude.{ℕ, ◌≡◌, ◌≢◌, refl, not, Option, none, some, List, inl, inr, Bool-cases}
use bitsafe.Prelude.Texts.{Text, text}
use bitsafe.Prelude.Results.{Result, ok, err}
use bitsafe.Sdk.{SdkError}
use bitsafe.Protocol.Request.{RequestParams, VaultRef, SshSignParams}
use bitsafe.Protocol.Request.Json.{Value}
use bitsafe.Protocol.Request.Untagged.{deserialize_params}
use bitsafe.Protocol.Request.Untagged.Shadowed.{deserialize_params-ne-vault_totp}
use bitsafe.Protocol.Response.{Response, Answer, failure, invalid_params}
use bitsafe.Sdk.Act.{raise}
use bitsafe.Sdk.Act.Ends.{Outcome, Anything, Ends, Ends-raise, Ends-bind_value}
use bitsafe.Service.World.{World, Outside, is_unlocked}
use bitsafe.Service.Task.{Task, Sys, critical, reading}
use bitsafe.Service.Task.Replies.{IsReply, Ends-critical_value, Ends-reading_value, reply_rules}
use bitsafe.Service.Session.Items.{
  answer_with, expected_id, list_answer, handle_vault_list, get_answer, handle_vault_get,
  totp_answer, handle_vault_totp, with_sdk, refs_answer, resolve_refs_with, handle_resolve_refs,
  keys_answer, handle_ssh_list_keys, sign_answer, sign_with, handle_ssh_sign, sync_client,
  sync_reading, sync_answer, handle_sync_trigger, handle_sync_status, get_params, totp_params,
  refs_params, sign_params,
}

module _ {C : Type 0} (o : Outside C) (id : Option ℕ) where
  answer_with-Reply :
      {A : Type 0} (f : A → Answer) (r : Result SdkError A) → IsReply id (answer_with o id f r)
  unfolding answer_with
  answer_with-Reply f (ok a) = IsReply.answered _
  answer_with-Reply f (err e) = IsReply.refused _

  pub handle_vault_list-Reply :
      (params : Option RequestParams)
      → Ends (IsReply id) (IsReply id) (handle_vault_list o id params)
  unfolding handle_vault_list list_answer
  handle_vault_list-Reply params = Ends-reading_value _ (λ w. answer_with-Reply _ _)

  expected_id-Reply :
      {A : Type 0} (f : A → Task C Response Response)
      → ((a : A) → Ends (IsReply id) (IsReply id) (f a))
      → (given : Option A) → Ends (IsReply id) (IsReply id) (expected_id o id f given)
  unfolding expected_id
  expected_id-Reply f h none = Ends-raise _ (IsReply.refused _)
  expected_id-Reply f h (some a) = h a

  pub handle_vault_get-Reply :
      (params : Option RequestParams)
      → Ends (IsReply id) (IsReply id) (handle_vault_get o id params)
  unfolding handle_vault_get get_answer
  handle_vault_get-Reply params =
      expected_id-Reply (λ p. reading (get_answer o id p))
        (λ p. Ends-reading_value _ (λ w. answer_with-Reply _ _)) (get_params params)

  pub handle_vault_totp-Reply :
      (params : Option RequestParams)
      → Ends (IsReply id) (IsReply id) (handle_vault_totp o id params)
  unfolding handle_vault_totp totp_answer
  handle_vault_totp-Reply params =
      expected_id-Reply (λ item. reading (totp_answer o id item))
        (λ item. Ends-reading_value _ (λ w. answer_with-Reply _ _)) (totp_params params)

  with_sdk-Reply :
      (f : C → Response) (c : Option C)
      → ((sdk : C) → IsReply id (f sdk))
      → IsReply id (with_sdk o id f c)
  unfolding with_sdk
  with_sdk-Reply f none h = IsReply.refused _
  with_sdk-Reply f (some sdk) h = h sdk

  refs_answer-Reply : (refs : List VaultRef) (sdk : C) → IsReply id (refs_answer o id refs sdk)
  unfolding refs_answer
  refs_answer-Reply refs sdk = answer_with-Reply _ _

  resolve_refs_with-Reply :
      (refs : Option (List VaultRef)) → Ends (IsReply id) (IsReply id) (resolve_refs_with o id refs)
  unfolding resolve_refs_with
  resolve_refs_with-Reply none = Ends-raise _ (IsReply.refused _)
  resolve_refs_with-Reply (some refs) =
      Ends-reading_value _
        (λ w. with_sdk-Reply (refs_answer o id refs) w.service.sdk (refs_answer-Reply refs))

  pub handle_resolve_refs-Reply :
      (params : Option RequestParams)
      → Ends (IsReply id) (IsReply id) (handle_resolve_refs o id params)
  unfolding handle_resolve_refs
  handle_resolve_refs-Reply params = resolve_refs_with-Reply (refs_params params)

  keys_answer-Reply : (sdk : C) → IsReply id (keys_answer o id sdk)
  unfolding keys_answer
  keys_answer-Reply sdk = answer_with-Reply _ _

  pub handle_ssh_list_keys-Reply : Ends (IsReply id) (IsReply id) (handle_ssh_list_keys o id)
  unfolding handle_ssh_list_keys
  handle_ssh_list_keys-Reply =
      Ends-reading_value _ (λ w. with_sdk-Reply (keys_answer o id) w.service.sdk keys_answer-Reply)

  sign_answer-Reply : (p : SshSignParams) (sdk : C) → IsReply id (sign_answer o id p sdk)
  unfolding sign_answer
  sign_answer-Reply p sdk = answer_with-Reply _ _

  sign_with-Reply : (p : Option SshSignParams) → Ends (IsReply id) (IsReply id) (sign_with o id p)
  unfolding sign_with
  sign_with-Reply none = Ends-raise _ (IsReply.refused _)
  sign_with-Reply (some p) =
      Ends-reading_value _
        (λ w. with_sdk-Reply (sign_answer o id p) w.service.sdk (sign_answer-Reply p))

  pub handle_ssh_sign-Reply :
      (params : Option RequestParams) → Ends (IsReply id) (IsReply id) (handle_ssh_sign o id params)
  unfolding handle_ssh_sign
  handle_ssh_sign-Reply params = sign_with-Reply (sign_params params)

  abbrev LeavesReply : Result Response (Result SdkError (List Value)) → Type 0
  LeavesReply r = Outcome (IsReply id) Anything r

  sync_client-Reply :
      (c : Option C) (url : Option Text) (w : World C) → LeavesReply (sync_client o id c url w).0
  unfolding sync_client
  sync_client-Reply (some sdk) (some url) w = tt
  sync_client-Reply (some sdk) none w = IsReply.refused _
  sync_client-Reply none url w = IsReply.refused _

  sync_reading-Reply : (w : World C) → LeavesReply (sync_reading o id w).0
  unfolding sync_reading
  sync_reading-Reply w = elim (Bool-cases (not (is_unlocked w.service.vault_state))) [
    | inl shut ↦ rw shut (IsReply.refused _)
    | inr free ↦ rw free (sync_client-Reply _ _ w)
  ]

  sync_answer-Reply :
      (r : Result Response (Result SdkError (List Value)))
      → LeavesReply r
      → Ends (IsReply id) (IsReply id) (sync_answer o id r)
  unfolding sync_answer
  sync_answer-Reply (err response) left = Ends-raise response left
  sync_answer-Reply (ok (ok ciphers)) left = search reply_rules depth 10
  sync_answer-Reply (ok (err e)) left = Ends-raise _ (IsReply.refused _)

  pub handle_sync_trigger-Reply : Ends (IsReply id) (IsReply id) (handle_sync_trigger o id)
  unfolding handle_sync_trigger
  handle_sync_trigger-Reply =
      Ends-bind_value {W = LeavesReply} (critical (sync_reading o id)) (sync_answer o id)
        (Ends-critical_value _ sync_reading-Reply) sync_answer-Reply

  pub handle_sync_status-Reply : Ends (IsReply id) (IsReply id) (handle_sync_status o id)
  unfolding handle_sync_status
  handle_sync_status-Reply = Ends-reading_value _ (λ w. IsReply.answered _)

totp_params-none :
    (p : Option RequestParams)
    → ((item : Text) → p ≢ some (RequestParams.vault_totp item))
    → totp_params p ≡ none
unfolding totp_params
totp_params-none none h = refl
totp_params-none (some (RequestParams.login p)) h = refl
totp_params-none (some (RequestParams.unlock p)) h = refl
totp_params-none (some (RequestParams.set_pin p)) h = refl
totp_params-none (some (RequestParams.vault_list p)) h = refl
totp_params-none (some (RequestParams.vault_get p)) h = refl
totp_params-none (some (RequestParams.vault_totp item)) h = absurd (h item refl)
totp_params-none (some (RequestParams.resolve_refs p)) h = refl
totp_params-none (some (RequestParams.ssh_sign p)) h = refl
totp_params-none (some RequestParams.empty) h = refl

module _ {C : Type 0} (o : Outside C) where
  -- Whatever parameters a client sends, the handler of `vault.totp` answers with the error for
  -- invalid parameters and does nothing: the deserialization takes the item for one of `vault.get`.
  pub handle_vault_totp-sent :
      (id : Option ℕ) (sent : Value) (s : Sys C)
      → handle_vault_totp o id (deserialize_params sent) s
        ≡ (err (failure id (invalid_params (text "Expected {id}"))), s)
  unfolding handle_vault_totp expected_id raise
  handle_vault_totp-sent id sent s =
      rw (totp_params-none (deserialize_params sent) (deserialize_params-ne-vault_totp sent))
