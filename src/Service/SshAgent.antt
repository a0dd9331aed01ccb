-- ===== src/Service/SshAgent.antt =====
-- crates/grimoire-service/src/ssh_agent.rs: the SSH agent. `E` is the text of an agent error; the
-- 500 milliseconds that an unlock waits for its sync are time that passes before the next step.
pub mod Signature
pub mod Safe
pub mod Gate
use bitsafe.Prelude.{
  ℕ, Bool, true, false, not, Option, none, some, List, [], ◌∷◌, ltb, if◌then◌else◌,
}
use bitsafe.Prelude.Bytes.{Bytes}
use bitsafe.Prelude.Texts.{Text, text, text_eq}
use bitsafe.Prelude.Results.{Result, ok, err}
use bitsafe.Sdk.{SdkError}
use bitsafe.Sdk.Client.{Client, SshKey}
use bitsafe.Sdk.Act.{pure, raise, lift, ◌>>=◌, ◌>>◌}
use bitsafe.Service.Prompt.{PromptMethod, is_none_method, prompt_password}
use bitsafe.Service.World.{VaultState, ServiceState, World, Outside, is_locked, is_unlocked}
use bitsafe.Service.Approvals.{is_approved}
use bitsafe.Service.State.{
  master_password_backoff_remaining, record_password_failure, reset_password_attempts,
}
use bitsafe.Service.Unlock.{unlock}
use bitsafe.Service.Task.{Sys, Task, critical, reading, writing, call, return_if}
use bitsafe.Service.Approval.{resolve_scope_key, attempt_approval}
use bitsafe.Service.Session.Account.{grant_here, spawn_sync}
use bitsafe.Service.Session.Errors.{sdk_error_display}
use Signature.{SshLibrary, parse_ssh_signature}

pub record SshAgentSession : Type 0 where
  pub peer_pid : Option ℕ
  pub rejected : Bool

-- `new_session`: the credentials of the peer, where the socket gives them, against the user's.
unfoldable pub new_session : ℕ → Option (ℕ × Option ℕ) → SshAgentSession
new_session my_uid none = record { peer_pid = none; rejected = false }
new_session my_uid (some (uid, pid)) = elim (ltb uid my_uid) [
  | true ↦ record { peer_pid = none; rejected = true }
  | false ↦ elim (ltb my_uid uid) [
    | true ↦ record { peer_pid = none; rejected = true }
    | false ↦ record { peer_pid = pid; rejected = false }
  ]
]

pub record Identity : Type 0 where
  pub pubkey : Text
  pub comment : Text

pub record SignRequest : Type 0 where
  pub pubkey : Text
  pub payload : Bytes
  pub flags : ℕ

module _ {C : Type 0} (o : Outside C) where
  -- Under the lock: a failure of any kind counts as a failed password.
  unlock_or_count : Option ℕ → Result SdkError (Unit {0}) → World C → Bool × World C
  unlock_or_count pid (ok _) w = (true, grant_here o none pid (reset_password_attempts o w))
  unlock_or_count pid (err e) w = (false, record_password_failure o w)

  unlock_locked : Option ℕ → Text → World C → Bool × World C
  unfolding unlock_or_count
  unlock_locked pid password w = let (r, w') = unlock o password w in unlock_or_count pid r w'

  unlock_with : Option ℕ → Result Text (Option Text) → Task C Bool Bool
  unfolding unlock_locked
  unlock_with pid (ok (some password)) = do
    unlocked ← critical (unlock_locked pid password)
    return_if (not unlocked) false
    writing (spawn_sync o none)
    pure true
  unlock_with pid (ok none) = pure false
  unlock_with pid (err e) = pure false

  pub attempt_unlock : Option ℕ → Task C Bool Bool
  unfolding unlock_with
  attempt_unlock pid = do
    remaining ← reading master_password_backoff_remaining
    return_if (ltb 0 remaining) false
    method ← reading (λ w. w.service.prompt_method)
    return_if (is_none_method method) false
    unlock_with pid (prompt_password o.run method)

  pub check_approval : Option ℕ → Task C Bool Bool
  check_approval pid = do
    scope_key ← critical (resolve_scope_key o pid)
    already_approved ← reading (λ w. is_approved w.now scope_key w.service.approval_cache)
    return_if already_approved true
    method ← reading (λ w. w.service.prompt_method)
    attempt_approval o method pid

module _ {C A : Type 0} (o : Outside C) where
  unlock_first : A → Option ℕ → Task C A (Unit {0})
  unlock_first failed pid = do
    unlocked ← call (attempt_unlock o pid)
    return_if (not unlocked) failed

  unlock_or_return : A → A → Option ℕ → Bool → Bool → Task C A (Unit {0})
  unfolding unlock_first
  unlock_or_return failed logged_out pid true unlocked = unlock_first failed pid
  unlock_or_return failed logged_out pid false unlocked = return_if (not unlocked) logged_out

  -- A locked vault is unlocked first, and the service must be logged in.
  ensure_unlocked : A → A → Option ℕ → Task C A (Unit {0})
  unfolding unlock_or_return
  ensure_unlocked failed logged_out pid = do
    state ← reading (λ w. w.service.vault_state)
    unlock_or_return failed logged_out pid (is_locked state) (is_unlocked state)

module _ {C : Type 0} (o : Outside C) where
  -- A key that does not parse is left out.
  identities : List SshKey → List Identity
  identities [] = []
  identities (key ∷ keys) =
      let rest = identities keys in
      elim (o.public_key_of key.public_key) [
        | none ↦ rest
        | some pubkey ↦ (record { pubkey = pubkey; comment = key.name }) ∷ rest
      ]

  abbrev Listing : Type 0
  Listing = Result Text (List Identity)

  listed : Result SdkError (List SshKey) → Listing
  unfolding identities
  listed (ok keys) = ok (identities keys)
  listed (err e) = err (sdk_error_display e)

  list_with : Option C → Listing
  unfolding listed
  list_with none = ok []
  list_with (some sdk) = listed (o.client.list_keys sdk)

  pub request_identities : SshAgentSession → Task C Listing Listing
  unfolding list_with ensure_unlocked
  request_identities a = do
    return_if a.rejected (ok [])
    ensure_unlocked o (ok []) (ok []) a.peer_pid
    reading (λ w. list_with w.service.sdk)

  is_key : Text → Option Text → Bool
  is_key pubkey none = false
  is_key pubkey (some other) = text_eq other pubkey

  find_key : Text → List SshKey → Result Text Text
  unfolding is_key
  find_key pubkey [] = err (text "Key not found in vault")
  find_key pubkey (key ∷ keys) =
      let rest = find_key pubkey keys in
      if is_key pubkey (o.public_key_of key.public_key) then ok key.id else rest

  module _ {Sig : Type 0} (lib : SshLibrary Sig) where
    abbrev Signed : Type 0
    Signed = Result Text Sig

    signed_bytes : Result SdkError Bytes → Signed
    signed_bytes (ok bytes) = parse_ssh_signature lib bytes
    signed_bytes (err e) = err (sdk_error_display e)

    sign_key : C → SignRequest → Result Text Text → Signed
    unfolding signed_bytes
    sign_key sdk r (ok key_id) = signed_bytes (o.client.sign sdk key_id r.payload r.flags)
    sign_key sdk r (err e) = err e

    sign_among : C → SignRequest → Result SdkError (List SshKey) → Signed
    unfolding sign_key find_key
    sign_among sdk r (ok keys) = sign_key sdk r (find_key r.pubkey keys)
    sign_among sdk r (err e) = err (sdk_error_display e)

    sign_with : SignRequest → Option C → Signed
    unfolding sign_among
    sign_with r none = err (text "Vault is locked")
    sign_with r (some sdk) = sign_among sdk r (o.client.list_keys sdk)

    pub sign : SshAgentSession → SignRequest → Task C Signed Signed
    unfolding sign_with ensure_unlocked
    sign a r = do
      return_if a.rejected (err (text "Connection rejected"))
      ensure_unlocked o
          (err (text "Vault is locked — unlock failed or unavailable, run `grimoire approve`"))
          (err (text "Not logged in")) a.peer_pid
      approved ← call (check_approval o a.peer_pid)
      return_if (not approved)
          (err (text "Access approval required — run `grimoire approve` or approve via GUI"))
      reading (λ w. sign_with r w.service.sdk)
