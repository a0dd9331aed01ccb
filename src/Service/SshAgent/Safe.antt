-- ===== src/Service/SshAgent/Safe.antt =====
-- ssh_agent.rs: the agent keeps the invariant of `ServiceState`, whatever the other tasks do.
use bitsafe.Prelude.{ℕ, Bool, true, false, Option, none, some}
use bitsafe.Prelude.Texts.{Text}
use bitsafe.Prelude.Results.{Result, ok, err}
use bitsafe.Sdk.{SdkError}
use bitsafe.Sdk.Act.Keeps.{Keeps, Keeps-pure}
use bitsafe.Service.World.{World, Outside}
use bitsafe.Service.State.Consistent.{
  IsConsistent, record_password_failure-IsConsistent, reset_password_attempts-IsConsistent,
}
use bitsafe.Service.Unlock.Consistent.{unlock-IsConsistent}
use bitsafe.Service.Task.{Sys}
use bitsafe.Service.Task.Safe.{Safe, safe_rules}
use bitsafe.Service.Approval.Safe.{resolve_scope_key-IsConsistent, attempt_approval-Safe}
use bitsafe.Service.Session.Account.Safe.{grant_here-IsConsistent, spawn_sync-IsConsistent}
use bitsafe.Service.SshAgent.{
  SshAgentSession, SignRequest, unlock_or_count, unlock_locked, unlock_with, attempt_unlock,
  check_approval, unlock_first, unlock_or_return, ensure_unlocked, request_identities, sign,
}
use bitsafe.Service.SshAgent.Signature.{SshLibrary}

module _ {C : Type 0} (o : Outside C) where
  unlock_or_count-IsConsistent :
      (pid : Option ℕ) (r : Result SdkError (Unit {0})) (w : World C)
      → IsConsistent w
      → IsConsistent (unlock_or_count o pid r w).1
  unfolding unlock_or_count
  unlock_or_count-IsConsistent pid (ok _) w h =
      grant_here-IsConsistent o none pid _ (reset_password_attempts-IsConsistent o w h)
  unlock_or_count-IsConsistent pid (err e) w h = record_password_failure-IsConsistent o w h

  unlock_locked-IsConsistent :
      (pid : Option ℕ) (password : Text) (w : World C)
      → IsConsistent w
      → IsConsistent (unlock_locked o pid password w).1
  unfolding unlock_locked
  unlock_locked-IsConsistent pid password w h =
      unlock_or_count-IsConsistent pid _ _ (unlock-IsConsistent o password w h)

  unlock_with-Safe :
      (pid : Option ℕ) (r : Result Text (Option Text))
      → Keeps (Safe IsConsistent) (unlock_with o pid r)
  unfolding unlock_with
  unlock_with-Safe pid (ok (some password)) =
      search (safe_rules, unlock_locked-IsConsistent, spawn_sync-IsConsistent) depth 15
  unlock_with-Safe pid (ok none) = Keeps-pure false
  unlock_with-Safe pid (err e) = Keeps-pure false

  attempt_unlock-Safe : (pid : Option ℕ) → Keeps (Safe IsConsistent) (attempt_unlock o pid)
  unfolding attempt_unlock
  attempt_unlock-Safe pid = search (safe_rules, unlock_with-Safe) depth 15

  check_approval-Safe : (pid : Option ℕ) → Keeps (Safe IsConsistent) (check_approval o pid)
  unfolding check_approval
  check_approval-Safe pid =
      search (safe_rules, resolve_scope_key-IsConsistent, attempt_approval-Safe) depth 15

  unlock_or_return-Safe :
      {A : Type 0} (failed logged_out : A) (pid : Option ℕ) (locked unlocked : Bool)
      → Keeps (Safe IsConsistent) (unlock_or_return o failed logged_out pid locked unlocked)
  unfolding unlock_or_return unlock_first
  unlock_or_return-Safe failed logged_out pid true unlocked =
      search (safe_rules, attempt_unlock-Safe) depth 10
  unlock_or_return-Safe failed logged_out pid false unlocked = search safe_rules depth 10

  ensure_unlocked-Safe :
      {A : Type 0} (failed logged_out : A) (pid : Option ℕ)
      → Keeps (Safe IsConsistent) (ensure_unlocked o failed logged_out pid)
  unfolding ensure_unlocked
  ensure_unlocked-Safe failed logged_out pid = search (safe_rules, unlock_or_return-Safe) depth 10

  request_identities-Safe :
      (a : SshAgentSession) → Keeps (Safe IsConsistent) (request_identities o a)
  unfolding request_identities
  request_identities-Safe a = search (safe_rules, ensure_unlocked-Safe) depth 15

  sign-Safe :
      {Sig : Type 0} (lib : SshLibrary Sig) (a : SshAgentSession) (r : SignRequest)
      → Keeps (Safe IsConsistent) (sign o lib a r)
  unfolding sign
  sign-Safe lib a r = search (safe_rules, ensure_unlocked-Safe, check_approval-Safe) depth 15

  -- Listing the keys and signing over the SSH agent, for any peer, leave the state consistent,
  -- provided that it was and that the other tasks keep it so.
  pub agent-IsConsistent :
      {Sig : Type 0} (lib : SshLibrary Sig) (a : SshAgentSession) (r : SignRequest) (s : Sys C)
      → IsConsistent s.world
      → ((n : ℕ) (w : World C) → IsConsistent w → IsConsistent (s.others n w))
      → IsConsistent (request_identities o a s).1.world × IsConsistent (sign o lib a r s).1.world
  agent-IsConsistent lib a r s h others =
      let safe : Safe IsConsistent s = record { holds = h; kept = others } in
      (((request_identities-Safe a).at s safe).holds, ((sign-Safe lib a r).at s safe).holds)
