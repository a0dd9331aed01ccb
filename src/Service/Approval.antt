-- ===== src/Service/Approval.antt =====
-- crates/grimoire-service/src/approval.rs, and `resolve_scope_key` of session.rs.
pub mod Safe
pub mod Pins
pub mod Scope
pub mod Denied
use bitsafe.Prelude.{
  ℕ, ◌+◌, ◌*◌, ◌-◌, ◌%◌, ◌^◌, Bool, true, false, not, Option, none, some, if◌then◌else◌,
}
use bitsafe.Prelude.Texts.{Text, text}
use bitsafe.Prelude.Results.{Result, ok, err}
use bitsafe.Sdk.Act.{pure, raise, ◌>>=◌, ◌>>◌}
use bitsafe.Service.Prompt.{
  PromptMethod, is_terminal, prompt_biometric, prompt_pin, prompt_password,
}
use bitsafe.Service.World.{
  Session, ServiceState, World, Outside, second, approval_seconds, pin_max_attempts,
}
use bitsafe.Service.Approvals.{grant}
use bitsafe.Service.State.{pin_set, pin_attempts_exceeded, verify_pin, lock}
use bitsafe.Service.Unlock.{verify_password}
use bitsafe.Service.Task.{Sys, Task, critical, reading, writing, call, return_if}

module _ {C : Type 0} (o : Outside C) where
  -- `fetch_sub(1)` on the u32 counter, whose value before is the key.
  fresh_scope : World C → ℕ × World C
  fresh_scope w =
      (w.unknown_scope, record w { unknown_scope = (w.unknown_scope + (2 ^ 32 - 1)) % 2 ^ 32 })

  scope_of_pid : ℕ → Option ℕ → ℕ
  scope_of_pid pid none = pid
  scope_of_pid pid (some leader) = leader

  unfoldable pub resolve_scope_key : Option ℕ → World C → ℕ × World C
  unfolding fresh_scope scope_of_pid
  resolve_scope_key none w = fresh_scope w
  resolve_scope_key (some pid) w = (scope_of_pid pid (o.session_leader pid), w)

  -- `approval_cache.grant` for `APPROVAL_SECONDS`.
  unfoldable pub grant_scope : ℕ → World C → World C
  grant_scope scope_key w = record w {
    service = record w.service {
      approval_cache = grant w.now scope_key (approval_seconds * second) w.service.approval_cache;
    };
  }

  pub grant_approval : {E : Type 0} → Option ℕ → Task C E (Unit {0})
  grant_approval peer_pid = do
    scope_key ← critical (resolve_scope_key peer_pid)
    writing (grant_scope scope_key)

  granted : Option ℕ → Task C Bool Bool
  unfolding grant_approval
  granted peer_pid = do grant_approval peer_pid; pure true

  -- `let _ = s.lock().await`
  unfoldable pub lock_anyway : World C → World C
  lock_anyway w = (lock o w).1

  exhausted_first : Bool → Task C Bool (Unit {0})
  unfolding lock_anyway
  exhausted_first false = pure tt
  exhausted_first true = do writing lock_anyway; raise false

  biometric_first : PromptMethod → Option ℕ → Task C Bool (Unit {0})
  unfolding granted
  biometric_first method peer_pid =
      if is_terminal method
      then pure tt
      else elim (prompt_biometric o.run method (text "Grimoire: approve vault access")) [
        | ok b ↦ if b then granted peer_pid >>= raise else pure tt
        | err e ↦ pure tt
      ]

  -- The attempts of a session are a u32, and below the limit here.
  next_attempt : World C → ℕ
  next_attempt w = elim w.service.session [ none ↦ 1 | some s ↦ s.pin_attempts + 1 ]

  lock_if_exceeded : World C → World C
  unfolding lock_anyway
  lock_if_exceeded w = if pin_attempts_exceeded w then lock_anyway w else w

  -- What one critical section does with a PIN.
  unfoldable pub try_pin : Text → World C → Bool × World C
  unfolding lock_if_exceeded
  try_pin pin w =
      let (right, w') = verify_pin pin w in (right, if right then w' else lock_if_exceeded w')

  with_pin_answer : Option ℕ → Result Text (Option Text) → Task C Bool Bool
  unfolding granted try_pin
  with_pin_answer peer_pid (ok (some pin)) = do
    right ← critical (try_pin pin)
    if right then granted peer_pid else pure false
  with_pin_answer peer_pid _ = pure false

  by_pin : PromptMethod → Option ℕ → Task C Bool Bool
  unfolding with_pin_answer next_attempt
  by_pin method peer_pid = do
    attempt ← reading next_attempt
    with_pin_answer peer_pid (prompt_pin o.run method attempt pin_max_attempts)

  with_password_answer : Option ℕ → Result Text (Option Text) → Task C Bool Bool
  unfolding granted
  with_password_answer peer_pid (ok (some password)) = do
    verified ← critical (verify_password o password)
    elim verified [ ok _ ↦ granted peer_pid | err e ↦ pure false ]
  with_password_answer peer_pid _ = pure false

  by_password : PromptMethod → Option ℕ → Task C Bool Bool
  unfolding with_password_answer
  by_password method peer_pid = with_password_answer peer_pid (prompt_password o.run method)

  pub attempt_approval : PromptMethod → Option ℕ → Task C Bool Bool
  unfolding exhausted_first biometric_first by_pin by_password
  attempt_approval method peer_pid = do
    exceeded ← reading pin_attempts_exceeded
    exhausted_first exceeded
    biometric_first method peer_pid
    has_pin ← reading pin_set
    if has_pin then by_pin method peer_pid else by_password method peer_pid
