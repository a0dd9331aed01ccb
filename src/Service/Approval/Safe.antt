-- ===== src/Service/Approval/Safe.antt =====
-- approval.rs: the approval flow keeps the invariant of `ServiceState`, whatever the other tasks do.
use bitsafe.Prelude.{ℕ, Bool, true, false, Option, none, some, if◌then◌else◌, arith}
use bitsafe.Prelude.Texts.{Text, text}
use bitsafe.Sdk.{SdkError}
use bitsafe.Prelude.Results.{Result, ok, err}
use bitsafe.Sdk.Act.{pure, raise, ◌>>=◌}
use bitsafe.Sdk.Act.Keeps.{Keeps, Keeps-pure, Keeps-if, Keeps-bind}
use bitsafe.Service.Prompt.{PromptMethod, is_terminal, prompt_biometric, prompt_password}
use bitsafe.Service.World.{World, Outside}
use bitsafe.Service.State.{verify_pin, lock, pin_attempts_exceeded}
use bitsafe.Service.State.Consistent.{IsConsistent, lock-IsConsistent}
use bitsafe.Service.Unlock.{verify_password}
use bitsafe.Service.Unlock.Consistent.{verify_password-IsConsistent}
use bitsafe.Service.Task.{critical}
use bitsafe.Service.Task.Safe.{Safe, Safe-critical, safe_rules}
use bitsafe.Service.Approval.{
  resolve_scope_key, grant_scope, grant_approval, granted, lock_anyway, exhausted_first,
  biometric_first, try_pin, with_pin_answer, by_pin, with_password_answer, by_password,
  attempt_approval,
}

module _ {C : Type 0} (o : Outside C) where
  pub resolve_scope_key-IsConsistent :
      (pid : Option ℕ) (w : World C) → IsConsistent w → IsConsistent (resolve_scope_key o pid w).1
  unfolding resolve_scope_key
  resolve_scope_key-IsConsistent none w h = ground arith
  resolve_scope_key-IsConsistent (some pid) w h = h

  pub grant_scope-IsConsistent :
      (key : ℕ) (w : World C) → IsConsistent w → IsConsistent (grant_scope o key w)
  unfolding grant_scope
  grant_scope-IsConsistent key w h = ground arith

  lock_anyway-IsConsistent : (w : World C) → IsConsistent w → IsConsistent (lock_anyway o w)
  unfolding lock_anyway
  lock_anyway-IsConsistent w h = lock-IsConsistent o w h

  try_pin-IsConsistent :
      (pin : Text) (w : World C) → IsConsistent w → IsConsistent (try_pin o pin w).1
  unfolding try_pin verify_pin lock lock_anyway pin_attempts_exceeded
  try_pin-IsConsistent pin w h = ground arith

  granted-Safe : (pid : Option ℕ) → Keeps (Safe IsConsistent) (granted o pid)
  unfolding granted grant_approval
  granted-Safe pid =
      search (safe_rules, resolve_scope_key-IsConsistent, grant_scope-IsConsistent) depth 12

  exhausted_first-Safe : (exceeded : Bool) → Keeps (Safe IsConsistent) (exhausted_first o exceeded)
  unfolding exhausted_first
  exhausted_first-Safe false = Keeps-pure tt
  exhausted_first-Safe true = search (safe_rules, lock_anyway-IsConsistent) depth 12

  biometric_first-Safe :
      (method : PromptMethod) (pid : Option ℕ)
      → Keeps (Safe IsConsistent) (biometric_first o method pid)
  unfolding biometric_first
  biometric_first-Safe method pid =
      Keeps-if (is_terminal method) _ _ (Keeps-pure tt)
        (answered (prompt_biometric o.run method (text "Grimoire: approve vault access")))
    where
      answered :
          (r : Result Text Bool)
          → Keeps
              (Safe IsConsistent)
              (elim r [ ok b ↦ if b then granted o pid >>= raise else pure tt | err e ↦ pure tt ])
      answered (ok b) = search (safe_rules, granted-Safe) depth 12
      answered (err e) = Keeps-pure tt

  with_pin_answer-Safe :
      (pid : Option ℕ) (r : Result Text (Option Text))
      → Keeps (Safe IsConsistent) (with_pin_answer o pid r)
  unfolding with_pin_answer
  with_pin_answer-Safe pid (ok (some pin)) =
      search (safe_rules, try_pin-IsConsistent, granted-Safe) depth 12
  with_pin_answer-Safe pid (ok none) = Keeps-pure false
  with_pin_answer-Safe pid (err e) = Keeps-pure false

  by_pin-Safe :
      (method : PromptMethod) (pid : Option ℕ) → Keeps (Safe IsConsistent) (by_pin o method pid)
  unfolding by_pin
  by_pin-Safe method pid = search (safe_rules, with_pin_answer-Safe) depth 12

  verified-Safe :
      (pid : Option ℕ) (r : Result SdkError (Unit {0}))
      → Keeps (Safe IsConsistent) (elim r [ ok _ ↦ granted o pid | err e ↦ pure false ])
  verified-Safe pid (ok _) = granted-Safe pid
  verified-Safe pid (err e) = Keeps-pure false

  with_password_answer-Safe :
      (pid : Option ℕ) (r : Result Text (Option Text))
      → Keeps (Safe IsConsistent) (with_password_answer o pid r)
  unfolding with_password_answer
  with_password_answer-Safe pid (ok (some password)) =
      Keeps-bind (critical (verify_password o password)) _
        (Safe-critical (verify_password o password) (verify_password-IsConsistent o password))
        (verified-Safe pid)
  with_password_answer-Safe pid (ok none) = Keeps-pure false
  with_password_answer-Safe pid (err e) = Keeps-pure false

  by_password-Safe :
      (method : PromptMethod) (pid : Option ℕ)
      → Keeps (Safe IsConsistent) (by_password o method pid)
  unfolding by_password
  by_password-Safe method pid = with_password_answer-Safe pid (prompt_password o.run method)

  pub attempt_approval-Safe :
      (method : PromptMethod) (pid : Option ℕ)
      → Keeps (Safe IsConsistent) (attempt_approval o method pid)
  unfolding attempt_approval
  attempt_approval-Safe method pid =
      search (safe_rules, exhausted_first-Safe, biometric_first-Safe, by_pin-Safe, by_password-Safe)
        depth 20
