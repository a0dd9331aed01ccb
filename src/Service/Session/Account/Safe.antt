-- ===== src/Service/Session/Account/Safe.antt =====
-- session.rs: the `auth.*` handlers keep the invariant of `ServiceState`, whatever the other tasks do.
use bitsafe.Prelude.{ℕ, Option, none, some, arith}
use bitsafe.Prelude.Texts.{Text}
use bitsafe.Prelude.Results.{Result, ok, err}
use bitsafe.Sdk.{SdkError}
use bitsafe.Protocol.Request.{RequestParams, LoginParams}
use bitsafe.Protocol.Response.{Response}
use bitsafe.Sdk.Act.Keeps.{Keeps, Keeps-pure, Keeps-raise}
use bitsafe.Service.World.{World, Outside}
use bitsafe.Service.State.{lock}
use bitsafe.Service.State.Consistent.{
  IsConsistent, logout-IsConsistent, login-IsConsistent, set_pin-IsConsistent,
  record_password_failure-IsConsistent, reset_password_attempts-IsConsistent,
}
use bitsafe.Service.Unlock.Consistent.{unlock-IsConsistent, verify_password-IsConsistent}
use bitsafe.Service.Task.Safe.{Safe, Safe-critical, Safe-reading, Safe-writing, safe_rules}
use bitsafe.Service.Approval.Safe.{resolve_scope_key-IsConsistent, grant_scope-IsConsistent}
use bitsafe.Service.Session.Account.{
  password_or_return, obtain_password, answer_attempt, login_locked, or_return, login_with,
  handle_login, handle_status, enforce_backoff, grant_here, unlock_locked, spawn_sync,
  handle_unlock, lock_locked, handle_lock, logout_locked, handle_logout, set_pin_locked,
  set_pin_with, handle_set_pin, authorize_locked, record_verified, authorize_unlocked,
  authorize_with, handle_authorize, login_params, set_pin_params, unlock_password,
}

module _ {C : Type 0} (o : Outside C) (id : Option ℕ) where
  password_or_return-Safe :
      (cancelled : Text) (r : Result Text (Option Text))
      → Keeps (Safe (IsConsistent {C = C})) (password_or_return id cancelled r)
  unfolding password_or_return
  password_or_return-Safe cancelled (ok (some password)) = Keeps-pure password
  password_or_return-Safe cancelled (ok none) = Keeps-raise _
  password_or_return-Safe cancelled (err e) = Keeps-raise _

  obtain_password-Safe :
      (cancelled : Text) (given : Option Text)
      → Keeps (Safe IsConsistent) (obtain_password o id cancelled given)
  unfolding obtain_password
  obtain_password-Safe cancelled (some password) = Keeps-pure password
  obtain_password-Safe cancelled none = search (safe_rules, password_or_return-Safe) depth 20

  answer_attempt-IsConsistent :
      (f : World C → World C)
      → ((w : World C) → IsConsistent w → IsConsistent (f w))
      → (r : Result SdkError (Unit {0})) (w : World C) → IsConsistent w
      → IsConsistent (answer_attempt o id f r w).1
  unfolding answer_attempt
  answer_attempt-IsConsistent f hf (ok _) w h = hf _ (reset_password_attempts-IsConsistent o w h)
  answer_attempt-IsConsistent f hf (err (SdkError.auth_failed m)) w h =
      record_password_failure-IsConsistent o w h
  answer_attempt-IsConsistent f hf (err SdkError.vault_locked) w h = h
  answer_attempt-IsConsistent f hf (err SdkError.not_logged_in) w h = h
  answer_attempt-IsConsistent f hf (err (SdkError.sync_failed m)) w h = h
  answer_attempt-IsConsistent f hf (err SdkError.auth_revoked) w h = h
  answer_attempt-IsConsistent f hf (err (SdkError.not_found m)) w h = h
  answer_attempt-IsConsistent f hf (err (SdkError.internal m)) w h = h

  login_locked-IsConsistent :
      (p : LoginParams) (password : Text) (w : World C)
      → IsConsistent w
      → IsConsistent (login_locked o id p password w).1
  unfolding login_locked
  login_locked-IsConsistent p password w h =
      answer_attempt-IsConsistent (λ v. v) (λ v k. k) _ _
        (login-IsConsistent o p.email password p.server_url w h)

  or_return-Safe :
      (r : Result Response (Unit {0})) → Keeps (Safe (IsConsistent {C = C})) (or_return o id r)
  unfolding or_return
  or_return-Safe (ok _) = Keeps-pure tt
  or_return-Safe (err response) = Keeps-raise response

  login_with-Safe : (p : Option LoginParams) → Keeps (Safe IsConsistent) (login_with o id p)
  unfolding login_with enforce_backoff
  login_with-Safe none = Keeps-raise _
  login_with-Safe (some p) =
      search (safe_rules, obtain_password-Safe, login_locked-IsConsistent, or_return-Safe) depth 30

  pub grant_here-IsConsistent :
      (pid : Option ℕ) (w : World C) → IsConsistent w → IsConsistent (grant_here o id pid w)
  unfolding grant_here
  grant_here-IsConsistent pid w h =
      grant_scope-IsConsistent o _ _ (resolve_scope_key-IsConsistent o pid w h)

  unlock_locked-IsConsistent :
      (f : World C → World C)
      → ((w : World C) → IsConsistent w → IsConsistent (f w))
      → (password : Text) (w : World C) → IsConsistent w
      → IsConsistent (unlock_locked o id f password w).1
  unfolding unlock_locked
  unlock_locked-IsConsistent f hf password w h =
      answer_attempt-IsConsistent f hf _ _ (unlock-IsConsistent o password w h)

  pub spawn_sync-IsConsistent : (w : World C) → IsConsistent w → IsConsistent (spawn_sync o id w)
  unfolding spawn_sync
  spawn_sync-IsConsistent w h = ground arith

  pub handle_unlock-Safe :
      (params : Option RequestParams) (pid : Option ℕ)
      → Keeps (Safe IsConsistent) (handle_unlock o id params pid)
  unfolding handle_unlock enforce_backoff
  handle_unlock-Safe params pid =
      search
        (
          safe_rules, obtain_password-Safe, unlock_locked-IsConsistent, grant_here-IsConsistent,
          or_return-Safe, spawn_sync-IsConsistent,
        )
        depth 30

  pub handle_status-Safe : Keeps (Safe (IsConsistent {C = C})) (handle_status id)
  unfolding handle_status
  handle_status-Safe = Safe-reading _

  pub handle_login-Safe :
      (params : Option RequestParams) → Keeps (Safe IsConsistent) (handle_login o id params)
  unfolding handle_login
  handle_login-Safe params = login_with-Safe (login_params params)

  lock_locked-IsConsistent : (w : World C) → IsConsistent w → IsConsistent (lock_locked o id w).1
  unfolding lock_locked lock
  lock_locked-IsConsistent w h = ground arith

  pub handle_lock-Safe : Keeps (Safe IsConsistent) (handle_lock o id)
  unfolding handle_lock
  handle_lock-Safe = Safe-critical _ lock_locked-IsConsistent

  logout_locked-IsConsistent :
      (w : World C) → IsConsistent w → IsConsistent (logout_locked o id w).1
  unfolding logout_locked
  logout_locked-IsConsistent w h = logout-IsConsistent o w h

  pub handle_logout-Safe : Keeps (Safe IsConsistent) (handle_logout o id)
  unfolding handle_logout
  handle_logout-Safe = Safe-critical _ logout_locked-IsConsistent

  set_pin_locked-IsConsistent :
      (pin : Text) (w : World C) → IsConsistent w → IsConsistent (set_pin_locked o id pin w).1
  unfolding set_pin_locked
  set_pin_locked-IsConsistent pin w h = set_pin-IsConsistent pin w h

  set_pin_with-Safe : (pin : Option Text) → Keeps (Safe IsConsistent) (set_pin_with o id pin)
  unfolding set_pin_with
  set_pin_with-Safe none = Keeps-raise _
  set_pin_with-Safe (some pin) = Safe-critical _ (set_pin_locked-IsConsistent pin)

  pub handle_set_pin-Safe :
      (params : Option RequestParams) → Keeps (Safe IsConsistent) (handle_set_pin o id params)
  unfolding handle_set_pin
  handle_set_pin-Safe params = set_pin_with-Safe (set_pin_params params)

  same : (w : World C) → IsConsistent w → IsConsistent w
  same w h = h

  authorize_locked-Safe :
      (password : Text) → Keeps (Safe IsConsistent) (authorize_locked o id password)
  unfolding authorize_locked
  authorize_locked-Safe password =
      search (safe_rules, unlock_locked-IsConsistent, same, or_return-Safe, spawn_sync-IsConsistent)
        depth 20

  record_verified-Safe :
      (r : Result SdkError (Unit {0})) → Keeps (Safe IsConsistent) (record_verified o id r)
  unfolding record_verified
  record_verified-Safe (ok _) = Safe-writing _ (reset_password_attempts-IsConsistent o)
  record_verified-Safe (err (SdkError.auth_failed m)) =
      search (safe_rules, record_password_failure-IsConsistent) depth 10
  record_verified-Safe (err SdkError.vault_locked) = Keeps-raise _
  record_verified-Safe (err SdkError.not_logged_in) = Keeps-raise _
  record_verified-Safe (err (SdkError.sync_failed m)) = Keeps-raise _
  record_verified-Safe (err SdkError.auth_revoked) = Keeps-raise _
  record_verified-Safe (err (SdkError.not_found m)) = Keeps-raise _
  record_verified-Safe (err (SdkError.internal m)) = Keeps-raise _

  authorize_unlocked-Safe :
      (password : Text) → Keeps (Safe IsConsistent) (authorize_unlocked o id password)
  unfolding authorize_unlocked
  authorize_unlocked-Safe password =
      search (safe_rules, verify_password-IsConsistent, record_verified-Safe) depth 12

  authorize_with-Safe :
      (pid : Option ℕ) (password : Option Text)
      → Keeps (Safe IsConsistent) (authorize_with o id pid password)
  unfolding authorize_with
  authorize_with-Safe pid none = Keeps-raise _
  authorize_with-Safe pid (some password) =
      search
        (
          safe_rules, or_return-Safe, authorize_locked-Safe, authorize_unlocked-Safe,
          grant_here-IsConsistent,
        )
        depth 20

  pub handle_authorize-Safe :
      (params : Option RequestParams) (pid : Option ℕ)
      → Keeps (Safe IsConsistent) (handle_authorize o id params pid)
  unfolding handle_authorize
  handle_authorize-Safe params pid = authorize_with-Safe pid (unlock_password params)
