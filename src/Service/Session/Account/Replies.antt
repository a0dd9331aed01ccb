-- ===== src/Service/Session/Account/Replies.antt =====
-- session.rs: the `auth.*` handlers reply to the request that they serve.
use bitsafe.Prelude.{ℕ, ltb, not, Bool-cases, inl, inr, Option, none, some}
use bitsafe.Prelude.Texts.{Text}
use bitsafe.Prelude.Results.{Result, ok, err}
use bitsafe.Sdk.{SdkError}
use bitsafe.Protocol.Request.{RequestParams, LoginParams}
use bitsafe.Protocol.Response.{Response}
use bitsafe.Sdk.Act.{◌>>=◌}
use bitsafe.Sdk.Act.Ends.{
  Outcome, Anything, Ends, Ends-pure, Ends-raise, Ends-bind, Ends-bind_value,
}
use bitsafe.Service.World.{World, Outside, is_unlocked, is_logged_out}
use bitsafe.Service.State.{master_password_backoff_remaining}
use bitsafe.Service.Task.{Task, critical, reading, writing}
use bitsafe.Service.Task.Replies.{
  IsReply, Ends-critical_value, Ends-reading_value, Ends-writing, reply_rules,
}
use bitsafe.Service.Session.Account.{
  password_or_return, obtain_password, answer_attempt, login_locked, or_return, login_with,
  handle_login, handle_status, enforce_backoff, unlock_locked, spawn_sync, handle_unlock,
  lock_locked, handle_lock, logout_locked, handle_logout, set_pin_locked, set_pin_with,
  handle_set_pin, may_authorize, authorize_locked, record_verified, authorize_unlocked,
  authorize_with, handle_authorize, login_params, set_pin_params, unlock_password, answer_of,
}

module _ {C : Type 0} (o : Outside C) (id : Option ℕ) where
  enforce_backoff-Reply : Ends (IsReply id) Anything (enforce_backoff {C = C} id)
  unfolding enforce_backoff
  enforce_backoff-Reply = search reply_rules depth 12

  password_or_return-Reply :
      (cancelled : Text) (r : Result Text (Option Text))
      → Ends (IsReply id) Anything (password_or_return {C = C} id cancelled r)
  unfolding password_or_return
  password_or_return-Reply cancelled (ok (some password)) = Ends-pure password tt
  password_or_return-Reply cancelled (ok none) = Ends-raise _ (IsReply.refused _)
  password_or_return-Reply cancelled (err e) = Ends-raise _ (IsReply.refused _)

  obtain_password-Reply :
      (cancelled : Text) (given : Option Text)
      → Ends (IsReply id) Anything (obtain_password o id cancelled given)
  unfolding obtain_password
  obtain_password-Reply cancelled (some password) = Ends-pure password tt
  obtain_password-Reply cancelled none = search (reply_rules, password_or_return-Reply) depth 12

  abbrev LeavesReply : Result Response (Unit {0}) → Type 0
  LeavesReply r = Outcome (IsReply id) Anything r

  answer_attempt-Reply :
      (f : World C → World C) (r : Result SdkError (Unit {0})) (w : World C)
      → LeavesReply (answer_attempt o id f r w).0
  unfolding answer_attempt
  answer_attempt-Reply f (ok _) w = tt
  answer_attempt-Reply f (err (SdkError.auth_failed m)) w = IsReply.refused _
  answer_attempt-Reply f (err SdkError.vault_locked) w = IsReply.refused _
  answer_attempt-Reply f (err SdkError.not_logged_in) w = IsReply.refused _
  answer_attempt-Reply f (err (SdkError.sync_failed m)) w = IsReply.refused _
  answer_attempt-Reply f (err SdkError.auth_revoked) w = IsReply.refused _
  answer_attempt-Reply f (err (SdkError.not_found m)) w = IsReply.refused _
  answer_attempt-Reply f (err (SdkError.internal m)) w = IsReply.refused _

  or_return-Reply :
      (r : Result Response (Unit {0}))
      → LeavesReply r
      → Ends (IsReply id) Anything (or_return o id r)
  unfolding or_return
  or_return-Reply (ok _) h = Ends-pure tt tt
  or_return-Reply (err response) h = Ends-raise response h

  -- A critical section whose early return is returned behind it.
  attempted-Reply :
      (f : World C → Result Response (Unit {0}) × World C) (rest : Task C Response Response)
      → ((w : World C) → LeavesReply (f w).0)
      → Ends (IsReply id) (IsReply id) rest
      → Ends (IsReply id) (IsReply id) (critical f >>= λ r. or_return o id r >>= λ _. rest)
  attempted-Reply f rest h hr =
      Ends-bind_value {W = LeavesReply} (critical f) (λ r. or_return o id r >>= λ _. rest)
        (Ends-critical_value f h)
        (λ r left. Ends-bind (or_return o id r) (λ _. rest) (or_return-Reply r left) (λ _. hr))

  login_locked-Reply :
      (p : LoginParams) (password : Text) (w : World C)
      → LeavesReply (login_locked o id p password w).0
  unfolding login_locked
  login_locked-Reply p password w = answer_attempt-Reply (λ v. v) _ _

  unlock_locked-Reply :
      (f : World C → World C) (password : Text) (w : World C)
      → LeavesReply (unlock_locked o id f password w).0
  unfolding unlock_locked
  unlock_locked-Reply f password w = answer_attempt-Reply f _ _

  login_with-Reply : (p : Option LoginParams) → Ends (IsReply id) (IsReply id) (login_with o id p)
  unfolding login_with
  login_with-Reply none = Ends-raise _ (IsReply.refused _)
  login_with-Reply (some p) =
      search
        (
          enforce_backoff-Reply, obtain_password-Reply, attempted-Reply, login_locked-Reply,
          Ends-bind, Ends-pure, IsReply.answered,
        )
        depth 20

  pub handle_login-Reply :
      (params : Option RequestParams) → Ends (IsReply id) (IsReply id) (handle_login o id params)
  unfolding handle_login
  handle_login-Reply params = login_with-Reply (login_params params)

  pub handle_unlock-Reply :
      (params : Option RequestParams) (pid : Option ℕ)
      → Ends (IsReply id) (IsReply id) (handle_unlock o id params pid)
  unfolding handle_unlock
  handle_unlock-Reply params pid =
      search
        (
          enforce_backoff-Reply, obtain_password-Reply, attempted-Reply, unlock_locked-Reply,
          Ends-writing, Ends-bind, Ends-pure, IsReply.answered,
        )
        depth 20

  pub handle_status-Reply : Ends (IsReply id) (IsReply id) (handle_status {C = C} id)
  unfolding handle_status
  handle_status-Reply = Ends-reading_value _ (λ w. IsReply.answered _)

  answer_of-Reply : (r : Result SdkError (Unit {0})) → IsReply id (answer_of o id r)
  unfolding answer_of
  answer_of-Reply (ok _) = IsReply.answered _
  answer_of-Reply (err e) = IsReply.refused _

  lock_locked-Reply : (w : World C) → IsReply id (lock_locked o id w).0
  unfolding lock_locked
  lock_locked-Reply w = elim (Bool-cases (not (is_unlocked w.service.vault_state))) [
    | inl idle ↦ rw idle (IsReply.answered _)
    | inr busy ↦ rw busy (answer_of-Reply _)
  ]

  pub handle_lock-Reply : Ends (IsReply id) (IsReply id) (handle_lock o id)
  unfolding handle_lock
  handle_lock-Reply = Ends-critical_value _ lock_locked-Reply

  pub handle_logout-Reply : Ends (IsReply id) (IsReply id) (handle_logout o id)
  unfolding handle_logout logout_locked
  handle_logout-Reply = Ends-critical_value _ (λ w. answer_of-Reply _)

  set_pin_with-Reply : (pin : Option Text) → Ends (IsReply id) (IsReply id) (set_pin_with o id pin)
  unfolding set_pin_with set_pin_locked
  set_pin_with-Reply none = Ends-raise _ (IsReply.refused _)
  set_pin_with-Reply (some pin) = Ends-critical_value _ (λ w. answer_of-Reply _)

  pub handle_set_pin-Reply :
      (params : Option RequestParams) → Ends (IsReply id) (IsReply id) (handle_set_pin o id params)
  unfolding handle_set_pin
  handle_set_pin-Reply params = set_pin_with-Reply (set_pin_params params)

  -- The same, where what runs under the lock is a sequence of its own.
  authorize_locked-Reply :
      (password : Text) → Ends (IsReply id) Anything (authorize_locked o id password)
  unfolding authorize_locked
  authorize_locked-Reply password =
      Ends-bind_value {W = LeavesReply} (critical (unlock_locked o id (λ w. w) password)) _
        (Ends-critical_value _ (unlock_locked-Reply (λ w. w) password))
        (λ r left.
          Ends-bind (or_return o id r) (λ _. writing (spawn_sync o id)) (or_return-Reply r left)
            (λ _. Ends-writing (spawn_sync o id)))

  record_verified-Reply :
      (r : Result SdkError (Unit {0})) → Ends (IsReply id) Anything (record_verified o id r)
  unfolding record_verified
  record_verified-Reply (ok _) = Ends-writing _
  record_verified-Reply (err (SdkError.auth_failed m)) = search reply_rules depth 10
  record_verified-Reply (err SdkError.vault_locked) = Ends-raise _ (IsReply.refused _)
  record_verified-Reply (err SdkError.not_logged_in) = Ends-raise _ (IsReply.refused _)
  record_verified-Reply (err (SdkError.sync_failed m)) = Ends-raise _ (IsReply.refused _)
  record_verified-Reply (err SdkError.auth_revoked) = Ends-raise _ (IsReply.refused _)
  record_verified-Reply (err (SdkError.not_found m)) = Ends-raise _ (IsReply.refused _)
  record_verified-Reply (err (SdkError.internal m)) = Ends-raise _ (IsReply.refused _)

  authorize_unlocked-Reply :
      (password : Text) → Ends (IsReply id) Anything (authorize_unlocked o id password)
  unfolding authorize_unlocked
  authorize_unlocked-Reply password = search (reply_rules, record_verified-Reply) depth 10

  may_authorize-Reply : (w : World C) → LeavesReply (may_authorize o id w)
  unfolding may_authorize
  may_authorize-Reply w = elim (Bool-cases (is_logged_out w.service.vault_state)) [
    | inl out ↦ rw out (IsReply.refused _)
    | inr in_account ↦
        rw in_account (elim (Bool-cases (ltb 0 (master_password_backoff_remaining w))) [
          | inl wait ↦ rw wait (IsReply.refused _)
          | inr free ↦ rw free tt
        ])
  ]

  authorize_with-Reply :
      (pid : Option ℕ) (password : Option Text)
      → Ends (IsReply id) (IsReply id) (authorize_with o id pid password)
  unfolding authorize_with
  authorize_with-Reply pid none = Ends-raise _ (IsReply.refused _)
  authorize_with-Reply pid (some password) =
      Ends-bind_value {W = LeavesReply} (reading (may_authorize o id)) _
        (Ends-reading_value _ may_authorize-Reply)
        (λ r left.
          Ends-bind (or_return o id r) _ (or_return-Reply r left)
            (λ _. search (reply_rules, authorize_locked-Reply, authorize_unlocked-Reply) depth 20))

  pub handle_authorize-Reply :
      (params : Option RequestParams) (pid : Option ℕ)
      → Ends (IsReply id) (IsReply id) (handle_authorize o id params pid)
  unfolding handle_authorize
  handle_authorize-Reply params pid = authorize_with-Reply pid (unlock_password params)
