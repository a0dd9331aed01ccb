-- ===== src/Service/Session/Account/Backoff.antt =====
-- session.rs: the handlers that take a master password, while the delay runs.
use bitsafe.Prelude.{ℕ, suc, ◌<◌, ◌≡◌, refl, ◌⊎◌, inl, inr, Bool-cases, Option, none, some, lt→ltb}
use bitsafe.Prelude.Texts.{Text, text}
use bitsafe.Prelude.Results.{err}
use bitsafe.Protocol.Request.{RequestParams, LoginParams}
use bitsafe.Protocol.Response.{Response, RpcError, failure, invalid_params, not_logged_in}
use bitsafe.Sdk.Act.{raise, ◌>>=◌}
use bitsafe.Service.World.{Outside, is_logged_out}
use bitsafe.Service.State.{master_password_backoff_remaining}
use bitsafe.Service.Task.{Sys, Task, critical, reading, return_if}
use bitsafe.Service.Session.Errors.{too_many_attempts}
use bitsafe.Service.Session.Account.{
  enforce_backoff, or_return, login_with, login_params, handle_login, handle_unlock, may_authorize,
  authorize_with, unlock_password, handle_authorize,
}

module _ {C : Type 0} where
  -- The task has read the state once, found it as the others left it, and ends.
  abbrev pub after_look : Sys C → Sys C
  after_look s = record { world = s.others 0 s.world; others = λ n. s.others (suc n) }

  -- A task ends with an error for the request `id`, having read the state once at most, and it is the
  -- same error whatever is outside: no client and no prompt was asked.
  abbrev pub Refuses : Option ℕ → (Outside C → Task C Response Response) → Sys C → Type 0
  Refuses id task s =
      (e : RpcError) × (s' : Sys C) × ((o : Outside C) → task o s ≡ (err (failure id e), s'))
      × ((s' ≡ s) ⊎ (s' ≡ after_look s))

  module _ (id pid : Option ℕ) (s : Sys C)
      (h : 0 < master_password_backoff_remaining (s.others 0 s.world)) where
    login_with-Refuses : (p : Option LoginParams) → Refuses id (λ o. login_with o id p) s
    unfolding login_with enforce_backoff ◌>>=◌ reading critical return_if raise
    login_with-Refuses none = (invalid_params (text "Expected {email}"), s, (λ o. refl), inl refl)
    login_with-Refuses (some p) = (
      too_many_attempts (master_password_backoff_remaining (s.others 0 s.world)),
      after_look s,
      λ o. rw (lt→ltb 0 (master_password_backoff_remaining (s.others 0 s.world)) h) refl,
      inr refl,
    )

    pub handle_login-Refuses :
        (params : Option RequestParams) → Refuses id (λ o. handle_login o id params) s
    unfolding handle_login
    handle_login-Refuses params = login_with-Refuses (login_params params)

    pub handle_unlock-Refuses :
        (params : Option RequestParams) → Refuses id (λ o. handle_unlock o id params pid) s
    unfolding handle_unlock enforce_backoff ◌>>=◌ reading critical return_if raise
    handle_unlock-Refuses params = (
      too_many_attempts (master_password_backoff_remaining (s.others 0 s.world)),
      after_look s,
      λ o. rw (lt→ltb 0 (master_password_backoff_remaining (s.others 0 s.world)) h) refl,
      inr refl,
    )

    authorize_with-Refuses :
        (password : Option Text) → Refuses id (λ o. authorize_with o id pid password) s
    unfolding authorize_with may_authorize or_return ◌>>=◌ reading critical raise
    authorize_with-Refuses none =
        (invalid_params (text "Expected {password}"), s, (λ o. refl), inl refl)
    authorize_with-Refuses (some password) =
        elim (Bool-cases (is_logged_out (s.others 0 s.world).service.vault_state)) [
          | inl out ↦ (not_logged_in, after_look s, (λ o. rw out refl), inr refl)
          | inr account ↦ (
            too_many_attempts (master_password_backoff_remaining (s.others 0 s.world)),
            after_look s,
            λ o.
                rw (account, lt→ltb 0 (master_password_backoff_remaining (s.others 0 s.world)) h)
                  refl,
            inr refl,
          )
        ]

    pub handle_authorize-Refuses :
        (params : Option RequestParams) → Refuses id (λ o. handle_authorize o id params pid) s
    unfolding handle_authorize
    handle_authorize-Refuses params = authorize_with-Refuses (unlock_password params)
