-- ===== src/Service/Session/Attempts.antt =====
-- session.rs: requests with master passwords, while the delay behind wrong ones runs.
use bitsafe.Prelude.{
  ℕ, suc, ◌+◌, ◌*◌, ◌≤◌, ◌<◌, ◌≡◌, refl, ap, sym, ◌∙◌, subst, ◌⊎◌, inl, inr, Option, some, List, [],
  ◌∷◌, All, arith,
}
use bitsafe.Prelude.Texts.{text}
use bitsafe.Protocol.Request.{Request, method_of}
use bitsafe.Protocol.Response.{Response, RpcError, failure}
use bitsafe.Sdk.Act.{pure, ◌>>=◌}
use bitsafe.Service.World.{World, Outside, Instant, second}
use bitsafe.Service.State.{master_password_backoff_remaining}
use bitsafe.Service.State.Backoff.{documented_delay, remaining-documented}
use bitsafe.Service.Task.{Sys, returned}
use bitsafe.Service.Session.{requires_approval, serve, gated, dispatch_method, dispatch}
use bitsafe.Service.Session.Account.Backoff.{
  after_look, Refuses, handle_login-Refuses, handle_unlock-Refuses, handle_authorize-Refuses,
}

-- The requests that carry a master password or have it asked for.
abbrev pub IsAttempt : Request → Type 0
IsAttempt r =
    (r.method ≡ text "auth.login")
    ⊎ (r.method ≡ text "auth.unlock")
    ⊎ (r.method ≡ text "auth.authorize")

-- Each request got an error.
abbrev pub AllRefused : List (Request × Option ℕ) → List Response → Type 0
AllRefused [] [] = Unit
AllRefused ((r, pid) ∷ requests) (response ∷ responses) =
    ((e : RpcError) × (response ≡ failure r.id e)) × AllRefused requests responses
AllRefused _ _ = ⊥

module _ {C : Type 0} where
  -- The answers to requests that come one after the other, each from a process.
  pub dispatch_all : Outside C → List (Request × Option ℕ) → Sys C → List Response × Sys C
  dispatch_all o [] s = ([], s)
  dispatch_all o ((r, pid) ∷ requests) s =
      let (response, s') = dispatch o r pid s in
      let (responses, s'') = dispatch_all o requests s' in (returned response ∷ responses, s'')

  -- The other tasks leave the state and the files alone, and what they take of the time ends before
  -- `until`.
  pub record Waits (last until : Instant) (s : Sys C) : Type 0 where
    pub keeps_service : (n : ℕ) (w : World C) → (s.others n w).service ≡ w.service
    pub keeps_disk : (n : ℕ) (w : World C) → (s.others n w).disk ≡ w.disk
    pub from_last : (n : ℕ) (w : World C) → last ≤ (s.others n w).now
    pub before_end : (n : ℕ) (w : World C) → (s.others n w).now < until

  -- While the delay that the documents give runs, seconds remain.
  remaining_positive :
      (w : World C) (last : Instant)
      → w.service.last_password_attempt ≡ some last
      → last ≤ w.now
      → w.now < last + documented_delay w.service.master_password_attempts * second
      → 0 < master_password_backoff_remaining w
  remaining_positive w last h lo hi = rw (remaining-documented w last h) (omega arith)

  dispatch-Refuses :
      (r : Request) (pid : Option ℕ) (s : Sys C)
      → IsAttempt r
      → 0 < master_password_backoff_remaining (s.others 0 s.world)
      → Refuses r.id (λ o. dispatch o r pid) s
  unfolding dispatch dispatch_method gated serve requires_approval method_of text ◌>>=◌ pure
  dispatch-Refuses r pid s (inl login) h = rw login (handle_login-Refuses r.id pid s h r.params)
  dispatch-Refuses r pid s (inr (inl unlock)) h =
      rw unlock (handle_unlock-Refuses r.id pid s h r.params)
  dispatch-Refuses r pid s (inr (inr authorize)) h =
      rw authorize (handle_authorize-Refuses r.id pid s h r.params)

  -- The state that one look leaves is the same, and the others go on as before.
  abbrev IsSame : (last until : Instant) (s s' : Sys C) → Type 0
  IsSame last until s s' =
      (s'.world.service ≡ s.world.service) × (s'.world.disk ≡ s.world.disk) × Waits last until s'

  looked-IsSame :
      (last until : Instant) (s s' : Sys C)
      → Waits last until s
      → (s' ≡ s) ⊎ (s' ≡ after_look s)
      → IsSame last until s s'
  looked-IsSame last until s s' waits (inl same) =
      subst (IsSame last until s) (sym same) (refl, refl, waits)
  looked-IsSame last until s s' waits (inr looked) = subst (IsSame last until s) (sym looked) (
    waits.keeps_service 0 s.world,
    waits.keeps_disk 0 s.world,
    record {
      keeps_service = λ n w. waits.keeps_service (suc n) w;
      keeps_disk = λ n w. waits.keeps_disk (suc n) w;
      from_last = λ n w. waits.from_last (suc n) w;
      before_end = λ n w. waits.before_end (suc n) w;
    },
  )

  -- No login, unlock or authorization tries a master password while the delay behind wrong ones
  -- runs. Every such request that the service gets in the documented delay after the last wrong
  -- password is answered with an error, whatever its parameters are and in whatever state the vault
  -- is, and so are all of them one after the other: the state, with its count of attempts, and the
  -- files stay, and the answers are the same for every SDK client and prompt program, so that
  -- neither was asked. The other tasks are taken to leave the state and the files alone.
  pub dispatch_all-AllRefused :
      (requests : List (Request × Option ℕ)) (s : Sys C) (last : Instant)
      → s.world.service.last_password_attempt ≡ some last
      → Waits last (last + documented_delay s.world.service.master_password_attempts * second) s
      → All (λ r. IsAttempt r.0) requests
      → (responses : List Response) × (s' : Sys C) × ((o : Outside C)
          → dispatch_all o requests s ≡ (responses, s'))
        × AllRefused requests responses
        × (s'.world.service ≡ s.world.service)
        × (s'.world.disk ≡ s.world.disk)
  unfolding dispatch_all
  dispatch_all-AllRefused [] s last hl waits attempts = ([], s, (λ o. refl), tt, refl, refl)
  dispatch_all-AllRefused ((r, pid) ∷ requests) s last hl waits (attempt, attempts) =
      let seen = s.others 0 s.world in
      let kept = waits.keeps_service 0 s.world in
      let remains : 0 < master_password_backoff_remaining seen =
        remaining_positive seen last (ap (λ v. v.last_password_attempt) kept ∙ hl)
          (waits.from_last 0 s.world)
          (subst (λ v. seen.now < last + documented_delay v.master_password_attempts * second)
            (sym kept) (waits.before_end 0 s.world)) in
      let (e, s', refused, looked) = dispatch-Refuses r pid s attempt remains in
      let (service, files, waits') = looked-IsSame last _ s s' waits looked in
      let (responses, s'', rest, all_refused, service', files') =
        dispatch_all-AllRefused requests s' last (ap (λ v. v.last_password_attempt) service ∙ hl)
          (subst (λ v. Waits last (last + documented_delay v.master_password_attempts * second) s')
            (sym service) waits')
          attempts in
      (
        failure r.id e ∷ responses,
        s'',
        (λ o. rw (refused o, rest o) refl),
        ((e, refl), all_refused),
        service' ∙ service,
        files' ∙ files,
      )
