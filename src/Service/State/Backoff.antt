-- ===== src/Service/State/Backoff.antt =====
-- state.rs and persist.rs: the delay behind wrong master passwords, and its survival of a restart.
use bitsafe.Prelude.{
  ℕ, zero, suc, ◌+◌, ◌-◌, ◌*◌, ◌/◌, ◌^◌, ◌≤◌, ◌<◌, ◌≡◌, refl, ap, ap₂, ◌∙◌, true, some, arith, min,
}
use native.Mathlib.Nat.{pow-le-pow_right}
use bitsafe.Service.World.{World, Outside, second, done, Disk, Instant}
use bitsafe.Service.Prompt.{PromptMethod}
use bitsafe.Service.Persist.{save_backoff, load_backoff}
use bitsafe.Service.State.{
  delay_secs, master_password_backoff_remaining, record_password_failure, start, restored_attempt,
}

-- The delays in docs/security.md: 0s, 1s, 2s, 4s, 8s, 16s, 30s (capped), from the first failure on.
abbrev pub documented_delay : ℕ → ℕ
documented_delay zero = 0
documented_delay (suc zero) = 0
documented_delay (suc (suc zero)) = 1
documented_delay (suc (suc (suc zero))) = 2
documented_delay (suc (suc (suc (suc zero)))) = 4
documented_delay (suc (suc (suc (suc (suc zero))))) = 8
documented_delay (suc (suc (suc (suc (suc (suc zero)))))) = 16
documented_delay (suc (suc (suc (suc (suc (suc (suc n))))))) = 30

-- From the seventh failure on the delay stays at its cap.
delay_capped : (n : ℕ) → 7 ≤ n → delay_secs n ≡ 30
unfolding delay_secs
delay_capped n h =
    let large : 2 ^ 5 ≤ 2 ^ min (n - 2) 30 = pow-le-pow_right (omega arith) {i = 5} (omega arith) in
    omega arith

delay-documented : (n : ℕ) → 2 ≤ n → delay_secs n ≡ documented_delay n
delay-documented zero h = absurd (omega arith)
delay-documented (suc zero) h = absurd (omega arith)
delay-documented (suc (suc zero)) h = unfold delay_secs in refl
delay-documented (suc (suc (suc zero))) h = unfold delay_secs in refl
delay-documented (suc (suc (suc (suc zero)))) h = unfold delay_secs in refl
delay-documented (suc (suc (suc (suc (suc zero))))) h = unfold delay_secs in refl
delay-documented (suc (suc (suc (suc (suc (suc zero)))))) h = unfold delay_secs in refl
delay-documented (suc (suc (suc (suc (suc (suc (suc n))))))) h = delay_capped _ (omega arith)

-- What is left of the documented delay after `elapsed` seconds.
abbrev pub backoff_after : ℕ → ℕ → ℕ
backoff_after attempts elapsed = documented_delay attempts - elapsed

documented-few : (n elapsed : ℕ) → n ≤ 1 → backoff_after n elapsed ≡ 0
documented-few zero elapsed h = omega arith
documented-few (suc zero) elapsed h = omega arith
documented-few (suc (suc n)) elapsed h = absurd (omega arith)

module _ {C : Type 0} where
  -- Behind a last failure the remaining delay is the documented one for the number of failures, less
  -- the whole seconds that have passed since, and 0 once those reach it.
  pub remaining-documented :
      (w : World C) (last : Instant)
      → w.service.last_password_attempt ≡ some last
      → master_password_backoff_remaining w
        ≡ backoff_after w.service.master_password_attempts ((w.now - last) / second)
  unfolding master_password_backoff_remaining
  remaining-documented w last h = ground (
    arith,
    delay-documented w.service.master_password_attempts,
    documented-few w.service.master_password_attempts ((w.now - last) / second),
  )

elapsed_restart :
    (now waited : ℕ) → waited * second ≤ now → (now - (now - waited * second)) / second ≡ waited
elapsed_restart now waited h = omega arith

module _ {C : Type 0} (o : Outside C) where
  saved_failure :
      (w : World C)
      → o.data_dir ≡ true
      → o.writes ≡ done
      → w.service.master_password_attempts + 1 < 2 ^ 32
      → load_backoff o (record_password_failure o w).disk
        ≡ (w.service.master_password_attempts + 1, some w.epoch)
  unfolding record_password_failure save_backoff load_backoff
  saved_failure w hd hw hr = rw (hd, hw) (ground arith)

  restored_reaching :
      (epoch now saved : ℕ)
      → (epoch - saved) * second ≤ now
      → restored_attempt o epoch now (some saved) ≡ some (now - (epoch - saved) * second)
  unfolding restored_attempt
  restored_reaching epoch now saved h = ground arith

  started_attempts :
      (method : PromptMethod) (d : Disk) (now epoch : ℕ)
      → (start o method d now epoch).service.master_password_attempts ≡ (load_backoff o d).0
  unfolding start
  started_attempts method d now epoch = refl

  started_last :
      (method : PromptMethod) (d : Disk) (now epoch : ℕ)
      → (start o method d now epoch).service.last_password_attempt
        ≡ restored_attempt o epoch now (load_backoff o d).1
  unfolding start
  started_last method d now epoch = refl

  -- A restart does not shorten the delay: where backoff.json can be written, the service that starts
  -- again after a failure has the delay of the failures counted before it, less the whole
  -- wall-clock seconds since the failure, provided the monotonic clock reaches back that far.
  pub remaining-restart :
      (w : World C) (method : PromptMethod) (now epoch : ℕ)
      → o.data_dir ≡ true
      → o.writes ≡ done
      → w.epoch ≤ epoch
      → (epoch - w.epoch) * second ≤ now
      → w.service.master_password_attempts + 1 < 2 ^ 32
      → master_password_backoff_remaining
          (start o method (record_password_failure o w).disk now epoch)
        ≡ backoff_after (w.service.master_password_attempts + 1) (epoch - w.epoch)
  unfolding start
  remaining-restart w method now epoch hd hw he hn hr =
      let saved = saved_failure w hd hw hr in
      let w' = start o method (record_password_failure o w).disk now epoch in
      let last = now - (epoch - w.epoch) * second in
      remaining-documented w' last (
        started_last method (record_password_failure o w).disk now epoch
        ∙ rw saved (restored_reaching epoch now w.epoch hn))
      ∙ ap₂ backoff_after
          (started_attempts method (record_password_failure o w).disk now epoch
            ∙ ap (λ b. b.0) saved)
          (elapsed_restart now (epoch - w.epoch) hn)
