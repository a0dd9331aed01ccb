-- ===== src/Service/Approval/Denied.antt =====
-- approval.rs: without an authentication of the user there is no approval. No other task runs here.
use bitsafe.Prelude.{
  ℕ, ◌≡◌, ◌≢◌, refl, ap, Bool, true, false, Option, none, some, Bool-cases, inl, inr, if◌then◌else◌,
}
use bitsafe.Prelude.Texts.{Text, text}
use bitsafe.Prelude.Results.{Result, ok, err}
use bitsafe.Sdk.{SdkError}
use bitsafe.Sdk.Act.{pure, raise, ◌>>=◌}
use bitsafe.Service.Prompt.{
  PromptMethod, is_terminal, prompt_biometric, prompt_pin, prompt_password,
}
use bitsafe.Service.World.{World, Outside, pin_max_attempts}
use bitsafe.Service.State.{pin_set, pin_attempts_exceeded, verify_pin}
use bitsafe.Service.Unlock.{verify_password}
use bitsafe.Service.Task.{Sys, Task, critical, reading, writing, returned}
use bitsafe.Service.Approval.{
  granted, exhausted_first, biometric_first, next_attempt, try_pin, with_pin_answer, by_pin,
  with_password_answer, by_password, attempt_approval,
}

-- A state that no other task changes.
abbrev pub alone : {C : Type 0} → World C → Sys C
alone w = record { world = w; others = λ n v. v }

module _ {C : Type 0} (o : Outside C) where
  -- No prompt gives what authenticates the user: no fingerprint, no right PIN, no master password.
  pub record IsStranger (method : PromptMethod) (w : World C) : Type 0 where
    pub biometric : prompt_biometric o.run method (text "Grimoire: approve vault access") ≢ ok true
    pub pin :
        (attempt : ℕ) (candidate : Text)
        → prompt_pin o.run method attempt pin_max_attempts ≡ ok (some candidate)
        → (verify_pin candidate w).0 ≡ false
    pub password :
        (candidate : Text)
        → prompt_password o.run method ≡ ok (some candidate)
        → (verify_password o candidate w).0 ≢ ok tt

  after_biometric :
      (pid : Option ℕ) (r : Result Text Bool) (s : Sys C)
      → r ≢ ok true
      → (let m : Task C Bool (Unit {0}) = elim r [
        | ok b ↦ if b then granted o pid >>= raise else pure tt
        | err e ↦ pure tt
      ] in
          m s)
        ≡ (ok tt, s)
  unfolding pure
  after_biometric pid (ok true) s h = absurd (h refl)
  after_biometric pid (ok false) s h = refl
  after_biometric pid (err e) s h = refl

  biometric_first-skipped :
      (method : PromptMethod) (pid : Option ℕ) (s : Sys C)
      → prompt_biometric o.run method (text "Grimoire: approve vault access") ≢ ok true
      → biometric_first o method pid s ≡ (ok tt, s)
  unfolding biometric_first pure
  biometric_first-skipped method pid s h = elim (Bool-cases (is_terminal method)) [
    | inl t ↦ rw t refl
    | inr f ↦ rw f (after_biometric pid _ s h)
  ]

  try_pin-wrong :
      (pin : Text) (w : World C) → (verify_pin pin w).0 ≡ false → (try_pin o pin w).0 ≡ false
  unfolding try_pin
  try_pin-wrong pin w h = h

  with_pin_answer-wrong :
      (pid : Option ℕ) (r : Result Text (Option Text)) (w : World C)
      → ((candidate : Text) → r ≡ ok (some candidate) → (verify_pin candidate w).0 ≡ false)
      → (with_pin_answer o pid r (alone w)).0 ≡ ok false
  unfolding with_pin_answer ◌>>=◌ critical pure
  with_pin_answer-wrong pid (ok (some pin)) w h = rw (try_pin-wrong pin w (h pin refl)) refl
  with_pin_answer-wrong pid (ok none) w h = refl
  with_pin_answer-wrong pid (err e) w h = refl

  by_pin-wrong :
      (method : PromptMethod) (pid : Option ℕ) (w : World C)
      → IsStranger method w
      → (by_pin o method pid (alone w)).0 ≡ ok false
  unfolding by_pin ◌>>=◌ reading critical
  by_pin-wrong method pid w h =
      with_pin_answer-wrong pid (prompt_pin o.run method (next_attempt o w) pin_max_attempts) w
        (h.pin (next_attempt o w))

  unverified :
      (pid : Option ℕ) (r : Result SdkError (Unit {0})) (s : Sys C)
      → r ≢ ok tt
      → (let m : Task C Bool Bool = elim r [ ok _ ↦ granted o pid | err e ↦ pure false ] in m s).0
        ≡ ok false
  unfolding pure
  unverified pid (ok tt) s h = absurd (h refl)
  unverified pid (err e) s h = refl

  with_password_answer-wrong :
      (pid : Option ℕ) (r : Result Text (Option Text)) (w : World C)
      → ((candidate : Text) → r ≡ ok (some candidate) → (verify_password o candidate w).0 ≢ ok tt)
      → (with_password_answer o pid r (alone w)).0 ≡ ok false
  unfolding with_password_answer ◌>>=◌ critical pure
  with_password_answer-wrong pid (ok (some password)) w h =
      unverified pid (verify_password o password w).0 (alone (verify_password o password w).1)
        (h password refl)
  with_password_answer-wrong pid (ok none) w h = refl
  with_password_answer-wrong pid (err e) w h = refl

  by_password-wrong :
      (method : PromptMethod) (pid : Option ℕ) (w : World C)
      → IsStranger method w
      → (by_password o method pid (alone w)).0 ≡ ok false
  unfolding by_password
  by_password-wrong method pid w h =
      with_password_answer-wrong pid (prompt_password o.run method) w h.password

  last_resort :
      (b : Bool) (method : PromptMethod) (pid : Option ℕ) (w : World C)
      → IsStranger method w
      → ((if b then by_pin o method pid else by_password o method pid) (alone w)).0 ≡ ok false
  last_resort true method pid w h = by_pin-wrong method pid w h
  last_resort false method pid w h = by_password-wrong method pid w h

  -- The approval flow denies a request for which no prompt authenticates the user.
  pub attempt_approval-IsStranger :
      (method : PromptMethod) (pid : Option ℕ) (w : World C)
      → IsStranger method w
      → returned (attempt_approval o method pid (alone w)).0 ≡ false
  unfolding attempt_approval ◌>>=◌ reading writing critical exhausted_first pure raise
  attempt_approval-IsStranger method pid w h = elim (Bool-cases (pin_attempts_exceeded w)) [
    | inl over ↦ rw over refl
    | inr fine ↦
        rw (fine, biometric_first-skipped method pid (alone w) h.biometric)
          (ap returned (last_resort (pin_set w) method pid w h))
  ]
