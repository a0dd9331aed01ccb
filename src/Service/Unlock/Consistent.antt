-- ===== src/Service/Unlock/Consistent.antt =====
-- state.rs: unlocking and verifying a password keep the invariant of `ServiceState`.
use bitsafe.Prelude.{ℕ, ◌≡◌, ◌⊎◌, inl, inr, true, Option, none, some, arith}
use bitsafe.Prelude.Texts.{Text}
use bitsafe.Prelude.Results.{Result, ok, err}
use bitsafe.Sdk.{SdkError}
use bitsafe.Sdk.Cache.{CacheEnvelope}
use bitsafe.Sdk.Client.{UnlockCacheData}
use bitsafe.Sdk.Act.{◌>>=◌, modify, attempt}
use bitsafe.Sdk.Act.Keeps.{
  Keeps, Keeps-attempt, Keeps-bind, keeps_rules, Keeps-modify, Keeps-require,
}
use bitsafe.Service.World.{World, Outside, logged_out}
use bitsafe.Service.State.Consistent.{IsConsistent, has_account}
use bitsafe.Service.Unlock.{
  set_client, with_client, enter_unlocked, enter_from_cache, check_password, unlock_from_cache,
  refresh_token, renew_client, build_cache, unlock_online, behind_cache, try_cache, unlock,
  verify_password,
}

module _ {C : Type 0} where
  -- The invariant, and an account is there.
  pub record HasAccount (w : World C) : Type 0 where
    pub consistent : IsConsistent w
    pub account : has_account w.service.vault_state ≡ true

  set_client-HasAccount : (c : C) (w : World C) → HasAccount w → HasAccount (set_client c w)
  unfolding set_client
  set_client-HasAccount c w h = ground arith

  with_client-HasAccount :
      {A : Type 0} (f : C → Result SdkError A × C) (c : C) → Keeps HasAccount (with_client f c)
  unfolding with_client
  with_client-HasAccount f c = record { at = λ w h. set_client-HasAccount (f c).1 w h }

  enter_unlocked-HasAccount : (w : World C) → HasAccount w → HasAccount (enter_unlocked w)
  unfolding enter_unlocked
  enter_unlocked-HasAccount w h = ground arith

  enter_from_cache-HasAccount :
      (last_sync : Option ℕ) (w : World C)
      → HasAccount w
      → HasAccount (enter_from_cache last_sync w)
  unfolding enter_from_cache
  enter_from_cache-HasAccount last_sync w h = ground arith

module _ {C : Type 0} (o : Outside C) where
  unlock_from_cache-HasAccount :
      (password : Text) (envelope : CacheEnvelope)
      → Keeps HasAccount (unlock_from_cache o password envelope)
  unfolding unlock_from_cache check_password
  unlock_from_cache-HasAccount password envelope =
      search (keeps_rules, with_client-HasAccount, Keeps-modify, enter_from_cache-HasAccount) depth
        40 fits 2000

  refresh_token-HasAccount :
      (password : Text) (w : World C) → HasAccount w → HasAccount (refresh_token o password w)
  unfolding refresh_token
  refresh_token-HasAccount password w h = ground arith

  renew_client-HasAccount : (w : World C) → HasAccount w → HasAccount (renew_client o w)
  unfolding renew_client
  renew_client-HasAccount w h = ground arith

  build_cache-HasAccount :
      (data' : UnlockCacheData) (w : World C) → HasAccount w → HasAccount (build_cache o data' w)
  unfolding build_cache
  build_cache-HasAccount data' w h = ground arith

  unlock_online-HasAccount : (password : Text) → Keeps HasAccount (unlock_online o password)
  unfolding unlock_online
  unlock_online-HasAccount password =
      search
        (
          keeps_rules, with_client-HasAccount, Keeps-modify, enter_unlocked-HasAccount,
          build_cache-HasAccount,
        )
        depth 40 fits 2000

  behind_cache-HasAccount :
      (password : Text) (r : Result SdkError (Unit {0}))
      → Keeps HasAccount (behind_cache o password r)
  unfolding behind_cache
  behind_cache-HasAccount password (ok _) =
      Keeps-modify (refresh_token o password) (refresh_token-HasAccount password)
  behind_cache-HasAccount password (err e) =
      Keeps-bind (modify (renew_client o)) _ (Keeps-modify (renew_client o) renew_client-HasAccount)
        (λ _. unlock_online-HasAccount password)

  try_cache-HasAccount :
      (password : Text) (cached : Option CacheEnvelope)
      → Keeps HasAccount (try_cache o password cached)
  unfolding try_cache
  try_cache-HasAccount password none = unlock_online-HasAccount password
  try_cache-HasAccount password (some envelope) =
      Keeps-bind (attempt (unlock_from_cache o password envelope)) _
        (Keeps-attempt _ (unlock_from_cache-HasAccount password envelope))
        (behind_cache-HasAccount password)

  unlock-HasAccount : (password : Text) → Keeps HasAccount (unlock o password)
  unfolding unlock
  unlock-HasAccount password =
      search (keeps_rules, Keeps-require, try_cache-HasAccount) depth 40 fits 2000

  verify_password-HasAccount : (password : Text) → Keeps HasAccount (verify_password o password)
  unfolding verify_password
  verify_password-HasAccount password =
      search (keeps_rules, Keeps-require, with_client-HasAccount) depth 40 fits 2000

  unlock-logged_out :
      (password : Text) (w : World C)
      → w.service.vault_state ≡ logged_out
      → (unlock o password w).1 ≡ w
  unfolding unlock ◌>>=◌
  unlock-logged_out password w h = rw h

  verify_password-logged_out :
      (password : Text) (w : World C)
      → w.service.vault_state ≡ logged_out
      → (verify_password o password w).1 ≡ w
  unfolding verify_password ◌>>=◌
  verify_password-logged_out password w h = rw h

  account_of :
      (w : World C)
      → (w.service.vault_state ≡ logged_out) ⊎ (has_account w.service.vault_state ≡ true)
  account_of w = ground arith

  pub unlock-IsConsistent :
      (password : Text) (w : World C) → IsConsistent w → IsConsistent (unlock o password w).1
  unlock-IsConsistent password w h = elim (account_of w) [
    | inl out ↦ rw (unlock-logged_out password w out) h
    | inr account ↦
        ((unlock-HasAccount password).at w
          (record { consistent = h; account = account })).consistent
  ]

  pub verify_password-IsConsistent :
      (password : Text) (w : World C)
      → IsConsistent w
      → IsConsistent (verify_password o password w).1
  verify_password-IsConsistent password w h = elim (account_of w) [
    | inl out ↦ rw (verify_password-logged_out password w out) h
    | inr account ↦
        ((verify_password-HasAccount password).at w
          (record { consistent = h; account = account })).consistent
  ]
