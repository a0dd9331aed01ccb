-- ===== src/Service/State/Consistent.antt =====
-- state.rs: the invariant of `ServiceState`, kept by every method that runs under the lock.
use bitsafe.Prelude.{ℕ, ◌≤◌, ◌<◌, ◌≡◌, Bool, true, false, Option, none, some, arith, length}
use bitsafe.Prelude.Texts.{Text}
use bitsafe.Service.Prompt.{PromptMethod}
use bitsafe.Service.World.{
  Session, Disk, World, Outside, VaultState, logged_out, locked, unlocked, is_unlocked,
}
use bitsafe.Service.State.{
  is_some, touch, set_pin, record_password_failure, reset_password_attempts, lock, logout, login,
  start,
}

abbrev pub has_account : VaultState → Bool
has_account logged_out = false
has_account locked = true
has_account unlocked = true

abbrev PinFits : Option Text → Type 0
PinFits none = Unit
PinFits (some pin) = 4 ≤ length pin

abbrev SessionFits : Option Session → Type 0
SessionFits none = Unit
SessionFits (some s) = (s.pin_attempts < 3) × PinFits s.pin

-- An account is there exactly if the service is not logged out, a session exactly if it is unlocked;
-- a PIN has four bytes at least, and fewer than three failed attempts are outstanding.
pub record IsConsistent {C : Type 0} (w : World C) : Type 0 where
  pub email : is_some w.service.email ≡ has_account w.service.vault_state
  pub server_url : is_some w.service.server_url ≡ has_account w.service.vault_state
  pub sdk : is_some w.service.sdk ≡ has_account w.service.vault_state
  pub login_state : is_some w.service.login_state ≡ has_account w.service.vault_state
  pub session : is_some w.service.session ≡ is_unlocked w.service.vault_state
  pub attempts : SessionFits w.service.session

module _ {C : Type 0} where
  pub touch-IsConsistent : (w : World C) → IsConsistent w → IsConsistent (touch w)
  unfolding touch
  touch-IsConsistent w h = ground arith

  pub set_pin-IsConsistent :
      (pin : Text) (w : World C) → IsConsistent w → IsConsistent (set_pin pin w).1
  unfolding set_pin
  set_pin-IsConsistent pin w h = ground arith

module _ {C : Type 0} (o : Outside C) where
  pub record_password_failure-IsConsistent :
      (w : World C) → IsConsistent w → IsConsistent (record_password_failure o w)
  unfolding record_password_failure
  record_password_failure-IsConsistent w h = ground arith

  pub reset_password_attempts-IsConsistent :
      (w : World C) → IsConsistent w → IsConsistent (reset_password_attempts o w)
  unfolding reset_password_attempts
  reset_password_attempts-IsConsistent w h = ground arith

  pub lock-IsConsistent : (w : World C) → IsConsistent w → IsConsistent (lock o w).1
  unfolding lock
  lock-IsConsistent w h = ground arith

  pub logout-IsConsistent : (w : World C) → IsConsistent w → IsConsistent (logout o w).1
  unfolding logout
  logout-IsConsistent w h = ground arith

  pub login-IsConsistent :
      (email password : Text) (url : Option Text) (w : World C)
      → IsConsistent w
      → IsConsistent (login o email password url w).1
  unfolding login
  login-IsConsistent email password url w h = ground arith

  pub start-IsConsistent :
      (method : PromptMethod) (d : Disk) (now epoch : ℕ) → IsConsistent (start o method d now epoch)
  unfolding start
  start-IsConsistent method d now epoch = ground arith
