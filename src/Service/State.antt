-- ===== src/Service/State.antt =====
-- state.rs: the methods of `Session` and `ServiceState`. A method runs under the lock, at the instant
-- `now` of the world.
pub mod Backoff
pub mod Pins
pub mod Consistent
pub mod Lifecycle
use bitsafe.Prelude.{
  ℕ, zero, ◌+◌, ◌-◌, ◌*◌, ◌/◌, ◌%◌, ◌^◌, min, Bool, true, false, not, ◌||◌, Option, none, some,
  List, [], ltb, leb, ◌==◌, if◌then◌else◌, length,
}
use bitsafe.Prelude.Texts.{Text, text}
use bitsafe.Prelude.ConstantTime.{fold_difference}
use bitsafe.Prelude.Results.{Result, ok, err}
use bitsafe.Protocol.Request.Json.{Value}
use bitsafe.Sdk.{SdkError, vault_locked, not_logged_in, internal}
use bitsafe.Sdk.Client.{Client, LoginState}
use bitsafe.Service.Prompt.{PromptMethod}
use bitsafe.Service.World.{
  Session, ServiceState, Disk, World, Outside, Instant, VaultState, logged_out, locked, unlocked,
  second, pin_max_attempts, is_unlocked, is_locked, is_logged_out,
}
use bitsafe.Service.Approvals.{clear, empty_cache}
use bitsafe.Service.Persist.{
  save_backoff, clear_backoff, save_login_state, clear_login_state, delete_cache_file, delete_cek,
  load_backoff, load_login_state,
}

abbrev pub new_session : Session
new_session = record { pin = none; pin_attempts = 0 }

-- `Session::verify_pin`: the lengths, then a fold without early exit.
pin_matches : Option Text → Text → Bool
pin_matches none candidate = false
pin_matches (some stored) candidate =
    if not (length stored == length candidate)
    then false
    else fold_difference 0 stored candidate == 0

unfoldable pub session_verify_pin : Session → Text → Bool
unfolding pin_matches
session_verify_pin s candidate = pin_matches s.pin candidate

abbrev pub is_some {ℓ} : {A : Type ℓ} → Option A → Bool
is_some none = false
is_some (some a) = true

-- `last.elapsed().as_secs()`, which stops at 0.
abbrev pub elapsed_secs : Instant → Instant → ℕ
elapsed_secs now last = (now - last) / second

delay_secs : ℕ → ℕ
delay_secs attempts = min (2 ^ min (attempts - 2) 30) 30

remaining_since : ℕ → Instant → Option Instant → ℕ
remaining_since delay now none = 0
remaining_since delay now (some last) = delay - elapsed_secs now last

abbrev has_pin : Option Session → Bool
has_pin none = false
has_pin (some s) = is_some s.pin

abbrev attempts_exceeded : Option Session → Bool
attempts_exceeded none = false
attempts_exceeded (some s) = leb pin_max_attempts s.pin_attempts

with_pin : Text → Option Session → Option Session
with_pin pin none = none
with_pin pin (some s) = some (record s { pin = some pin })

module _ {C : Type 0} where
  unfoldable pub master_password_backoff_remaining : World C → ℕ
  unfolding delay_secs remaining_since
  master_password_backoff_remaining w =
      if leb w.service.master_password_attempts 1
      then 0
      else remaining_since (delay_secs w.service.master_password_attempts) w.now
          w.service.last_password_attempt

  unfoldable pub touch : World C → World C
  touch w = record w { service = record w.service { last_activity = w.now } }

  unfoldable pub pin_set : World C → Bool
  pin_set w = has_pin w.service.session

  unfoldable pub pin_attempts_exceeded : World C → Bool
  pin_attempts_exceeded w = attempts_exceeded w.service.session

  with_session : World C → Option Session → World C
  with_session w s = record w { service = record w.service { session = s } }

  verify_with : World C → Option Session → Text → Bool × World C
  unfolding with_session
  verify_with w none candidate = (false, w)
  verify_with w (some s) candidate =
      if session_verify_pin s candidate
      then (true, with_session w (some (record s { pin_attempts = 0 })))
      else (
        false,
        with_session w (some (record s { pin_attempts = (s.pin_attempts + 1) % 2 ^ 32 })),
      )

  -- `ServiceState::verify_pin`
  unfoldable pub verify_pin : Text → World C → Bool × World C
  unfolding verify_with
  verify_pin candidate w = verify_with w w.service.session candidate

  unfoldable pub set_pin : Text → World C → Result SdkError (Unit {0}) × World C
  unfolding with_session with_pin
  set_pin pin w =
      if not (is_unlocked w.service.vault_state)
      then (err vault_locked, w)
      else if length pin == 0 || ltb (length pin) 4
      then (err (internal (text "PIN must be at least 4 characters")), w)
      else (ok tt, with_session w (with_pin pin w.service.session))

module _ {C : Type 0} (o : Outside C) where
  -- The attempts are a u32.
  unfoldable pub record_password_failure : World C → World C
  record_password_failure w =
      let attempts = (w.service.master_password_attempts + 1) % 2 ^ 32 in
      record w {
        service = record w.service {
          master_password_attempts = attempts;
          last_password_attempt = some w.now;
        };
        disk = save_backoff o attempts (some w.epoch) w.disk;
      }

  unfoldable pub reset_password_attempts : World C → World C
  reset_password_attempts w = record w {
    service = record w.service { master_password_attempts = 0; last_password_attempt = none };
    disk = clear_backoff o w.disk;
  }

  -- `GrimoireClient::new(url)`, where there is a server URL.
  fresh_client : ServiceState C → Option C
  fresh_client s = elim s.server_url [ none ↦ s.sdk | some url ↦ some (o.client.new url) ]

  unfoldable pub lock : World C → Result SdkError (Unit {0}) × World C
  unfolding fresh_client
  lock w = if not (is_unlocked w.service.vault_state) then (err vault_locked, w) else (
    ok tt,
    record w {
      service = record w.service {
        sdk = fresh_client w.service;
        vault_state = locked;
        session = none;
        approval_cache = clear w.service.approval_cache;
      };
    },
  )

  unfoldable pub logout : World C → Result SdkError (Unit {0}) × World C
  logout w = (
    ok tt,
    record w {
      service = record w.service {
        vault_state = logged_out;
        email = none;
        server_url = none;
        last_sync = none;
        session = none;
        approval_cache = clear w.service.approval_cache;
        sdk = none;
        login_state = none;
      };
      disk = delete_cek o (delete_cache_file o (clear_login_state o w.disk));
    },
  )

  pub url_or_default : Option Text → Text
  url_or_default none = text "https://vault.bitwarden.com"
  url_or_default (some url) = url

  logged_in :
      Text → Text → Result SdkError LoginState × C → World C → Result SdkError (Unit {0}) × World C
  logged_in email url (err e, client) w = (err e, w)
  logged_in email url (ok login_state, client) w = (
    ok tt,
    touch (record w {
      service = record w.service {
        vault_state = locked;
        email = some email;
        server_url = some url;
        sdk = some client;
        login_state = some login_state;
      };
      disk = (save_login_state o login_state w.disk).1;
    }),
  )

  -- A client that a failed login made is dropped.
  unfoldable pub login : Text → Text → Option Text → World C → Result SdkError (Unit {0}) × World C
  unfolding logged_in touch url_or_default
  login email password server_url w =
      if not (is_logged_out w.service.vault_state)
      then (err (internal (text "Already logged in")), w)
      else let url = url_or_default server_url in
        logged_in email url (o.client.login (o.client.new url) email password url) w

  -- `Instant::now().checked_sub(elapsed)`
  checked_sub : ℕ → ℕ → Option ℕ
  checked_sub a b = if ltb a b then none else some (a - b)

  restored_attempt : ℕ → Instant → Option ℕ → Option Instant
  unfolding checked_sub
  restored_attempt epoch now none = none
  restored_attempt epoch now (some saved) = checked_sub now ((epoch - saved) * second)

  restored_login : Result SdkError (Option LoginState) → Option LoginState
  restored_login (ok login) = login
  restored_login (err e) = none

  abbrev state_of_login : Option LoginState → VaultState
  state_of_login none = logged_out
  state_of_login (some l) = locked

  abbrev map_login {ℓ} : {A : Type ℓ} → (LoginState → A) → Option LoginState → Option A
  map_login f none = none
  map_login f (some l) = some (f l)

  -- `ServiceState::new`
  unfoldable pub start : PromptMethod → Disk → Instant → ℕ → World C
  unfolding restored_attempt restored_login load_backoff load_login_state
  start prompt_method disk now epoch =
      let (attempts, saved) = load_backoff o disk in
      let login = restored_login (load_login_state o disk) in
      record {
        service = record {
          vault_state = state_of_login login;
          email = map_login (λ l. l.email) login;
          server_url = map_login (λ l. l.server_url) login;
          last_sync = none;
          last_activity = now;
          session = none;
          prompt_method = prompt_method;
          approval_cache = empty_cache;
          master_password_attempts = attempts;
          last_password_attempt = restored_attempt epoch now saved;
          sdk = map_login (λ l. o.client.new l.server_url) login;
          login_state = login;
        };
        disk = disk;
        now = now;
        epoch = epoch;
        unknown_scope = 2 ^ 32 - 1;
        spawned_syncs = 0;
      }
