-- ===== src/Service/World.antt =====
-- crates/grimoire-service/src/state.rs: the data. `World` is what the service's tasks share: the
-- state behind the `RwLock`, the files, the clocks and the counter of unknown scopes.
use bitsafe.Prelude.{ℕ, Bool, true, false, Option, List}
use bitsafe.Prelude.Bytes.{Bytes}
use bitsafe.Prelude.Texts.{Text}
use bitsafe.Sdk.{SdkError}
use bitsafe.Sdk.Cache.{CacheLibraries}
use bitsafe.Sdk.Client.{Client, LoginState}
use bitsafe.Service.Prompt.{PromptMethod, Run}

-- An `Instant` counts the nanoseconds since the earliest one that the platform can hold, which on
-- Linux is long before the boot. A `DateTime<Utc>` and a UNIX time count seconds.
abbrev pub Instant : Type 0
Instant = ℕ

abbrev pub second : ℕ
second = 1000000000

pub data VaultState : Type 0 where
  logged_out locked unlocked : VaultState

pub record Session : Type 0 where
  pub pin : Option Text
  pub pin_attempts : ℕ

-- The map from a scope key to the end of its grant.
pub record ApprovalCache : Type 0 where
  pub grants : List (ℕ × Instant)

pub record ServiceState (C : Type 0) : Type 0 where
  pub vault_state : VaultState
  pub email : Option Text
  pub server_url : Option Text
  pub last_sync : Option ℕ
  pub last_activity : Instant
  pub session : Option Session
  pub prompt_method : PromptMethod
  pub approval_cache : ApprovalCache
  pub master_password_attempts : ℕ
  pub last_password_attempt : Option Instant
  pub sdk : Option C
  pub login_state : Option LoginState

-- A file that the service writes, by what reading it gives.
pub data File (A : Type 0) : Type 0 where
  missing unreadable : File A
  holds : A → File A

-- backoff.json
pub record PersistedBackoff : Type 0 where
  pub attempts : ℕ
  pub last_attempt_epoch : Option ℕ

-- `cek` is the entry in the platform's credential store.
pub record Disk : Type 0 where
  pub login_file : File LoginState
  pub backoff_file : File PersistedBackoff
  pub cache_file : File Bytes
  pub cek : Option Bytes

pub record World (C : Type 0) : Type 0 where
  pub service : ServiceState C
  pub disk : Disk
  pub now : Instant
  pub epoch : ℕ
  pub unknown_scope : ℕ
  -- the background syncs that `tokio::spawn` was asked for
  pub spawned_syncs : ℕ

-- How a write to a file ends: done, refused before the file was touched, or cut short.
pub data WriteOutcome : Type 0 where
  done refused cut : WriteOutcome

-- What the service meets outside: libraries, the prompt program, the platform. `timely` says whether
-- a token refresh ends within its three seconds; `removes` says whether
-- `remove_file` succeeds on a file that is there; `cek_load` and `cek_store` are the errors of the
-- credential store, `none` for no error; `random` are the bytes that the system's source gives.
pub record Outside (C : Type 0) : Type 0 where
  pub client : Client C
  pub libraries : CacheLibraries
  pub run : Run
  pub session_leader : ℕ → Option ℕ
  pub timely : Bool
  pub data_dir : Bool
  pub writes : WriteOutcome
  pub removes : Bool
  pub keystore : Bool
  pub cek_load : Option SdkError
  pub cek_store : Option SdkError
  pub cek_delete : Option SdkError
  pub random_cek : Bytes
  pub random_nonce : Bytes
  pub public_key_of : Text → Option Text

-- crates/grimoire-common/src/config.rs
abbrev pub auto_lock_seconds : ℕ
auto_lock_seconds = 900

abbrev pub pin_max_attempts : ℕ
pin_max_attempts = 3

abbrev pub approval_seconds : ℕ
approval_seconds = 300

abbrev pub is_unlocked : VaultState → Bool
is_unlocked unlocked = true
is_unlocked _ = false

abbrev pub is_locked : VaultState → Bool
is_locked locked = true
is_locked _ = false

abbrev pub is_logged_out : VaultState → Bool
is_logged_out logged_out = true
is_logged_out _ = false
