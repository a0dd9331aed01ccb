-- ===== src/Service/Persist.antt =====
-- crates/grimoire-sdk/src/persist.rs and the file functions of cache.rs: login.json, backoff.json and
-- vault_cache.bin. Serializing them to JSON does not fail.
use bitsafe.Prelude.{ℕ, Bool, true, false, Option, none, some, if◌then◌else◌}
use bitsafe.Prelude.Bytes.{Bytes}
use bitsafe.Prelude.Texts.{text}
use bitsafe.Prelude.Results.{Result, ok, err}
use bitsafe.Sdk.{SdkError, internal}
use bitsafe.Sdk.Cache.{CacheEnvelope, serialize_envelope, parse_cache_envelope}
use bitsafe.Sdk.Client.{LoginState}
use bitsafe.Service.World.{
  Disk, File, missing, unreadable, holds, PersistedBackoff, Outside, WriteOutcome, done, refused,
  cut,
}

-- `OpenOptions…open(&path).and_then(write)`: the file after it, and whether it succeeded.
unfoldable pub write_file : {A : Type 0} → WriteOutcome → File A → A → File A × Bool
write_file done old new = (holds new, true)
write_file refused old new = (old, false)
write_file cut old new = (unreadable, false)

-- `remove_file`, whose errors are logged or ignored: the file stays where it fails.
unfoldable pub remove_file : {A : Type 0} → Bool → File A → File A
remove_file true old = missing
remove_file false old = old

-- A file that is not there or does not parse counts as no failed attempt.
abbrev read_backoff : File PersistedBackoff → ℕ × Option ℕ
read_backoff (holds b) = (b.attempts, b.last_attempt_epoch)
read_backoff _ = (0, none)

abbrev read_login : File LoginState → Result SdkError (Option LoginState)
read_login missing = ok none
read_login unreadable = err (internal (text "Failed to parse login state"))
read_login (holds login) = ok (some login)

abbrev parse_file : File Bytes → Result SdkError (Option CacheEnvelope)
parse_file missing = ok none
parse_file unreadable = err (internal (text "Failed to read cache"))
parse_file (holds bytes) = elim (parse_cache_envelope bytes) [ ok e ↦ ok (some e) | err e ↦ err e ]

module _ {C : Type 0} (o : Outside C) where
  unfoldable pub load_backoff : Disk → ℕ × Option ℕ
  load_backoff d = if o.data_dir then read_backoff d.backoff_file else (0, none)

  unfoldable pub save_backoff : ℕ → Option ℕ → Disk → Disk
  unfolding write_file
  save_backoff attempts last d =
      if o.data_dir
      then record d {
        backoff_file =
            (write_file o.writes d.backoff_file
              (record { attempts = attempts; last_attempt_epoch = last })).0;
      }
      else d

  unfoldable pub clear_backoff : Disk → Disk
  unfolding remove_file
  clear_backoff d =
      if o.data_dir then record d { backoff_file = remove_file o.removes d.backoff_file } else d

  saved : Disk → File LoginState × Bool → Result SdkError (Unit {0}) × Disk
  saved d (f, true) = (ok tt, record d { login_file = f })
  saved d (f, false) =
      (err (internal (text "Failed to write login.json")), record d { login_file = f })

  unfoldable pub save_login_state : LoginState → Disk → Result SdkError (Unit {0}) × Disk
  unfolding write_file saved
  save_login_state login d =
      if o.data_dir
      then saved d (write_file o.writes d.login_file login)
      else (err (internal (text "Cannot determine data directory")), d)

  unfoldable pub load_login_state : Disk → Result SdkError (Option LoginState)
  load_login_state d = if o.data_dir then read_login d.login_file else ok none

  unfoldable pub clear_login_state : Disk → Disk
  unfolding remove_file
  clear_login_state d =
      if o.data_dir then record d { login_file = remove_file o.removes d.login_file } else d

  unfoldable pub read_cache_file : Disk → Result SdkError (Option CacheEnvelope)
  read_cache_file d = if o.data_dir then parse_file d.cache_file else ok none

  -- An error is only logged by the callers, so the file after the write is all that it gives.
  unfoldable pub write_cache_file : CacheEnvelope → Disk → Disk
  unfolding write_file
  write_cache_file envelope d =
      if o.data_dir
      then elim (serialize_envelope envelope) [
        | err e ↦ d
        | ok bytes ↦ record d { cache_file = (write_file o.writes d.cache_file bytes).0 }
      ]
      else d

  unfoldable pub delete_cache_file : Disk → Disk
  unfolding remove_file
  delete_cache_file d =
      if o.data_dir then record d { cache_file = remove_file o.removes d.cache_file } else d

  -- keystore.rs: `platform_keystore()` and its entry.
  unfoldable pub load_cek : Disk → Result SdkError (Option Bytes)
  load_cek d = if o.keystore then elim o.cek_load [ some e ↦ err e | none ↦ ok d.cek ] else ok none

  unfoldable pub delete_cek : Disk → Disk
  delete_cek d =
      if o.keystore then elim o.cek_delete [ some e ↦ d | none ↦ record d { cek = none } ] else d
