-- ===== src/Service/Workers.antt =====
-- crates/grimoire-service/src/sync_worker.rs: one round of each worker. `update_cache_if_changed`
-- only reads and logs.
pub mod Safe
pub mod AutoLock
use bitsafe.Prelude.{
  ℕ, ◌-◌, ◌*◌, Bool, true, false, not, ◌&&◌, Option, none, some, List, leb, if◌then◌else◌,
}
use bitsafe.Prelude.Texts.{Text}
use bitsafe.Prelude.Results.{Result, ok, err}
use bitsafe.Sdk.{SdkError, auth_revoked}
use bitsafe.Sdk.Client.{Client}
use bitsafe.Protocol.Request.Json.{Value}
use bitsafe.Sdk.Act.{pure, raise, ◌>>=◌, ◌>>◌}
use bitsafe.Service.World.{
  ServiceState, Disk, World, Outside, second, auto_lock_seconds, is_unlocked,
}
use bitsafe.Service.Persist.{delete_cache_file, delete_cek}
use bitsafe.Service.State.{lock}
use bitsafe.Service.Unlock.{with_client}
use bitsafe.Service.Task.{Sys, Task, critical, reading, writing, return_if}

module _ {C : Type 0} (o : Outside C) where
  -- Unlocked, and `last_activity.elapsed() >= timeout`.
  unfoldable pub is_idle : World C → Bool
  is_idle w =
      is_unlocked w.service.vault_state
      && leb (auto_lock_seconds * second) (w.now - w.service.last_activity)

  lock_if_idle : World C → World C
  unfolding is_idle
  lock_if_idle w = if is_idle w then (lock o w).1 else w

  -- A round of `auto_lock_worker`, with its test under the read lock and again under the write lock.
  pub auto_lock_round : Task C (Unit {0}) (Unit {0})
  unfolding is_idle lock_if_idle
  auto_lock_round = do
    should_lock ← reading is_idle
    return_if (not should_lock) tt
    writing lock_if_idle

  lock_if_unlocked : World C → World C
  lock_if_unlocked w = if is_unlocked w.service.vault_state then (lock o w).1 else w

  -- The files go without the lock.
  delete_cached : World C → World C
  delete_cached w = record w { disk = delete_cache_file o w.disk }

  delete_key : World C → World C
  delete_key w = record w { disk = delete_cek o w.disk }

  pub handle_auth_revoked : {E : Type 0} → Task C E (Unit {0})
  unfolding lock_if_unlocked delete_cached delete_key
  handle_auth_revoked = do writing delete_cached; writing delete_key; writing lock_if_unlocked

  synced : World C → World C
  synced w = record w { service = record w.service { last_sync = some w.epoch } }

  sync_with : Option C → Option Text → World C → Option (Result SdkError (List Value)) × World C
  sync_with (some sdk) (some url) w =
      let (r, w') = with_client (λ c. o.client.sync c url) sdk w in (some r, w')
  sync_with _ _ w = (none, w)

  sync_reading : World C → Option (Result SdkError (List Value)) × World C
  unfolding sync_with
  sync_reading w = sync_with w.service.sdk w.service.server_url w

  after_sync :
      Option (Result SdkError (List Value)) → Task C (Option (List Value)) (Option (List Value))
  unfolding synced handle_auth_revoked
  after_sync none = pure none
  after_sync (some (ok ciphers)) = do writing synced; pure (some ciphers)
  after_sync (some (err auth_revoked)) = do handle_auth_revoked; pure none
  after_sync (some (err e)) = pure none

  pub sync_now : Task C (Option (List Value)) (Option (List Value))
  unfolding sync_reading after_sync
  sync_now = do r ← critical sync_reading; after_sync r

  sync_reading_unlocked : World C → Option (Result SdkError (List Value)) × World C
  unfolding sync_reading
  sync_reading_unlocked w =
      if not (is_unlocked w.service.vault_state) then (none, w) else sync_reading w

  -- A round of `background_sync_worker`: what a sync does, and only while unlocked.
  pub background_sync_round : Task C (Option (List Value)) (Option (List Value))
  unfolding sync_reading_unlocked after_sync
  background_sync_round = do r ← critical sync_reading_unlocked; after_sync r
