-- ===== src/Service/Workers/Safe.antt =====
-- sync_worker.rs: the workers keep the invariant of `ServiceState`, whatever the other tasks do.
use bitsafe.Prelude.{ℕ, Option, none, some, List, arith}
use bitsafe.Prelude.Results.{Result, ok, err}
use bitsafe.Sdk.{SdkError}
use bitsafe.Protocol.Request.Json.{Value}
use bitsafe.Sdk.Act.Keeps.{Keeps, Keeps-pure}
use bitsafe.Service.World.{World, Outside}
use bitsafe.Service.State.{lock}
use bitsafe.Service.State.Consistent.{IsConsistent}
use bitsafe.Service.Unlock.{with_client}
use bitsafe.Service.Task.{Sys}
use bitsafe.Service.Task.Safe.{Safe, safe_rules}
use bitsafe.Service.Workers.{
  lock_if_idle, auto_lock_round, lock_if_unlocked, delete_cached, delete_key, handle_auth_revoked,
  synced, sync_reading, after_sync, sync_now, sync_reading_unlocked, background_sync_round,
}

module _ {C : Type 0} (o : Outside C) where
  lock_if_idle-IsConsistent : (w : World C) → IsConsistent w → IsConsistent (lock_if_idle o w)
  unfolding lock_if_idle lock
  lock_if_idle-IsConsistent w h = ground arith

  lock_if_unlocked-IsConsistent :
      (w : World C) → IsConsistent w → IsConsistent (lock_if_unlocked o w)
  unfolding lock_if_unlocked lock
  lock_if_unlocked-IsConsistent w h = ground arith

  delete_cached-IsConsistent : (w : World C) → IsConsistent w → IsConsistent (delete_cached o w)
  unfolding delete_cached
  delete_cached-IsConsistent w h = ground arith

  delete_key-IsConsistent : (w : World C) → IsConsistent w → IsConsistent (delete_key o w)
  unfolding delete_key
  delete_key-IsConsistent w h = ground arith

  synced-IsConsistent : (w : World C) → IsConsistent w → IsConsistent (synced o w)
  unfolding synced
  synced-IsConsistent w h = ground arith

  sync_reading-IsConsistent : (w : World C) → IsConsistent w → IsConsistent (sync_reading o w).1
  unfolding sync_reading with_client
  sync_reading-IsConsistent w h = ground arith

  sync_reading_unlocked-IsConsistent :
      (w : World C) → IsConsistent w → IsConsistent (sync_reading_unlocked o w).1
  unfolding sync_reading_unlocked with_client
  sync_reading_unlocked-IsConsistent w h = ground arith

  handle_auth_revoked-Safe :
      {E : Type 0} → Keeps (Safe IsConsistent) (handle_auth_revoked o {E = E})
  unfolding handle_auth_revoked
  handle_auth_revoked-Safe =
      search
        (
          safe_rules, delete_cached-IsConsistent, delete_key-IsConsistent,
          lock_if_unlocked-IsConsistent,
        )
        depth 12

  after_sync-Safe :
      (r : Option (Result SdkError (List Value))) → Keeps (Safe IsConsistent) (after_sync o r)
  unfolding after_sync
  after_sync-Safe none = Keeps-pure none
  after_sync-Safe (some (ok ciphers)) = search (safe_rules, synced-IsConsistent) depth 10
  after_sync-Safe (some (err SdkError.auth_revoked)) =
      search (safe_rules, handle_auth_revoked-Safe) depth 10
  after_sync-Safe (some (err SdkError.vault_locked)) = Keeps-pure none
  after_sync-Safe (some (err SdkError.not_logged_in)) = Keeps-pure none
  after_sync-Safe (some (err (SdkError.auth_failed m))) = Keeps-pure none
  after_sync-Safe (some (err (SdkError.sync_failed m))) = Keeps-pure none
  after_sync-Safe (some (err (SdkError.not_found m))) = Keeps-pure none
  after_sync-Safe (some (err (SdkError.internal m))) = Keeps-pure none

  auto_lock_round-Safe : Keeps (Safe IsConsistent) (auto_lock_round o)
  unfolding auto_lock_round
  auto_lock_round-Safe = search (safe_rules, lock_if_idle-IsConsistent) depth 10

  sync_now-Safe : Keeps (Safe IsConsistent) (sync_now o)
  unfolding sync_now
  sync_now-Safe = search (safe_rules, sync_reading-IsConsistent, after_sync-Safe) depth 10

  background_sync_round-Safe : Keeps (Safe IsConsistent) (background_sync_round o)
  unfolding background_sync_round
  background_sync_round-Safe =
      search (safe_rules, sync_reading_unlocked-IsConsistent, after_sync-Safe) depth 10

  -- A round of the auto-lock worker, of the sync worker and of a sync behind an unlock each leaves
  -- the state consistent, provided that it was and that the other tasks keep it so; also where the
  -- server has revoked the login.
  pub workers-IsConsistent :
      (s : Sys C)
      → IsConsistent s.world
      → ((n : ℕ) (w : World C) → IsConsistent w → IsConsistent (s.others n w))
      → IsConsistent (auto_lock_round o s).1.world
        × IsConsistent (background_sync_round o s).1.world
        × IsConsistent (sync_now o s).1.world
  workers-IsConsistent s h others =
      let safe : Safe IsConsistent s = record { holds = h; kept = others } in
      (
        (auto_lock_round-Safe.at s safe).holds,
        (background_sync_round-Safe.at s safe).holds,
        (sync_now-Safe.at s safe).holds,
      )
