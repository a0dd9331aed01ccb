-- ===== src/Service/Workers/AutoLock.antt =====
-- sync_worker.rs: when the auto-lock worker locks.
use bitsafe.Prelude.{◌+◌, ◌*◌, ◌≤◌, ◌<◌, ◌≡◌, true, false, some, arith}
use bitsafe.Prelude.Texts.{Text}
use bitsafe.Sdk.Act.{◌>>=◌}
use bitsafe.Service.World.{World, Outside, unlocked, second}
use bitsafe.Service.State.Lifecycle.{IsLockOf, lock_lem}
use bitsafe.Service.Task.{Sys, writing, reading, critical, return_if}
use bitsafe.Service.Workers.{is_idle, lock_if_idle, auto_lock_round}

module _ {C : Type 0} (o : Outside C) where
  -- The state at the first test of a round, and at the second.
  abbrev pub first_test : Sys C → World C
  first_test s = s.others 0 s.world

  abbrev pub second_test : Sys C → World C
  second_test s = s.others 1 (first_test s)

  -- Unlocked, and without an operation for 900 seconds.
  pub record IsIdle (w : World C) : Type 0 where
    pub state : w.service.vault_state ≡ unlocked
    pub quiet : w.service.last_activity + 900 * second ≤ w.now

  IsIdle-is_idle : (w : World C) → IsIdle w → is_idle o w ≡ true
  unfolding is_idle
  IsIdle-is_idle w h = ground (arith, h.state, h.quiet)

  active-is_idle :
      (w : World C) → w.now < w.service.last_activity + 900 * second → is_idle o w ≡ false
  unfolding is_idle
  active-is_idle w h = ground arith

  -- An unlocked vault that has been idle for 900 seconds, at both tests of a round of the worker, is
  -- locked by the round, with everything that a lock drops.
  pub auto_lock_round-IsIdle :
      (s : Sys C) (url : Text)
      → IsIdle (first_test s)
      → IsIdle (second_test s)
      → (second_test s).service.server_url ≡ some url
      → IsLockOf o (second_test s) (auto_lock_round o s).1.world url
  unfolding auto_lock_round ◌>>=◌ reading writing critical return_if lock_if_idle
  auto_lock_round-IsIdle s url first again hu =
      rw (IsIdle-is_idle (first_test s) first, IsIdle-is_idle (second_test s) again)
        (lock_lem o (second_test s) url again.state hu).1

  -- An operation that renews the timer between the two tests of a round saves the vault from it: the
  -- round leaves the state as it was at the second test.
  pub auto_lock_round-active :
      (s : Sys C)
      → IsIdle (first_test s)
      → (second_test s).now < (second_test s).service.last_activity + 900 * second
      → (auto_lock_round o s).1.world ≡ second_test s
  unfolding auto_lock_round ◌>>=◌ reading writing critical return_if lock_if_idle
  auto_lock_round-active s first active =
      rw (IsIdle-is_idle (first_test s) first, active-is_idle (second_test s) active)
