-- ===== src/Service/Approval/Scope.antt =====
-- session.rs: the scope keys of peers whose process is not known.
use bitsafe.Prelude.{ℕ, zero, suc, ◌+◌, ◌-◌, ◌%◌, ◌^◌, ◌<◌, ◌≡◌, ◌≢◌, none, arith}
use bitsafe.Service.World.{World, Outside}
use bitsafe.Service.Approval.{resolve_scope_key}

module _ {C : Type 0} (o : Outside C) where
  -- The state behind some further requests of such peers.
  pub requests : ℕ → World C → World C
  requests zero w = w
  requests (suc n) w = requests n (resolve_scope_key o none w).1

  abbrev pub key_of : World C → ℕ
  key_of w = (resolve_scope_key o none w).0

  counted_down :
      (n : ℕ) (w : World C)
      → w.unknown_scope < 2 ^ 32
      → n < 2 ^ 32
      → (requests n w).unknown_scope ≡ (w.unknown_scope + (2 ^ 32 - n)) % 2 ^ 32
  unfolding requests resolve_scope_key
  counted_down zero w h hn = omega arith
  counted_down (suc n) w h hn =
      omega (arith, counted_down n (resolve_scope_key o none w).1 (omega arith) (omega arith))

  -- Two requests of peers whose process is not known have different scope keys, also on the same
  -- connection, as long as fewer than 2^32 such keys are drawn from the one to the other.
  pub unknown_keys_differ :
      (n : ℕ) (w : World C)
      → w.unknown_scope < 2 ^ 32
      → suc n < 2 ^ 32
      → key_of w ≢ key_of (requests (suc n) w)
  unfolding resolve_scope_key
  unknown_keys_differ n w h hn e = absurd (omega (arith, counted_down (suc n) w h hn))
