-- ===== src/Service/Task.antt =====
-- The tasks that tokio runs, over the state that they share. A task is a sequence of critical
-- sections, each under the lock or on an atomic. Before each one the other tasks do whatever they
-- do, and time passes: `others n` is what happens before the n-th.
pub mod Safe
pub mod Replies
use bitsafe.Prelude.{ℕ, suc, Bool, true, false}
use bitsafe.Prelude.Results.{Result, ok, err}
use bitsafe.Sdk.Act.{Steps, Act}
use bitsafe.Service.World.{World}

pub record Sys (C : Type 0) : Type 0 where
  pub world : World C
  pub others : ℕ → World C → World C

abbrev pub Task : Type 0 → Type 0 → Type 0 → Type 0
Task C E A = Steps E (Sys C) A

-- A function of the source that returns `A`: its early returns are returns.
abbrev pub returned : {A : Type 0} → Result A A → A
returned (ok a) = a
returned (err a) = a

module _ {C A : Type 0} where
  section : (World C → A × World C) → Sys C → A × Sys C
  section f s =
      let (a, w) = f (s.others 0 s.world) in
      (a, record { world = w; others = λ n. s.others (suc n) })

module _ {C E A : Type 0} where
  unfoldable pub critical : (World C → A × World C) → Task C E A
  unfolding section
  critical f s = let (a, s') = section f s in (ok a, s')

  -- `state.read().await`
  unfoldable pub reading : (World C → A) → Task C E A
  unfolding critical
  reading f = critical (λ w. (f w, w))

  -- A call of an async function of the source.
  unfoldable pub call : Task C A A → Task C E A
  call m s = let (r, s') = m s in (ok (returned r), s')

module _ {C E : Type 0} where
  unfoldable pub writing : (World C → World C) → Task C E (Unit {0})
  unfolding critical
  writing f = critical (λ w. (tt, f w))

  -- `return`
  unfoldable pub return_if : Bool → E → Task C E (Unit {0})
  return_if true e s = (err e, s)
  return_if false e s = (ok tt, s)
