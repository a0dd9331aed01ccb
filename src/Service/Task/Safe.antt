-- ===== src/Service/Task/Safe.antt =====
-- Invariants of tasks: if the other tasks keep `P`, so does this one.
use bitsafe.Prelude.{ℕ, suc, Bool, true, false}
use bitsafe.Sdk.Act.Keeps.{Keeps, keeps_rules}
use bitsafe.Service.World.{World}
use bitsafe.Service.Task.{Sys, Task, critical, reading, writing, call, return_if}

-- `P` holds, and the other tasks keep it.
pub record Safe {C : Type 0} (P : World C → Type 0) (s : Sys C) : Type 0 where
  pub holds : P s.world
  pub kept : (n : ℕ) (w : World C) → P w → P (s.others n w)

module _ {C E A : Type 0} {P : World C → Type 0} where
  pub Safe-critical :
      (f : World C → A × World C)
      → ((w : World C) → P w → P (f w).1)
      → Keeps (Safe P) (critical {E = E} f)
  unfolding critical
  Safe-critical f h = record {
    at = λ s safe. record {
      holds = h _ (safe.kept 0 s.world safe.holds);
      kept = λ n. safe.kept (suc n);
    };
  }

  pub Safe-reading : (f : World C → A) → Keeps (Safe P) (reading {E = E} f)
  unfolding reading
  Safe-reading f = Safe-critical (λ w. (f w, w)) (λ w h. h)

  pub Safe-call : (m : Task C A A) → Keeps (Safe P) m → Keeps (Safe P) (call {E = E} m)
  unfolding call
  Safe-call m h = record { at = h.at }

module _ {C E : Type 0} {P : World C → Type 0} where
  pub Safe-writing :
      (f : World C → World C) → ((w : World C) → P w → P (f w)) → Keeps (Safe P) (writing {E = E} f)
  unfolding writing
  Safe-writing f h = Safe-critical (λ w. (tt, f w)) h

  pub Safe-return_if : (b : Bool) (e : E) → Keeps (Safe P) (return_if b e)
  unfolding return_if
  Safe-return_if true e = record { at = λ s h. h }
  Safe-return_if false e = record { at = λ s h. h }

pub ruleset safe_rules =
    (keeps_rules, Safe-critical, Safe-reading, Safe-call, Safe-writing, Safe-return_if)
