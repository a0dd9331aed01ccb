-- ===== src/Sdk/Act/Keeps.antt =====
-- Invariants of actions, one rule for each way to build one.
use bitsafe.Prelude.{arith, Bool, true, false, if◌then◌else◌}
use bitsafe.Prelude.Results.{Result, ok, err}
use bitsafe.Sdk.Act.{
  Steps, pure, raise, lift, gets, update, attempt, modify, require, ◌>>=◌, continue,
}

-- `m` keeps `P`, whether it returns or fails.
pub record Keeps {E S A : Type 0} (P : S → Type 0) (m : Steps E S A) : Type 0 where
  pub at : (s : S) → P s → P (m s).1

module _ {E S A : Type 0} {P : S → Type 0} where
  pub Keeps-attempt : {F : Type 0} (m : Steps F S A) → Keeps P m → Keeps P (attempt {E = E} m)
  unfolding attempt
  Keeps-attempt m h = record { at = h.at }

  pub Keeps-gets : (f : S → A) → Keeps P (gets {E = E} f)
  unfolding gets
  Keeps-gets f = record { at = λ state kept. kept }

  pub Keeps-update : (f : S → A × S) → ((s : S) → P s → P (f s).1) → Keeps P (update {E = E} f)
  unfolding update
  Keeps-update f h = record { at = h }

  pub Keeps-raise : (e : E) → Keeps P (raise {A = A} e)
  unfolding raise
  Keeps-raise e = record { at = λ state kept. kept }

  pub Keeps-if :
      (b : Bool) (m n : Steps E S A) → Keeps P m → Keeps P n → Keeps P (if b then m else n)
  Keeps-if true m n km kn = km
  Keeps-if false m n km kn = kn

  pub Keeps-lift : (r : Result E A) → Keeps P (lift r)
  unfolding lift
  Keeps-lift r = record { at = λ state kept. kept }

  pub Keeps-pure : (a : A) → Keeps P (pure {E = E} a)
  unfolding pure
  Keeps-pure a = record { at = λ state kept. kept }

module _ {E S : Type 0} {P : S → Type 0} where
  pub Keeps-modify : (f : S → S) → ((s : S) → P s → P (f s)) → Keeps P (modify {E = E} f)
  unfolding modify
  Keeps-modify f h = record { at = h }

  pub Keeps-require : (test : S → Bool) (e : E) → Keeps P (require test e)
  unfolding require
  Keeps-require test e = record { at = λ s h. ground arith }

module _ {E S A B : Type 0} {P : S → Type 0} where
  continue-keeps :
      (next : A → Steps E S B)
      → ((a : A) → Keeps P (next a))
      → (r : Result E A) (s : S) → P s
      → P (continue r next s).1
  continue-keeps next kept (err e) s h = h
  continue-keeps next kept (ok a) s h = (kept a).at s h

  pub Keeps-bind :
      (first : Steps E S A) (next : A → Steps E S B)
      → Keeps P first
      → ((a : A) → Keeps P (next a))
      → Keeps P (first >>= next)
  unfolding ◌>>=◌
  Keeps-bind first next kept rest = record {
    at = λ s h. let (r, after) = first s in continue-keeps next rest r after (kept.at s h);
  }

pub ruleset keeps_rules =
    (Keeps-pure, Keeps-raise, Keeps-lift, Keeps-gets, Keeps-attempt, Keeps-if, Keeps-bind)
