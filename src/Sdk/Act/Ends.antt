-- ===== src/Sdk/Act/Ends.antt =====
-- What actions end with: the values that they return, and those that they leave with early.
use bitsafe.Prelude.{◌≡◌, refl, Bool, true, false, if◌then◌else◌}
use bitsafe.Prelude.Results.{Result, ok, err}
use bitsafe.Sdk.Act.{Steps, pure, raise, lift, ◌>>=◌, continue}

-- An early return satisfies `L`, and a value satisfies `V`.
abbrev pub Outcome : {E A : Type 0} → (E → Type 0) → (A → Type 0) → Result E A → Type 0
Outcome L V (ok a) = V a
Outcome L V (err e) = L e

abbrev pub Anything : {A : Type 0} → A → Type 0
Anything a = Unit

pub record Ends {E S A : Type 0} (L : E → Type 0) (V : A → Type 0) (m : Steps E S A) : Type 0 where
  pub from : (s : S) → Outcome L V (m s).0

module _ {E S A : Type 0} {L : E → Type 0} {V : A → Type 0} where
  pub Ends-raise : (e : E) → L e → Ends {S = S} L V (raise e)
  unfolding raise
  Ends-raise e left = record { from = λ s. left }

  pub Ends-pure : (a : A) → V a → Ends {S = S} L V (pure a)
  unfolding pure
  Ends-pure a value = record { from = λ s. value }

  pub Ends-if :
      (test : Bool) (m n : Steps E S A) → Ends L V m → Ends L V n → Ends L V (if test then m else n)
  Ends-if false m n hm hn = hn
  Ends-if true m n hm hn = hm

module _ {E S A B : Type 0} {L : E → Type 0} {W : A → Type 0} {V : B → Type 0} where
  continue-Ends :
      (next : A → Steps E S B)
      → ((a : A) → W a → Ends L V (next a))
      → (r : Result E A) (s : S) → Outcome L W r
      → Outcome L V (continue r next s).0
  continue-Ends next rest (ok a) s value = (rest a value).from s
  continue-Ends next rest (err e) s left = left

  -- Where the first part gives values that satisfy `W`, the rest has only these to deal with.
  pub Ends-bind_value :
      (first : Steps E S A) (next : A → Steps E S B)
      → Ends L W first
      → ((a : A) → W a → Ends L V (next a))
      → Ends L V (first >>= next)
  unfolding ◌>>=◌
  Ends-bind_value first next given rest = record {
    from = λ s. let (r, after) = first s in continue-Ends next rest r after (given.from s);
  }

module _ {E S A B : Type 0} {L : E → Type 0} {V : B → Type 0} where
  pub Ends-bind :
      (first : Steps E S A) (next : A → Steps E S B)
      → Ends L Anything first
      → ((a : A) → Ends L V (next a))
      → Ends L V (first >>= next)
  Ends-bind first next given rest = Ends-bind_value first next given (λ a _. rest a)

pub ruleset ends_rules = (Ends-pure, Ends-raise, Ends-if, Ends-bind)

module _ {E S A : Type 0} where
  pub Ends-any : (m : Steps E S A) → Ends Anything Anything m
  Ends-any m = record { from = λ s. outcome (m s).0 }
    where
      outcome : (r : Result E A) → Outcome Anything Anything r
      outcome (ok a) = tt
      outcome (err e) = tt

  pub Ends-lift :
      {V : A → Type 0} (r : Result E A)
      → ((a : A) → r ≡ ok a → V a)
      → Ends {S = S} Anything V (lift r)
  unfolding lift
  Ends-lift (ok a) h = record { from = λ s. h a refl }
  Ends-lift (err e) h = record { from = λ s. tt }
