-- ===== src/Sdk/Act.antt =====
-- Operations on the state under one lock that may fail: `async fn … -> Result<…, SdkError>`. What
-- was written before an error stays written.
pub mod Keeps
pub mod Ends
use bitsafe.Prelude.{Bool, true, false}
use bitsafe.Prelude.Results.{Result, ok, err}
use bitsafe.Sdk.{SdkError}

-- `E` is what an action leaves with: an error, or the value of an early `return`.
abbrev pub Steps : Type 0 → Type 0 → Type 0 → Type 0
Steps E S A = S → Result E A × S

abbrev pub Act : Type 0 → Type 0 → Type 0
Act = Steps SdkError

module _ {E S A : Type 0} where
  unfoldable pub pure : A → Steps E S A
  pure a s = (ok a, s)

  unfoldable pub raise : E → Steps E S A
  raise e s = (err e, s)

  pub lift : Result E A → Steps E S A
  lift r s = (r, s)

  pub gets : (S → A) → Steps E S A
  gets f s = (ok (f s), s)

  -- A call that never fails.
  pub update : (S → A × S) → Steps E S A
  update f s = let (a, s') = f s in (ok a, s')

  -- The result of a call that may fail, as a value: `match f().await { … }`.
  pub attempt : {F : Type 0} → Steps F S A → Steps E S (Result F A)
  attempt m s = let (r, s') = m s in (ok r, s')

module _ {E S : Type 0} where
  pub modify : (S → S) → Steps E S (Unit {0})
  modify f s = (ok tt, f s)

  pub require : (S → Bool) → E → Steps E S (Unit {0})
  require test e s = elim (test s) [ true ↦ (ok tt, s) | false ↦ (err e, s) ]

module _ {E S A B : Type 0} where
  abbrev pub continue : Result E A → (A → Steps E S B) → Steps E S B
  continue (ok a) f s = f a s
  continue (err e) f s = (err e, s)

  infixl 10 ◌>>=◌ ◌>>◌
  -- Opening this opens the actions above too.
  unfoldable pub ◌>>=◌ : Steps E S A → (A → Steps E S B) → Steps E S B
  unfolding pure raise lift gets update attempt modify require
  ◌>>=◌ m f s = let (r, s') = m s in continue r f s'

  abbrev pub ◌>>◌ : Steps E S A → Steps E S B → Steps E S B
  m >> n = m >>= λ _. n
