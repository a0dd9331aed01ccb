-- ===== src/Prelude/Results.antt =====
-- `Result` with its `?` as bind, error first.
use mathlib.Core.Path.{◌≡◌, refl}
use mathlib.Core.Bool.{Bool, true, false}
use mathlib.Core.Option.{Option, none, some}
use mathlib.Core.Logic.{◌⊎◌, inl, inr}

pub data Result {ℓ} (E A : Type ℓ) : Type ℓ where
  ok : A → Result E A
  err : E → Result E A

infixl 5 ◌>>=◌ ◌>>◌
abbrev pub ◌>>=◌ {ℓ} : {E A B : Type ℓ} → Result E A → (A → Result E B) → Result E B
ok a >>= f = f a
err e >>= f = err e

abbrev pub ◌>>◌ : {E B : Type 0} → Result E (Unit {0}) → Result E B → Result E B
m >> k = m >>= λ _. k

abbrev pub map_err {ℓ} : {E F A : Type ℓ} → (E → F) → Result E A → Result F A
map_err f (ok a) = ok a
map_err f (err e) = err (f e)

-- `ok_or`
abbrev pub ok_or {ℓ} : {E A : Type ℓ} → E → Option A → Result E A
ok_or e none = err e
ok_or e (some a) = ok a

-- `if failed { return Err(e) }`
abbrev pub reject_if : {E : Type 0} → Bool → E → Result E (Unit {0})
reject_if true e = err e
reject_if false e = ok tt

pub ok-injective {ℓ} : {E A : Type ℓ} {a b : A} → (let r : Result E A = ok a in r) ≡ ok b → a ≡ b
ok-injective h = cc

pub Result-cases {ℓ} :
    {E A : Type ℓ} (r : Result E A) → ((a : A) × (r ≡ ok a)) ⊎ ((e : E) × (r ≡ err e))
Result-cases (ok a) = inl (a, refl)
Result-cases (err e) = inr (e, refl)

-- Where a bind succeeds, both of its parts do.
pub >>=-eq-ok {ℓ} :
    {E A B : Type ℓ} (r : Result E A) (next : A → Result E B) {last : B}
    → (r >>= next) ≡ ok last
    → (a : A) × (r ≡ ok a) × (next a ≡ ok last)
>>=-eq-ok (err failed) next done = cc
>>=-eq-ok (ok a) next done = (a, refl, done)

pub map_err-eq-ok {ℓ} :
    {E F A : Type ℓ} {a : A} (f : E → F) (r : Result E A) → map_err f r ≡ ok a → r ≡ ok a
map_err-eq-ok f (ok b) h = cc
map_err-eq-ok f (err e) h = absurd (cc)

pub ok_or-eq-ok {ℓ} : {E A : Type ℓ} {a : A} (e : E) (r : Option A) → ok_or e r ≡ ok a → r ≡ some a
ok_or-eq-ok e (some b) h = cc
ok_or-eq-ok e none h = absurd (cc)
