-- ===== src/Service/Approvals.antt =====
-- state.rs: `ApprovalCache`, over the instant at which it is asked.
use bitsafe.Prelude.{
  ℕ, ◌+◌, ◌≡◌, refl, Bool, false, Option, none, some, List, [], ◌∷◌, arith, ltb, ◌==◌,
  if◌then◌else◌,
}
use bitsafe.Service.World.{Instant, ApprovalCache}

-- `HashMap::get` and `HashMap::insert`.
unfoldable pub lookup : ℕ → List (ℕ × Instant) → Option Instant
lookup key [] = none
lookup key ((k, v) ∷ rest) = if k == key then some v else lookup key rest

unfoldable pub insert : ℕ → Instant → List (ℕ × Instant) → List (ℕ × Instant)
insert key v [] = (key, v) ∷ []
insert key v ((k, w) ∷ rest) = if k == key then (key, v) ∷ rest else (k, w) ∷ insert key v rest

pub lookup-insert :
    (key other : ℕ) (v : Instant) (m : List (ℕ × Instant))
    → lookup other (insert key v m) ≡ (if key == other then some v else lookup other m)
unfolding lookup insert
lookup-insert key other v [] = refl
lookup-insert key other v ((k, w) ∷ rest) = ground (arith, lookup-insert key other v rest)

abbrev pub empty_cache : ApprovalCache
empty_cache = record { grants = [] }

abbrev before_expiry : Instant → Option Instant → Bool
before_expiry now none = false
before_expiry now (some expiry) = ltb now expiry

unfoldable pub is_approved : Instant → ℕ → ApprovalCache → Bool
unfolding lookup
is_approved now scope_key c = before_expiry now (lookup scope_key c.grants)

unfoldable pub grant : Instant → ℕ → ℕ → ApprovalCache → ApprovalCache
unfolding insert
grant now scope_key duration c = record { grants = insert scope_key (now + duration) c.grants }

-- `clear`
unfoldable pub clear : ApprovalCache → ApprovalCache
clear c = empty_cache

-- Behind a grant its scope is approved exactly until the grant ends, whatever was granted to the
-- scope before, and every other scope is approved exactly if it was.
pub is_approved-grant :
    (granted now scope_key other duration : ℕ) (c : ApprovalCache)
    → is_approved now other (grant granted scope_key duration c)
      ≡ (if scope_key == other then ltb now (granted + duration) else is_approved now other c)
unfolding is_approved grant
is_approved-grant granted now scope_key other duration c =
    ground (arith, lookup-insert scope_key other (granted + duration) c.grants)

-- Behind a clear no scope is approved, at any time.
pub is_approved-clear :
    (now scope_key : ℕ) (c : ApprovalCache) → is_approved now scope_key (clear c) ≡ false
unfolding is_approved clear
is_approved-clear now scope_key c = refl
