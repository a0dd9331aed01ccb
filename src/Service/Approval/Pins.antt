-- ===== src/Service/Approval/Pins.antt =====
-- approval.rs: what a sequence of PINs does.
use bitsafe.Prelude.{ℕ, ◌+◌, ◌<◌, ◌≡◌, false, none, some, List, [], ◌∷◌, arith, length, All}
use bitsafe.Prelude.Texts.{Text}
use bitsafe.Service.World.{Session, World, Outside, locked, unlocked}
use bitsafe.Service.Approvals.{is_approved, clear, lookup}
use bitsafe.Service.State.{session_verify_pin, verify_pin, pin_attempts_exceeded, lock}
use bitsafe.Service.Approval.{try_pin, lock_anyway}

-- The session behind a wrong PIN.
abbrev pub after_wrong : Session → Session
after_wrong s = record s { pin_attempts = s.pin_attempts + 1 }

module _ {C : Type 0} (o : Outside C) where
  -- One PIN prompt after the other.
  pub try_pins : List Text → World C → World C
  try_pins [] w = w
  try_pins (pin ∷ rest) w = try_pins rest (try_pin o pin w).1

  pub record IsShut (w : World C) : Type 0 where
    pub state : w.service.vault_state ≡ locked
    pub session : w.service.session ≡ none
    pub approvals : (now key : ℕ) → is_approved now key w.service.approval_cache ≡ false

  third_wrong :
      (w : World C) (s : Session) (pin : Text)
      → w.service.vault_state ≡ unlocked
      → w.service.session ≡ some s
      → session_verify_pin s pin ≡ false
      → s.pin_attempts + 1 ≡ 3
      → IsShut (try_pin o pin w).1
  unfolding try_pin verify_pin pin_attempts_exceeded lock_anyway lock clear is_approved lookup
  third_wrong w s pin hu hs hw h3 = ground (arith, hu, hs, hw)

  early_wrong :
      (w : World C) (s : Session) (pin : Text)
      → w.service.vault_state ≡ unlocked
      → w.service.session ≡ some s
      → session_verify_pin s pin ≡ false
      → s.pin_attempts + 1 < 3
      → ((try_pin o pin w).1.service.vault_state ≡ unlocked)
        × ((try_pin o pin w).1.service.session ≡ some (after_wrong s))
  unfolding try_pin verify_pin pin_attempts_exceeded
  early_wrong w s pin hu hs hw h3 = ground (arith, hu, hs, hw)

  still_wrong :
      (s : Session) (pin : Text)
      → session_verify_pin s pin ≡ false
      → session_verify_pin (after_wrong s) pin ≡ false
  unfolding session_verify_pin
  still_wrong s pin h = h

  All-still_wrong :
      (s : Session) (pins : List Text)
      → All (λ pin. session_verify_pin s pin ≡ false) pins
      → All (λ pin. session_verify_pin (after_wrong s) pin ≡ false) pins
  All-still_wrong s [] h = tt
  All-still_wrong s (pin ∷ rest) (h, hs) = (still_wrong s pin h, All-still_wrong s rest hs)

  -- Wrong PINs, with no right one between them, lock an unlocked vault once there are three with
  -- those counted before: the session ends, and no scope is approved any more.
  pub wrong_pins_lock :
      (w : World C) (s : Session) (pin : Text) (rest : List Text)
      → w.service.vault_state ≡ unlocked
      → w.service.session ≡ some s
      → All (λ p. session_verify_pin s p ≡ false) (pin ∷ rest)
      → s.pin_attempts + length (pin ∷ rest) ≡ 3
      → IsShut (try_pins (pin ∷ rest) w)
  unfolding try_pins
  wrong_pins_lock w s pin [] hu hs (h, _) h3 = third_wrong w s pin hu hs h (omega arith)
  wrong_pins_lock w s pin (next ∷ rest) hu hs (h, wrong) h3 =
      let (hu', hs') = early_wrong w s pin hu hs h (omega arith) in
      wrong_pins_lock (try_pin o pin w).1 (after_wrong s) next rest hu' hs'
        (All-still_wrong s (next ∷ rest) wrong) (omega arith)
