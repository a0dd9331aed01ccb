-- ===== src/Service/State/Pins.antt =====
-- state.rs: PINs, their attempts and the lock behind too many.
use bitsafe.Prelude.{◌≡◌, ◌↔◌, ap, true, some, arith, length, All}
use bitsafe.Prelude.Texts.{Text}
use bitsafe.Prelude.ConstantTime.{IsByte, fold_difference_iff}
use bitsafe.Service.World.{Session}
use bitsafe.Service.State.{session_verify_pin}

-- A PIN is accepted exactly if it is the stored one, byte for byte; without a stored PIN none is.
pub session_verify_pin_iff :
    (s : Session) (stored candidate : Text)
    → s.pin ≡ some stored
    → All IsByte stored
    → All IsByte candidate
    → (session_verify_pin s candidate ≡ true) ↔ (stored ≡ candidate)
unfolding session_verify_pin
session_verify_pin_iff s stored candidate h hs hc = (
  λ e.
      let size : length stored ≡ length candidate = ground arith in
      (fold_difference_iff stored candidate hs hc size).0 (ground arith),
  λ e.
      let size : length stored ≡ length candidate = ap length e in
      let zeroed = (fold_difference_iff stored candidate hs hc size).1 e in ground arith,
)
