-- ===== src/Service/SshAgent/Gate.antt =====
-- ssh_agent.rs: connections that were turned away.
use bitsafe.Prelude.{ℕ, ◌≡◌, ◌≢◌, refl, true, Option, some, arith, []}
use bitsafe.Prelude.Texts.{text}
use bitsafe.Prelude.Results.{ok, err}
use bitsafe.Sdk.Act.{◌>>=◌}
use bitsafe.Service.World.{Outside}
use bitsafe.Service.Task.{Sys, return_if}
use bitsafe.Service.SshAgent.{SignRequest, new_session, request_identities, sign}
use bitsafe.Service.SshAgent.Signature.{SshLibrary}

other_user :
    (my_uid uid : ℕ) (pid : Option ℕ)
    → uid ≢ my_uid
    → (new_session my_uid (some (uid, pid))).rejected ≡ true
unfolding new_session
other_user my_uid uid pid h = ground arith

module _ {C : Type 0} (o : Outside C) where
  -- A connection of another user sees no key and signs nothing, whatever the state of the vault: the
  -- requests end before their first look at the state.
  pub other_user_refused :
      {Sig : Type 0} (lib : SshLibrary Sig) (my_uid uid : ℕ) (pid : Option ℕ) (r : SignRequest)
      (s : Sys C)
      → uid ≢ my_uid
      → let a = new_session my_uid (some (uid, pid)) in
        (request_identities o a s ≡ (err (ok []), s))
        × (sign o lib a r s ≡ (err (err (text "Connection rejected")), s))
  unfolding request_identities sign ◌>>=◌ return_if
  other_user_refused lib my_uid uid pid r s h = rw (other_user my_uid uid pid h) (refl, refl)
