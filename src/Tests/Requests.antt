-- ===== src/Tests/Requests.antt =====
-- Requests and workers on a concrete state.
use bitsafe.Prelude.{
  ℕ, zero, suc, ◌+◌, ◌*◌, ◌≡◌, ◌≢◌, refl, true, false, none, some, inl, inr, Option, List, [], ◌∷◌,
  arith,
}
use bitsafe.Prelude.Texts.{Text, text}
use bitsafe.Prelude.ConstantTime.{fold_difference}
use bitsafe.Prelude.Results.{err}
use bitsafe.Protocol.Request.{Request, RequestParams, method_of}
use bitsafe.Protocol.Request.Json.{string, object, field, stop}
use bitsafe.Protocol.Request.Untagged.{deserialize_params}
use bitsafe.Protocol.Response.{Response, failure, invalid_params, vault_locked}
use bitsafe.Service.Prompt.{PromptMethod, prompt_biometric, prompt_pin, prompt_password}
use bitsafe.Service.World.{World, Outside, Session, second, locked}
use bitsafe.Service.Approvals.{is_approved}
use bitsafe.Service.State.{touch, lock, session_verify_pin}
use bitsafe.Service.State.Consistent.{IsConsistent, lock-IsConsistent}
use bitsafe.Service.State.Lifecycle.{IsLockOf}
use bitsafe.Service.Task.{Sys, returned}
use bitsafe.Service.Task.Replies.{IsReply}
use bitsafe.Service.Approval.{resolve_scope_key}
use bitsafe.Service.Approval.Scope.{key_of, requests, unknown_keys_differ}
use bitsafe.Service.Approval.Pins.{IsShut, try_pins, wrong_pins_lock}
use bitsafe.Service.Approval.Denied.{IsStranger, alone}
use bitsafe.Service.Session.{dispatch, requires_approval}
use bitsafe.Service.Session.Attempts.{Waits, AllRefused, dispatch_all, dispatch_all-AllRefused}
use bitsafe.Service.Session.Items.{handle_vault_totp}
use bitsafe.Service.Session.Items.Replies.{handle_vault_totp-sent}
use bitsafe.Service.Session.Replies.{dispatch-IsReply}
use bitsafe.Service.Session.Gate.{at_gate, dispatch-locked, dispatch-IsStranger}
use bitsafe.Service.Workers.{auto_lock_round, background_sync_round, sync_now}
use bitsafe.Service.Workers.Safe.{workers-IsConsistent}
use bitsafe.Service.Workers.AutoLock.{IsIdle, auto_lock_round-IsIdle}
use bitsafe.Tests.Service.{test_outside, open_world, open_world-IsConsistent, locking, list_request}

dispatch-IsReply_example :
    IsReply (some 7) (returned (dispatch test_outside list_request (some 42) locking).0)
dispatch-IsReply_example = dispatch-IsReply test_outside list_request (some 42) locking

list_is_gated : requires_approval (method_of (text "vault.list")) ≡ true
unfolding requires_approval method_of
list_is_gated = refl

locked_at_gate : (at_gate test_outside locking).service.vault_state ≡ locked
unfolding lock touch
locked_at_gate = refl

dispatch-locked_example :
    (returned (dispatch test_outside list_request (some 42) locking).0
      ≡ failure (some 7) vault_locked)
    × ((dispatch test_outside list_request (some 42) locking).1.world
        ≡ at_gate test_outside locking)
dispatch-locked_example =
    dispatch-locked test_outside list_request (some 42) locking list_is_gated
      (unfold lock touch in refl)

no_approval :
    is_approved open_world.now
      (resolve_scope_key test_outside (some 43) open_world).0
      open_world.service.approval_cache
    ≡ false
unfolding is_approved resolve_scope_key
no_approval = refl

nobody_prompts : IsStranger test_outside PromptMethod.auto (touch open_world)
unfolding prompt_biometric prompt_pin prompt_password
nobody_prompts = record {
  biometric = λ h. cc;
  pin = λ attempt candidate h. cc;
  password = λ candidate h. cc;
}

dispatch-IsStranger_example :
    (returned (dispatch test_outside list_request (some 43) (alone open_world)).0).result ≡ none
dispatch-IsStranger_example =
    dispatch-IsStranger test_outside list_request 43 open_world list_is_gated refl no_approval
      nobody_prompts

-- The third failure was at this instant, so that two seconds remain.
abbrev delayed : World (List Text)
delayed = record open_world {
  service = record open_world.service {
    master_password_attempts = 3;
    last_password_attempt = some (100 * second);
  };
}

-- One second later: one second of the delay is left, whatever the others do.
abbrev waiting : Sys (List Text)
waiting = record { world = delayed; others = λ n w. record w { now = 101 * second } }

waiting-Waits : Waits (100 * second) (100 * second + 2 * second) waiting
waiting-Waits = record {
  keeps_service = λ n w. refl;
  keeps_disk = λ n w. refl;
  from_last = λ n w. omega arith;
  before_end = λ n w. omega arith;
}

-- An unlock and a login with passwords, and an authorization without one.
abbrev three_attempts : List (Request × Option ℕ)
three_attempts =
    (
      record {
        id = some 1;
        method = text "auth.unlock";
        params = some (RequestParams.unlock (some (text "pass")));
      },
      some 42,
    )
    ∷ (
      record {
        id = some 2;
        method = text "auth.login";
        params = some (
            RequestParams.login
              (record { email = text "a@b"; password = some (text "pass"); server_url = none }));
      },
      some 42,
    )
    ∷ (record { id = some 3; method = text "auth.authorize"; params = none }, none)
    ∷ []

dispatch_all-AllRefused_example :
    (responses : List Response) × (s' : Sys (List Text)) × ((o : Outside (List Text))
      → dispatch_all o three_attempts waiting ≡ (responses, s'))
    × AllRefused three_attempts responses
    × (s'.world.service ≡ delayed.service)
    × (s'.world.disk ≡ delayed.disk)
dispatch_all-AllRefused_example =
    dispatch_all-AllRefused three_attempts waiting (100 * second) refl waiting-Waits
      (inr (inl refl), (inl refl, (inr (inr refl), tt)))

abbrev two_wrong : Session
two_wrong = record { pin = some (text "1234"); pin_attempts = 2 }

wrong_pin : session_verify_pin two_wrong (text "1235") ≡ false
unfolding session_verify_pin fold_difference text
wrong_pin = refl

wrong_pins_lock_example : IsShut test_outside (try_pins test_outside (text "1235" ∷ []) open_world)
wrong_pins_lock_example =
    wrong_pins_lock test_outside open_world two_wrong (text "1235") [] refl refl (wrong_pin, tt)
      (omega arith)

workers-IsConsistent_example :
    IsConsistent (auto_lock_round test_outside locking).1.world
    × IsConsistent (background_sync_round test_outside locking).1.world
    × IsConsistent (sync_now test_outside locking).1.world
workers-IsConsistent_example =
    workers-IsConsistent test_outside locking open_world-IsConsistent
      (λ n w h. lock-IsConsistent test_outside w h)

-- A thousand seconds after the last operation.
abbrev forgotten : World (List Text)
forgotten = record open_world { now = 1095 * second }

forgotten-IsIdle : IsIdle test_outside forgotten
forgotten-IsIdle = record { state = refl; quiet = omega arith }

auto_lock_round-IsIdle_example :
    IsLockOf test_outside forgotten
      (auto_lock_round test_outside (alone forgotten)).1.world
      (text "https://b")
auto_lock_round-IsIdle_example =
    auto_lock_round-IsIdle test_outside (alone forgotten) (text "https://b") forgotten-IsIdle
      forgotten-IsIdle refl

-- An operation runs before the second test.
abbrev touched_between : ℕ → World (List Text) → World (List Text)
touched_between zero w = w
touched_between (suc n) w = touch w

abbrev saved : Sys (List Text)
saved = record { world = forgotten; others = touched_between }

handle_vault_totp-sent_example :
    handle_vault_totp test_outside
      (some 3)
      (deserialize_params (object (field (text "id") (string (text "x")) stop)))
      (alone open_world)
    ≡ (err (failure (some 3) (invalid_params (text "Expected {id}"))), alone open_world)
handle_vault_totp-sent_example =
    handle_vault_totp-sent test_outside (some 3)
      (object (field (text "id") (string (text "x")) stop)) (alone open_world)

unknown_keys_differ_example :
    key_of test_outside open_world ≢ key_of test_outside (requests test_outside 1 open_world)
unknown_keys_differ_example =
    unknown_keys_differ test_outside 0 open_world (omega arith) (omega arith)
