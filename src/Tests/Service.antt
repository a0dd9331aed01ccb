-- ===== src/Tests/Service.antt =====
-- The service on a concrete state.
use bitsafe.Prelude.{◌*◌, ◌≡◌, refl, true, none, some, List, [], ◌∷◌, arith, replicate}
use bitsafe.Prelude.Texts.{Text, text}
use bitsafe.Prelude.Results.{ok, err}
use bitsafe.Sdk.{auth_failed, not_found}
use bitsafe.Sdk.Client.{Client}
use bitsafe.Sdk.Cache.Floor.{Kdf}
use bitsafe.Service.Prompt.{PromptMethod}
use bitsafe.Service.World.{unlocked, Disk, World, Outside, missing, second, done}
use bitsafe.Protocol.Request.{Request}
use bitsafe.Service.State.Consistent.{IsConsistent, lock-IsConsistent}
use bitsafe.Service.State.Lifecycle.{IsLockOf, lock_lem}
use bitsafe.Service.Task.{Sys}
use bitsafe.Service.Session.{dispatch}
use bitsafe.Service.Session.Safe.{dispatch-IsConsistent}
use bitsafe.Service.State.{
  lock, logout, master_password_backoff_remaining, record_password_failure, start,
}
use bitsafe.Service.State.Backoff.{remaining-documented, remaining-restart}
use bitsafe.Tests.Sdk.{test_libraries}

-- A client that is its list of server URLs, for which the password is `pass`.
abbrev pub test_client : Client (List Text)
test_client = record {
  new = λ url. url ∷ [];
  login = λ c email password url. (ok (record { email = email; server_url = url }), c);
  unlock = λ c password login. (
    ok (record {
      kdf = Kdf.pbkdf2 600000;
      encrypted_user_key = text "key";
      encrypted_private_key = text "private";
      user_id = none;
      password_hash = password;
    }),
    c,
  );
  verify_password = λ c email password url. (err (auth_failed (text "Wrong")), c);
  derive_password_hash = λ password kdf email. ok password;
  init_crypto_from_cache = λ c password kdf cache. (ok tt, c);
  populate_from_cache = λ c ciphers. (ok tt, c);
  sync = λ c url. (ok [], c);
  list = λ c filter. ok [];
  get = λ c id. err (not_found id);
  totp = λ c id. err (not_found id);
  list_keys = λ c. ok [];
  sign = λ c key bytes flags. err (not_found key);
}

abbrev pub test_outside : Outside (List Text)
test_outside = record {
  client = test_client;
  libraries = test_libraries;
  run = λ method ask. err (text "No prompt");
  session_leader = λ pid. some pid;
  timely = true;
  data_dir = true;
  writes = done;
  removes = true;
  keystore = true;
  cek_load = none;
  cek_store = none;
  cek_delete = none;
  random_cek = replicate 32 3;
  random_nonce = replicate 24 5;
  public_key_of = λ key. none;
}

abbrev empty_disk : Disk
empty_disk = record {
  login_file = missing;
  backoff_file = missing;
  cache_file = missing;
  cek = none;
}

-- 100 seconds after the earliest instant; the second wrong password was one second ago.
abbrev pub open_world : World (List Text)
open_world = record {
  service = record {
    vault_state = unlocked;
    email = some (text "a@b");
    server_url = some (text "https://b");
    last_sync = none;
    last_activity = 95 * second;
    session = some (record { pin = some (text "1234"); pin_attempts = 2 });
    prompt_method = PromptMethod.auto;
    approval_cache = record { grants = (42, 90 * second) ∷ [] };
    master_password_attempts = 2;
    last_password_attempt = some (99 * second);
    sdk = some (text "https://b" ∷ []);
    login_state = some (record { email = text "a@b"; server_url = text "https://b" });
  };
  disk = empty_disk;
  now = 100 * second;
  epoch = 1700000000;
  unknown_scope = 4294967295;
  spawned_syncs = 0;
}

remaining-documented_example : master_password_backoff_remaining open_world ≡ 0
remaining-documented_example = remaining-documented open_world (99 * second) refl

remaining-restart_example :
    master_password_backoff_remaining (
      start test_outside PromptMethod.auto
        (record_password_failure test_outside open_world).disk
        (50 * second)
        1700000001)
    ≡ 1
remaining-restart_example =
    remaining-restart test_outside open_world PromptMethod.auto (50 * second) 1700000001 refl refl
      (omega arith) (omega arith) (omega arith)

pub open_world-IsConsistent : IsConsistent open_world
open_world-IsConsistent = record {
  email = refl;
  server_url = refl;
  sdk = refl;
  login_state = refl;
  session = refl;
  attempts = unfold text in omega arith;
}

-- While a request is served, the others lock the vault before each of its steps.
abbrev pub locking : Sys (List Text)
locking = record { world = open_world; others = λ n w. (lock test_outside w).1 }

abbrev pub list_request : Request
list_request = record { id = some 7; method = text "vault.list"; params = none }

dispatch-IsConsistent_example :
    IsConsistent (dispatch test_outside list_request (some 42) locking).1.world
dispatch-IsConsistent_example =
    dispatch-IsConsistent test_outside list_request (some 42) locking open_world-IsConsistent
      (λ n w h. lock-IsConsistent test_outside w h)

lock_lem_example :
    ((lock test_outside open_world).0 ≡ ok tt)
    × IsLockOf test_outside open_world (lock test_outside open_world).1 (text "https://b")
lock_lem_example = lock_lem test_outside open_world (text "https://b") refl refl

abbrev gone : World (List Text)
gone = (logout test_outside open_world).1
