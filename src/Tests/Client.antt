-- ===== src/Tests/Client.antt =====
-- The SDK client on concrete answers.
use bitsafe.Prelude.{
  ℕ, ◌*◌, ◌≡◌, refl, arith, true, some, none, List, [], ◌∷◌, replicate, ◌++◌, length, ltb,
  if◌then◌else◌,
}
use bitsafe.Prelude.Bytes.{Bytes}
use bitsafe.Prelude.Strings.{trim_end_matches}
use bitsafe.Prelude.Texts.{Text, text, text_eq}
use bitsafe.Prelude.Results.{Result, ok, err}
use bitsafe.Protocol.Request.{LoginParams}
use bitsafe.Protocol.Request.Json.{Value, string, object, array, nil, cons, field, stop, get_field}
use bitsafe.Protocol.Response.{pos, failure, auth_failed}
use bitsafe.Sdk.Act.{◌>>=◌}
use bitsafe.Sdk.Auth.{
  AuthLibraries, AuthClient, InitUserCryptoRequest, auth_and_init_crypto, verify_credentials,
  derive_password_hash,
}
use bitsafe.Sdk.Auth.Limits.{AgreesWithin, with_libraries, auth_and_init_crypto-agrees}
use bitsafe.Sdk.Auth.Prelogin.{Network, Reply, prelogin}
use bitsafe.Sdk.Auth.TokenRequest.{token_of}
use bitsafe.Sdk.Auth.Prelogin.Limits.{IsBounded}
use bitsafe.Sdk.Cache.Floor.{Kdf}
use bitsafe.Sdk.Vault.{PasswordManager, login_view}
use bitsafe.Sdk.{SdkError}
use bitsafe.Sdk.Grimoire
use bitsafe.Sdk.Grimoire.{SdkLibraries, grimoire_client}
use bitsafe.Sdk.Ssh.{
  SshLibraries, RsaNumbers, ed25519, rsa, sign_rsa, sign_with_key, encode_ssh_signature,
}
use bitsafe.Sdk.Sync.{SyncLibraries, SyncNetwork, sync}
use bitsafe.Sdk.Sync.Replay.{Synced, sync-Restores}
use bitsafe.Service.Prompt.{PromptMethod}
use bitsafe.Service.World.{World, Outside, missing, second, done, unlocked, locked}
use bitsafe.Service.State.{record_password_failure, start, login}
use bitsafe.Service.Persist.{load_login_state}
use bitsafe.Service.State.Lifecycle.{server_of, on_network, login-start}
use bitsafe.Service.SshAgent.Signature.Signed.{
  ShortSignatures, KnownNames, ReadsAs, sign_with_key-ReadsAs,
}
use bitsafe.Service.Session.Account.{login_locked}
use bitsafe.Service.Session.Account.Offline.{offline, login_locked-unreachable}
use bitsafe.Tests.Sdk.{test_libraries}
use bitsafe.Tests.SshAgent.{pairs}

-- A hash that is the password, keys that are texts, and crypto that always starts.
abbrev text_libraries : AuthLibraries ℕ Text
text_libraries = record {
  derive = λ password kdf email. ok password;
  parse_enc_string = λ s. ok s;
  parse_user_id = λ s. some s;
  decode_url_safe = λ s. some s;
  from_slice = λ bytes. none;
  encode_form = λ pairs. ok (text "form");
  initialize_user_crypto = λ client request. (ok tt, client);
}

-- The same within the limits; beyond them nothing is derived.
abbrev careful_derive : Text → Kdf → Text → Result Text Text
careful_derive password (Kdf.pbkdf2 iterations) email =
    if ltb 2000000 iterations then err (text "too many") else ok password
careful_derive password (Kdf.argon2id iterations memory parallelism) email = ok password

abbrev always_starts : ℕ → InitUserCryptoRequest Text → Result Text (Unit {0}) × ℕ
always_starts client request = (ok tt, client)

careful-eq :
    (password email : Text) (kdf : Kdf)
    → IsBounded kdf
    → text_libraries.derive password kdf email ≡ careful_derive password kdf email
careful-eq password email (Kdf.pbkdf2 iterations) h = ground arith
careful-eq password email (Kdf.argon2id iterations memory parallelism) h = refl

careful : AgreesWithin text_libraries careful_derive always_starts
careful = record { derives = careful-eq; initializes = λ client request h. refl }

-- A server that asks for three million iterations.
abbrev greedy_reply : Reply
greedy_reply = record {
  is_success = true;
  status = text "200 OK";
  json = ok (record {
    as_i64 = λ name. if text_eq name (text "kdfIterations") then some (pos 3000000) else none;
    as_str = λ name. none;
  });
  token_response = err (text "no token");
}

abbrev fresh : AuthClient ℕ
fresh = record { client = 0; access_token = none }

auth_and_init_crypto-agrees_example :
    let careful_libraries = with_libraries text_libraries careful_derive always_starts in
    (auth_and_init_crypto text_libraries
        (λ request. ok greedy_reply)
        (text "a@b")
        (text "pass")
        (text "https://b/")
        fresh
      ≡ auth_and_init_crypto careful_libraries
          (λ request. ok greedy_reply)
          (text "a@b")
          (text "pass")
          (text "https://b/")
          fresh)
    × (verify_credentials text_libraries
          (λ request. ok greedy_reply)
          (text "a@b")
          (text "pass")
          (text "https://b/")
          fresh
        ≡ verify_credentials careful_libraries
            (λ request. ok greedy_reply)
            (text "a@b")
            (text "pass")
            (text "https://b/")
            fresh)
auth_and_init_crypto-agrees_example =
    auth_and_init_crypto-agrees text_libraries careful_derive always_starts careful
      (λ request. ok greedy_reply) (text "a@b") (text "pass") (text "https://b/") fresh

-- A repository that is the number of its ciphers, which are texts with themselves as identifiers.
abbrev counting : SyncLibraries ℕ
counting = record {
  Model = Value;
  Cipher = Text;
  from_value = λ v. ok v;
  try_from = λ v. ok (text "id");
  id_of = λ c. some c;
  repository = λ p. ok tt;
  replace_all = λ p ciphers. (ok tt, length ciphers);
  to_string = λ v. some (text "{}");
}

-- Signatures that are the data behind the key's first byte.
abbrev toy_keys : SshLibraries ℕ
toy_keys = record {
  RsaKey = Bytes;
  get_all = λ c. ok [];
  get = λ c id. err (text "missing");
  from_openssh = λ s. ok (ed25519 s);
  sign_ed25519 = λ key bytes. replicate 64 1;
  from_components = λ numbers. ok numbers.n;
  sign_sha512 = λ key bytes. replicate 256 2;
  sign_sha256 = λ key bytes. replicate 256 3;
}

-- A vault of one login.
abbrev one_login : PasswordManager ℕ
one_login = record {
  list = λ c. ok (
      record { id = some (text "a"); name = text "GitHub"; kind = login_view; subtitle = text "me" }
      ∷ []);
  get = λ c id. err (text "missing");
  generate_totp = λ c key. ok (text "123456");
  to_lowercase = λ s. s;
}

abbrev pub test_sdk : SdkLibraries ℕ Text
test_sdk = record {
  new_manager = λ identity_url api_url. 0;
  auth = text_libraries;
  sync = counting;
  vault = one_login;
  ssh = toy_keys;
}

abbrev pub no_network : Network
no_network request = err (text "timeout")

abbrev pub no_sync : SyncNetwork
no_sync request = err (text "timeout")

-- A service without an account, and one that is unlocked and approved, whose vault client is
-- `GrimoireClient`.
abbrev pub auth_outside : Outside (AuthClient ℕ)
auth_outside = record {
  client = grimoire_client test_sdk no_network no_sync;
  libraries = test_libraries;
  run = λ method ask. err (text "No prompt");
  session_leader = λ pid. some pid;
  timely = true;
  data_dir = true;
  writes = done;
  removes = true;
  keystore = true;
  cek_load = none;
  cek_store = none;
  cek_delete = none;
  random_cek = replicate 32 3;
  random_nonce = replicate 24 5;
  public_key_of = λ key. none;
}

abbrev no_account : World (AuthClient ℕ)
no_account =
    start auth_outside PromptMethod.auto
      (record { login_file = missing; backoff_file = missing; cache_file = missing; cek = none })
      (5 * second) 1700000000

abbrev pub open_account : World (AuthClient ℕ)
open_account = record no_account {
  service = record no_account.service {
    vault_state = unlocked;
    email = some (text "a@b");
    server_url = some (text "https://b");
    approval_cache = record { grants = (42, 4 * second) ∷ [] };
    sdk = some fresh;
    login_state = some (record { email = text "a@b"; server_url = text "https://b" });
  };
}

abbrev login_params : LoginParams
login_params = record { email = text "a@b"; password = some (text "pass"); server_url = none }

login_locked-unreachable_example :
    login_locked
      (offline test_sdk no_sync auth_outside (text "timeout"))
      (some 7)
      login_params
      (text "pass")
      no_account
    ≡ (
      err (failure (some 7) (auth_failed (text "Cannot reach server: " ++ text "timeout"))),
      record_password_failure (offline test_sdk no_sync auth_outside (text "timeout")) no_account,
    )
login_locked-unreachable_example =
    login_locked-unreachable test_sdk no_sync auth_outside (text "timeout") (some 7) login_params
      (text "pass") no_account (unfold start in refl)

-- A server that asks for 600000 iterations and accepts every password.
abbrev welcome_reply : Reply
welcome_reply = record {
  is_success = true;
  status = text "200 OK";
  json = ok (record {
    as_i64 = λ name. if text_eq name (text "kdfIterations") then some (pos 600000) else none;
    as_str = λ name. none;
  });
  token_response = ok (record { access_token = text "t"; key = none; private_key = none });
}

abbrev welcome : Network
welcome request = ok welcome_reply

welcomed :
    (verify_credentials text_libraries welcome
      (text "c@d")
      (text "pass")
      (server_of none)
      (Grimoire.new test_sdk (server_of none))).0
    ≡ ok tt
unfolding verify_credentials ◌>>=◌ prelogin text_eq text derive_password_hash token_of
welcomed = refl

abbrev entered : Result SdkError (Unit {0}) × World (AuthClient ℕ)
entered =
    login (on_network test_sdk welcome no_sync auth_outside) (text "c@d") (text "pass") none
      no_account

abbrev again : World (AuthClient ℕ)
again =
    start (on_network test_sdk welcome no_sync auth_outside) PromptMethod.auto entered.1.disk 7 8

login-start_example :
    (entered.0 ≡ ok tt)
    × (entered.1.service.vault_state ≡ locked)
    × (entered.1.service.email ≡ some (text "c@d"))
    × (entered.1.service.server_url ≡ some (server_of none))
    × (again.service.vault_state ≡ locked)
    × (again.service.email ≡ some (text "c@d"))
    × (again.service.server_url ≡ some (server_of none))
    × (again.service.login_state
        ≡ some (record { email = text "c@d"; server_url = server_of none }))
login-start_example =
    login-start test_sdk welcome no_sync auth_outside (text "c@d") (text "pass") none no_account
      PromptMethod.auto 7 8 (unfold start load_login_state in refl) welcomed refl refl

abbrev one_cipher : Value
one_cipher = object (field (text "data") (object stop) stop)

abbrev answered : SyncNetwork
answered request = ok (record {
  status = 200;
  status_text = text "200 OK";
  is_success = true;
  json = ok (object (field (text "ciphers") (array (cons one_cipher nil)) stop));
})

abbrev with_token : AuthClient ℕ
with_token = record { client = 0; access_token = some (text "token") }

abbrev patched : List Value
patched = object (field (text "data") (string (text "{}")) stop) ∷ []

synced :
    sync counting answered (text "https://b") with_token
    ≡ (ok patched, record { client = 1; access_token = some (text "token") })
unfolding sync text text_eq get_field ◌>>=◌ trim_end_matches
synced = refl

sync-Restores_example :
    Synced counting with_token answered
      (text "https://b")
      patched
      (record { client = 1; access_token = some (text "token") })
sync-Restores_example =
    sync-Restores counting with_token answered (text "https://b") patched
      (record { client = 1; access_token = some (text "token") }) synced

short_signatures : ShortSignatures toy_keys pairs
short_signatures = record {
  short_ed25519 = λ key bytes. omega arith;
  short_sha512 = λ key bytes. omega arith;
  short_sha256 = λ key bytes. omega arith;
}

abbrev known_names : KnownNames toy_keys pairs
known_names = record {
  ed25519_name = text "ssh-ed25519";
  sha512_name = text "rsa-sha2-512";
  sha256_name = text "rsa-sha2-256";
  knows_ed25519 = record { utf8 = refl; known = refl };
  knows_sha512 = record { utf8 = refl; known = refl };
  knows_sha256 = record { utf8 = refl; known = refl };
}

abbrev rsa_numbers : RsaNumbers
rsa_numbers = record { n = 3 ∷ []; e = 5 ∷ []; d = 7 ∷ []; p = 11 ∷ []; q = 13 ∷ [] }

-- The flags ask for SHA-512.
sign_with_key-ReadsAs_example :
    ReadsAs toy_keys pairs known_names
      (rsa rsa_numbers)
      (text "signed")
      4
      (encode_ssh_signature (text "rsa-sha2-512") (replicate 256 2))
sign_with_key-ReadsAs_example =
    sign_with_key-ReadsAs toy_keys pairs short_signatures known_names (rsa rsa_numbers)
      (text "signed") 4 (encode_ssh_signature (text "rsa-sha2-512") (replicate 256 2))
      (unfold sign_with_key sign_rsa in refl)
