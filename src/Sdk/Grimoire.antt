-- ===== src/Sdk/Grimoire.antt =====
-- crates/grimoire-sdk/src/lib.rs: `GrimoireClient`, whose sub-clients share the SDK's client and the
-- token. What `new` registers with the SDK's client is a parameter.
use bitsafe.Prelude.{none, ◌++◌}
use bitsafe.Prelude.Strings.{trim_end_matches}
use bitsafe.Prelude.Texts.{Text, text}
use bitsafe.Sdk.Auth
use bitsafe.Sdk.Auth.{AuthLibraries, AuthClient}
use bitsafe.Sdk.Auth.Prelogin.{Network}
use bitsafe.Sdk.Client.{Client}
use bitsafe.Sdk.Ssh
use bitsafe.Sdk.Ssh.{SshLibraries}
use bitsafe.Sdk.Sync
use bitsafe.Sdk.Sync.{SyncLibraries, SyncNetwork}
use bitsafe.Sdk.Vault
use bitsafe.Sdk.Vault.{PasswordManager}
use bitsafe.Sdk.Vault.Uris.{ListsNoUris, list-NoUris}

-- `new_manager identity_url api_url` is the SDK's client with its database and repositories.
pub record SdkLibraries (P E : Type 0) : Type 1 where
  pub new_manager : Text → Text → P
  pub auth : AuthLibraries P E
  pub sync : SyncLibraries P
  pub vault : PasswordManager P
  pub ssh : SshLibraries P

module _ {P E : Type 0} (l : SdkLibraries P E) where
  pub new : Text → AuthClient P
  new server_url =
      let url = trim_end_matches b'/' server_url in
      record {
        client = l.new_manager (url ++ text "/identity") (url ++ text "/api");
        access_token = none;
      }

  -- What the service calls, while the network answers so.
  abbrev pub grimoire_client : Network → SyncNetwork → Client (AuthClient P)
  grimoire_client network sync_network = record {
    new = new;
    login = λ s email password url. Auth.login l.auth network email password url s;
    unlock = λ s password state. Auth.unlock l.auth network password state s;
    verify_password =
        λ s email password url. Auth.verify_credentials l.auth network email password url s;
    derive_password_hash = Auth.derive_password_hash l.auth;
    init_crypto_from_cache =
        λ s password kdf cache. Auth.init_crypto_from_cache l.auth password kdf cache s;
    populate_from_cache = λ s ciphers. Sync.populate_from_cache l.sync ciphers s;
    sync = λ s url. Sync.sync l.sync sync_network url s;
    list = λ s filter. Vault.list l.vault s.client filter;
    get = λ s id. Vault.get l.vault s.client id;
    totp = λ s id. Vault.totp l.vault s.client id;
    list_keys = λ s. Ssh.list_keys l.ssh s.client;
    sign = λ s key bytes flags. Ssh.sign l.ssh s.client key bytes flags;
  }

  pub grimoire_client-ListsNoUris :
      (network : Network) (sync_network : SyncNetwork)
      → ListsNoUris (grimoire_client network sync_network)
  grimoire_client-ListsNoUris network sync_network = record {
    no_uris = λ s filter items h. list-NoUris l.vault s.client filter items h;
  }
