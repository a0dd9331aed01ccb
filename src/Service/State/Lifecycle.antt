-- ===== src/Service/State/Lifecycle.antt =====
-- state.rs and persist.rs: locking, logging out and logging in, and what a restart makes of them.
use bitsafe.Prelude.{ℕ, ◌≡◌, true, false, Option, none, some, arith, refl}
use bitsafe.Prelude.Texts.{Text, text}
use bitsafe.Prelude.Results.{ok}
use bitsafe.Sdk.Act.{pure, ◌>>=◌}
use bitsafe.Sdk.Auth
use bitsafe.Sdk.Auth.{AuthClient}
use bitsafe.Sdk.Auth.Prelogin.{Network}
use bitsafe.Sdk.Grimoire
use bitsafe.Sdk.Grimoire.{SdkLibraries, grimoire_client}
use bitsafe.Sdk.Sync.{SyncNetwork}
use bitsafe.Service.Prompt.{PromptMethod}
use bitsafe.Service.World.{World, Outside, logged_out, locked, unlocked, done}
use bitsafe.Service.Approvals.{is_approved, lookup, clear}
use bitsafe.Service.Persist.{save_login_state, load_login_state}
use bitsafe.Service.State.{lock, login, start}

module _ {C : Type 0} (o : Outside C) where
  -- What a lock leaves: the account and the files, and a client made anew.
  pub record IsLockOf (w w' : World C) (url : Text) : Type 0 where
    pub vault_state : w'.service.vault_state ≡ locked
    pub session : w'.service.session ≡ none
    pub sdk : w'.service.sdk ≡ some (o.client.new url)
    pub approvals :
        (now scope_key : ℕ) → is_approved now scope_key w'.service.approval_cache ≡ false
    pub email : w'.service.email ≡ w.service.email
    pub server_url : w'.service.server_url ≡ some url
    pub login_state : w'.service.login_state ≡ w.service.login_state
    pub disk : w'.disk ≡ w.disk

  -- Locking an unlocked vault succeeds and leaves nothing that was unlocked: the client is a new
  -- one for the same server, there is no PIN and no approval of any scope at any time; the account
  -- and the files stay.
  pub lock_lem :
      (w : World C) (url : Text)
      → w.service.vault_state ≡ unlocked
      → w.service.server_url ≡ some url
      → ((lock o w).0 ≡ ok tt) × IsLockOf w (lock o w).1 url
  unfolding lock clear is_approved lookup
  lock_lem w url hs hu = ground (arith, hs, hu)

-- The server that a login without a URL is for.
abbrev pub server_of : Option Text → Text
server_of none = text "https://vault.bitwarden.com"
server_of (some url) = url

module _ {P E : Type 0} (l : SdkLibraries P E) (network : Network) (sync_network : SyncNetwork)
    (o : Outside (AuthClient P)) where
  -- A service whose vault client is `GrimoireClient` on a network.
  abbrev pub on_network : Outside (AuthClient P)
  on_network = record o { client = grimoire_client l network sync_network }

  -- `AuthClient::login` returns what it was called with.
  login-verified :
      (email password url : Text) (s : AuthClient P)
      → (Auth.verify_credentials l.auth network email password url s).0 ≡ ok tt
      → (Auth.login l.auth network email password url s).0
        ≡ ok (record { email = email; server_url = url })
  unfolding Auth.login ◌>>=◌ pure
  login-verified email password url s h = rw h refl

  -- A login of the service through `GrimoireClient`, with a server URL or without one, whose
  -- credentials the server accepts, where the service is logged out and login.json can be written:
  -- it locks the vault under the new account, at the default server if no URL was given, and the
  -- service that starts again on the files is locked under the same account.
  pub login-start :
      (email password : Text) (server_url : Option Text) (w : World (AuthClient P))
      (method : PromptMethod) (now epoch : ℕ)
      → w.service.vault_state ≡ logged_out
      → (Auth.verify_credentials l.auth network email password
          (server_of server_url)
          (Grimoire.new l (server_of server_url))).0
        ≡ ok tt
      → o.data_dir ≡ true
      → o.writes ≡ done
      → let w' = (login on_network email password server_url w).1 in
        let again = start on_network method w'.disk now epoch in
        ((login on_network email password server_url w).0 ≡ ok tt)
        × (w'.service.vault_state ≡ locked)
        × (w'.service.email ≡ some email)
        × (w'.service.server_url ≡ some (server_of server_url))
        × (again.service.vault_state ≡ locked)
        × (again.service.email ≡ some email)
        × (again.service.server_url ≡ some (server_of server_url))
        × (again.service.login_state
            ≡ some (record { email = email; server_url = server_of server_url }))
  unfolding login save_login_state load_login_state start
  login-start email password none w method now epoch hs hok hd hw =
      rw (hs, hd, hw, login-verified email password (server_of none) _ hok) (ground arith)
  login-start email password (some url) w method now epoch hs hok hd hw =
      rw (hs, hd, hw, login-verified email password url _ hok) (ground arith)
