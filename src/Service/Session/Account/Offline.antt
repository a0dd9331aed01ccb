-- ===== src/Service/Session/Account/Offline.antt =====
-- session.rs and crates/grimoire-sdk/src/auth.rs: a login while the server cannot be reached.
use bitsafe.Prelude.{ℕ, ◌≡◌, refl, true, Option, ◌++◌}
use bitsafe.Prelude.Texts.{Text, text}
use bitsafe.Prelude.Results.{err}
use bitsafe.Protocol.Request.{LoginParams}
use bitsafe.Protocol.Response.{failure, auth_failed}
use bitsafe.Sdk.Auth.{AuthClient}
use bitsafe.Sdk.Grimoire.{SdkLibraries, grimoire_client}
use bitsafe.Sdk.Sync.{SyncNetwork}
use bitsafe.Sdk.Auth.Token.{unreachable, login-unreachable}
use bitsafe.Service.World.{World, Outside, is_logged_out}
use bitsafe.Service.State.{login, url_or_default, record_password_failure}
use bitsafe.Service.Session.Account.{login_locked, answer_attempt}

module _ {P E : Type 0} (l : SdkLibraries P E) (sync_network : SyncNetwork)
    (o : Outside (AuthClient P)) (e : Text) where
  abbrev pub offline : Outside (AuthClient P)
  offline = record o { client = grimoire_client l (unreachable e) sync_network }

  -- A login that fails because the server cannot be reached is counted as a wrong master password,
  -- whatever the password is, provided that the service is logged out.
  pub login_locked-unreachable :
      (id : Option ℕ) (p : LoginParams) (password : Text) (w : World (AuthClient P))
      → is_logged_out w.service.vault_state ≡ true
      → login_locked offline id p password w ≡ (
        err (failure id (auth_failed (text "Cannot reach server: " ++ e))),
        record_password_failure offline w,
      )
  unfolding login_locked answer_attempt login
  login_locked-unreachable id p password w h =
      rw
        (
          h,
          login-unreachable l.auth e p.email password (url_or_default offline p.server_url)
              (offline.client.new (url_or_default offline p.server_url)),
        )
        refl
