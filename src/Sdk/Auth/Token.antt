-- ===== src/Sdk/Auth/Token.antt =====
-- auth.rs: what a login or a verified password leaves in the token store.
use bitsafe.Prelude.{◌≡◌, refl, sym, subst, some, ◌++◌}
use bitsafe.Prelude.Texts.{Text, text}
use bitsafe.Prelude.Results.{Result, ok, err}
use bitsafe.Sdk.{SdkError, auth_failed}
use bitsafe.Sdk.Act.{Act, modify, pure, ◌>>=◌, ◌>>◌, continue}
use bitsafe.Sdk.Act.Keeps.{Keeps, Keeps-bind, Keeps-lift}
use bitsafe.Sdk.Auth.{
  AuthLibraries, AuthClient, authenticate, login_token_request, verify_credentials, login, trimmed,
}
use bitsafe.Sdk.Auth.Prelogin.{Network, prelogin}

module _ {P : Type 0} where
  -- An error leaves the client as it was; a success stores a token, and nothing else.
  abbrev pub StoresToken : {A : Type 0} → AuthClient P → Result SdkError A × AuthClient P → Type 0
  StoresToken s (err e, s') = s' ≡ s
  StoresToken s (ok a, s') = (token : Text) × (s' ≡ record s { access_token = some token })

  continue-StoresToken :
      {A B : Type 0} (r : Result SdkError A) (next : A → Act (AuthClient P) B) (s : AuthClient P)
      → ((a : A) → StoresToken s (next a s))
      → StoresToken s (continue r next s)
  continue-StoresToken (ok a) next s h = h a
  continue-StoresToken (err e) next s h = refl

  -- A first part that leaves the client alone.
  bind-StoresToken :
      {A B : Type 0} (first : Act (AuthClient P) A) (next : A → Act (AuthClient P) B)
      (s : AuthClient P)
      → Keeps (λ s'. s' ≡ s) first
      → ((a : A) → StoresToken s (next a s))
      → StoresToken s ((first >>= next) s)
  unfolding ◌>>=◌
  bind-StoresToken first next s kept h =
      subst (λ s'. StoresToken s (continue (first s).0 next s')) (sym (kept.at s refl))
        (continue-StoresToken (first s).0 next s h)

  store-StoresToken :
      {A : Type 0} (token : Text) (a : A) (s : AuthClient P)
      → StoresToken s ((modify (λ c. record c { access_token = some token }) >> pure a) s)
  unfolding ◌>>=◌
  store-StoresToken token a s = (token, refl)

  pure-StoresToken :
      {A B : Type 0} (f : A → B) (s s' : AuthClient P) (r : Result SdkError A)
      → StoresToken s (r, s')
      → StoresToken s (continue r (λ a. pure (f a)) s')
  unfolding pure
  pure-StoresToken f s s' (ok a) h = h
  pure-StoresToken f s s' (err e) h = h

  then_pure :
      {A B : Type 0} (f : A → B) (s : AuthClient P) (m : Act (AuthClient P) A)
      → StoresToken s (m s)
      → StoresToken s ((m >>= λ a. pure (f a)) s)
  unfolding ◌>>=◌
  then_pure f s m h = pure-StoresToken f s (m s).1 (m s).0 h

module _ {P E : Type 0} (l : AuthLibraries P E) (network : Network) where
  token_request-Keeps :
      {Q : AuthClient P → Type 0} (server_url email password_hash : Text)
      → Keeps Q (login_token_request l network server_url email password_hash)
  unfolding login_token_request
  token_request-Keeps server_url email password_hash =
      Keeps-bind _ _ (Keeps-lift _) (λ body. Keeps-bind _ _ (Keeps-lift _) (λ resp. Keeps-lift _))

  authenticate-StoresToken :
      (email password server_url : Text) (s : AuthClient P)
      → StoresToken s (authenticate l network email password server_url s)
  unfolding authenticate
  authenticate-StoresToken email password server_url s =
      bind-StoresToken _ _ s (Keeps-lift _) (λ kdf.
        bind-StoresToken _ _ s (Keeps-lift _) (λ password_hash.
          bind-StoresToken _ _ s (token_request-Keeps (trimmed server_url) email password_hash)
            (λ token_response. store-StoresToken token_response.access_token _ s)))

  -- Verifying a password, and logging in, leave the client as it was where they fail, whatever the
  -- failure is; where they succeed, they store an access token and change nothing else: the keys of the
  -- vault are not touched, so a login does not unlock.
  pub login-StoresToken :
      (email password server_url : Text) (s : AuthClient P)
      → StoresToken s (verify_credentials l network email password server_url s)
        × StoresToken s (login l network email password server_url s)
  unfolding verify_credentials login
  login-StoresToken email password server_url s =
      let verified =
        then_pure (λ _. tt) s (authenticate l network email password server_url)
          (authenticate-StoresToken email password server_url s) in
      (verified, then_pure _ s _ verified)

-- No request gets an answer.
abbrev pub unreachable : Text → Network
unreachable e request = err e

prelogin-unreachable :
    (e server_url email : Text)
    → prelogin (unreachable e) server_url email
      ≡ err (auth_failed (text "Cannot reach server: " ++ e))
unfolding prelogin
prelogin-unreachable e server_url email = refl

pub login-unreachable :
    {P E : Type 0} (l : AuthLibraries P E) (e email password server_url : Text) (s : AuthClient P)
    → login l (unreachable e) email password server_url s
      ≡ (err (auth_failed (text "Cannot reach server: " ++ e)), s)
unfolding login verify_credentials authenticate ◌>>=◌
login-unreachable l e email password server_url s =
    rw (prelogin-unreachable e (trimmed server_url) email) refl
