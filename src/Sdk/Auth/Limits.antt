-- ===== src/Sdk/Auth/Limits.antt =====
-- auth.rs: what a server can make the key derivation do.
use bitsafe.Prelude.{◌≡◌, refl, ap, inl, inr}
use bitsafe.Prelude.Texts.{Text}
use bitsafe.Prelude.Results.{Result, ok, err, Result-cases}
use bitsafe.Sdk.{SdkError}
use bitsafe.Sdk.Act.{Steps, ◌>>=◌, continue}
use bitsafe.Sdk.Act.Ends.{
  Outcome, Anything, Ends, Ends-bind, Ends-bind_value, Ends-pure, Ends-any, Ends-lift,
}
use mathlib.Core.Path.{fun_ext}
use bitsafe.Sdk.Auth.{
  AuthLibraries, AuthClient, InitUserCryptoRequest, user_id_from_jwt, login_token_request,
  initialize_user_crypto, authenticate, init_crypto, derive_password_hash, verify_credentials,
  auth_and_init_crypto, trimmed,
}
use bitsafe.Sdk.Auth.Prelogin.{Network, TokenResponse, prelogin}
use bitsafe.Sdk.Auth.Prelogin.Limits.{IsBounded, prelogin-IsBounded}
use bitsafe.Sdk.Cache.Floor.{Kdf}

-- The key derivation of an authentication that succeeds is within the limits.
WithinLimits : Kdf × Text × TokenResponse → Type 0
WithinLimits (kdf, password_hash, token_response) = IsBounded kdf

module _ {P E : Type 0} (l : AuthLibraries P E) (network : Network) where
  authenticate-WithinLimits :
      (email password server_url : Text)
      → Ends Anything WithinLimits (authenticate l network email password server_url)
  unfolding authenticate WithinLimits
  authenticate-WithinLimits email password server_url =
      Ends-bind_value _ _ (Ends-lift _ (prelogin-IsBounded network (trimmed server_url) email))
        (λ kdf bounded. Ends-bind _ _ (Ends-any _) (λ password_hash.
          Ends-bind _ _ (Ends-any _)
            (λ token_response. Ends-bind _ _ (Ends-any _) (λ _. Ends-pure _ bounded))))

module _ {E S A B : Type 0} where
  bind-agrees :
      (first : Steps E S A) {next next' : A → Steps E S B}
      → ((a : A) → next a ≡ next' a)
      → (first >>= next) ≡ (first >>= next')
  bind-agrees first h = ap (λ next. first >>= next) (fun_ext h)

module _ {E S A B : Type 0} where
  first-agrees :
      {first first' : Steps E S A} (next : A → Steps E S B)
      → first ≡ first'
      → (first >>= next) ≡ (first' >>= next)
  first-agrees next h = ap (λ first. first >>= next) h

-- Two key derivations and two initializations that are the same within the limits, and may differ
-- beyond them.
module _ {P E : Type 0} (l : AuthLibraries P E) (derive' : Text → Kdf → Text → Result Text Text)
    (initialize' : P → InitUserCryptoRequest E → Result Text (Unit {0}) × P) where
  pub record AgreesWithin : Type 0 where
    pub derives :
        (password email : Text) (kdf : Kdf)
        → IsBounded kdf
        → l.derive password kdf email ≡ derive' password kdf email
    pub initializes :
        (client : P) (request : InitUserCryptoRequest E)
        → IsBounded request.kdf_params
        → l.initialize_user_crypto client request ≡ initialize' client request

  abbrev pub with_libraries : AuthLibraries P E
  with_libraries = record l { derive = derive'; initialize_user_crypto = initialize' }

  module _ (agrees : AgreesWithin) (network : Network) where
    authenticate-agrees :
        (email password server_url : Text) (s : AuthClient P)
        → authenticate l network email password server_url s
          ≡ authenticate with_libraries network email password server_url s
    unfolding authenticate derive_password_hash login_token_request ◌>>=◌
    authenticate-agrees email password server_url s =
        elim (Result-cases (prelogin network (trimmed server_url) email)) [
          | inl (kdf, e) ↦
              let bounded = prelogin-IsBounded network (trimmed server_url) email kdf e in
              rw (e, agrees.derives password email kdf bounded) refl
          | inr (failed, e) ↦ rw (e) refl
        ]

    initialize-agrees :
        (what : Text) (request : InitUserCryptoRequest E)
        → IsBounded request.kdf_params
        → initialize_user_crypto l what request ≡ initialize_user_crypto with_libraries what request
    unfolding initialize_user_crypto
    initialize-agrees what request bounded =
        fun_ext (λ s. rw (agrees.initializes s.client request bounded) refl)

    init_crypto-agrees :
        (email password : Text) (authenticated : Kdf × Text × TokenResponse)
        → WithinLimits authenticated
        → init_crypto l network email password authenticated
          ≡ init_crypto with_libraries network email password authenticated
    unfolding init_crypto user_id_from_jwt WithinLimits
    init_crypto-agrees email password (kdf, password_hash, token_response) bounded =
        bind-agrees _ (λ private_key_str. bind-agrees _ (λ private_key.
          bind-agrees _ (λ user_key_str.
            bind-agrees _ (λ user_key. first-agrees _ (initialize-agrees _ _ bounded)))))

    continue-agrees :
        (email password : Text) (r : Result SdkError (Kdf × Text × TokenResponse))
        → Outcome Anything WithinLimits r
        → (s : AuthClient P)
        → continue r (init_crypto l network email password) s
          ≡ continue r (init_crypto with_libraries network email password) s
    continue-agrees email password (ok authenticated) bounded s =
        ap (λ m. m s) (init_crypto-agrees email password authenticated bounded)
    continue-agrees email password (err e) bounded s = refl

    -- Whatever the server answers, unlocking and verifying a password ask the key derivation and the
    -- initialization of the crypto for parameters within the limits only: what these two do beyond the
    -- limits makes no difference to the results and to the client.
    pub auth_and_init_crypto-agrees :
        (email password server_url : Text) (s : AuthClient P)
        → (auth_and_init_crypto l network email password server_url s
            ≡ auth_and_init_crypto with_libraries network email password server_url s)
          × (verify_credentials l network email password server_url s
              ≡ verify_credentials with_libraries network email password server_url s)
    unfolding auth_and_init_crypto verify_credentials ◌>>=◌
    auth_and_init_crypto-agrees email password server_url s = (
      rw
          (
            ← authenticate-agrees email password server_url s,
            continue-agrees email password (authenticate l network email password server_url s).0
                ((authenticate-WithinLimits l network email password server_url).from s)
                (authenticate l network email password server_url s).1,
          )
          refl,
      rw (authenticate-agrees email password server_url s) refl,
    )
