-- ===== src/Sdk/Auth.antt =====
-- crates/grimoire-sdk/src/auth.rs: `AuthClient`. The crypto of the Bitwarden SDK, the encodings and
-- what the network answers are parameters. The redacted `Debug` output and `zeroize` are left out.
pub mod Prelogin
pub mod Limits
pub mod Token
pub mod TokenRequest
use bitsafe.Prelude.{
  Bool, true, false, not, ◌||◌, Option, none, some, List, [], ◌∷◌, ◌++◌, if◌then◌else◌,
}
use bitsafe.Prelude.Bytes.{Bytes}
use bitsafe.Prelude.Texts.{Text, text}
use bitsafe.Prelude.Strings.{trim_end_matches, split, contains, or_else}
use bitsafe.Prelude.Results.{Result, ok, err, map_err, ok_or}
use bitsafe.Sdk.{SdkError, auth_failed, internal}
use bitsafe.Sdk.Act.{Steps, Act, pure, lift, gets, modify, ◌>>=◌, ◌>>◌}
use bitsafe.Sdk.Auth.Prelogin.{Document, TokenResponse, Reply, HttpRequest, form, Network, prelogin}
use bitsafe.Sdk.Auth.TokenRequest.{login_form, login_headers, token_url, token_of}
use bitsafe.Sdk.Cache.{VaultCache}
use bitsafe.Sdk.Cache.Floor.{Kdf}
use bitsafe.Sdk.Client.{Client, LoginState, UnlockCacheData}

-- `InitUserCryptoRequest` and the structures in it; the KDF stands in two places of it.
pub record InitUserCryptoRequest (E : Type 0) : Type 0 where
  pub user_id : Option Text
  pub kdf_params : Kdf
  pub email : Text
  pub private_key : E
  pub password : Text
  pub unlock_kdf : Kdf
  pub master_key_wrapped_user_key : E
  pub salt : Text

-- The libraries: `derive password kdf email` is `MasterPasswordAuthenticationData::derive`,
-- `parse_user_id` gives the text that the identifier prints as, and `E` is `EncString`.
pub record AuthLibraries (P E : Type 0) : Type 0 where
  pub derive : Text → Kdf → Text → Result Text Text
  pub parse_enc_string : Text → Result Text E
  pub parse_user_id : Text → Option Text
  pub decode_url_safe : Text → Option Bytes
  pub from_slice : Bytes → Option Document
  pub encode_form : List (Text × Text) → Result Text Text
  pub initialize_user_crypto : P → InitUserCryptoRequest E → Result Text (Unit {0}) × P

-- `GrimoireClient`, which the `AuthClient` shares.
pub record AuthClient (P : Type 0) : Type 0 where
  pub client : P
  pub access_token : Option Text

second_part : List Text → Option Text
second_part (a ∷ b ∷ parts) = some b
second_part _ = none

and_then : {A B : Type 0} → Option A → (A → Option B) → Option B
and_then none f = none
and_then (some a) f = f a

crypto_error : Text → Text → SdkError
crypto_error what e =
    if contains (text "Wrong") e || contains (text "wrong") e
    then auth_failed (text "Wrong master password")
    else auth_failed (what ++ e)

trimmed : Text → Text
trimmed server_url = trim_end_matches b'/' server_url

module _ {P E : Type 0} (l : AuthLibraries P E) where
  unfoldable pub derive_password_hash : Text → Kdf → Text → Result SdkError Text
  derive_password_hash password kdf email =
      map_err (λ e. auth_failed (text "Key derivation failed: " ++ e)) (l.derive password kdf email)

  user_id_from_jwt : Text → Option Text
  unfolding and_then second_part
  user_id_from_jwt token = and_then (second_part (split b'.' token)) (λ payload.
      and_then (l.decode_url_safe payload) (λ decoded.
        and_then (l.from_slice decoded)
          (λ claims. and_then (claims.as_str (text "sub")) l.parse_user_id)))

  initialize_user_crypto : Text → InitUserCryptoRequest E → Act (AuthClient P) (Unit {0})
  unfolding crypto_error
  initialize_user_crypto what request s =
      let (r, client) = l.initialize_user_crypto s.client request in
      (map_err (crypto_error what) r, record s { client = client })

  pub lock : Act (AuthClient P) (Unit {0})
  lock = modify (λ s. record s { access_token = none })

  pub logout : Act (AuthClient P) (Unit {0})
  logout = modify (λ s. record s { access_token = none })

  -- Used for the cache, without the network.
  unfoldable pub init_crypto_from_cache : Text → Kdf → VaultCache → Act (AuthClient P) (Unit {0})
  unfolding initialize_user_crypto and_then
  init_crypto_from_cache password kdf cache = do
    private_key ← lift (
        map_err (λ e. internal (text "Failed to parse cached private key: " ++ e))
          (l.parse_enc_string cache.encrypted_private_key))
    user_key ← lift (
        map_err (λ e. internal (text "Failed to parse cached user key: " ++ e))
          (l.parse_enc_string cache.encrypted_user_key))
    initialize_user_crypto (text "Failed to initialize crypto from cache: ") (record {
      user_id = and_then cache.user_id l.parse_user_id;
      kdf_params = kdf;
      email = cache.email;
      private_key = private_key;
      password = password;
      unlock_kdf = kdf;
      master_key_wrapped_user_key = user_key;
      salt = cache.email;
    })

  module _ (network : Network) where
    login_token_request : Text → Text → Text → Act (AuthClient P) TokenResponse
    login_token_request server_url email password_hash = do
      body ← lift (
          map_err (λ e. internal (text "Failed to encode form: " ++ e))
            (l.encode_form (login_form email password_hash)))
      resp ← lift (
          map_err (λ e. auth_failed (text "Cannot reach server: " ++ e))
            (network
              (record { url = token_url server_url; headers = login_headers; body = form body })))
      lift (token_of resp)

    -- The steps 1 to 4 that `verify_credentials` and `auth_and_init_crypto` share: the limits on the
    -- key derivation, the hash, the token request, and the token that is stored.
    authenticate : Text → Text → Text → Act (AuthClient P) (Kdf × Text × TokenResponse)
    unfolding login_token_request trimmed
    authenticate email password server_url = do
      kdf ← lift (prelogin network (trimmed server_url) email)
      password_hash ← lift (derive_password_hash password kdf email)
      token_response ← login_token_request (trimmed server_url) email password_hash
      modify (λ s. record s { access_token = some token_response.access_token })
      pure (kdf, password_hash, token_response)

    unfoldable pub verify_credentials : Text → Text → Text → Act (AuthClient P) (Unit {0})
    unfolding authenticate
    verify_credentials email password server_url = do
      _ ← authenticate email password server_url
      pure tt

    -- Step 5, with what the token request gave.
    init_crypto : Text → Text → Kdf × Text × TokenResponse → Act (AuthClient P) UnlockCacheData
    unfolding user_id_from_jwt initialize_user_crypto
    init_crypto email password (kdf, password_hash, token_response) = do
      private_key_str ←
          lift (
            ok_or (auth_failed (text "No private key in login response"))
              token_response.private_key)
      private_key ← lift (
          map_err (λ e. internal (text "Failed to parse private key: " ++ e))
            (l.parse_enc_string private_key_str))
      user_key_str ←
          lift (ok_or (auth_failed (text "No user key in login response")) token_response.key)
      user_key ← lift (
          map_err (λ e. internal (text "Failed to parse user key: " ++ e))
            (l.parse_enc_string user_key_str))
      initialize_user_crypto (text "Failed to initialize crypto: ") (record {
        user_id = user_id_from_jwt token_response.access_token;
        kdf_params = kdf;
        email = email;
        private_key = private_key;
        password = password;
        unlock_kdf = kdf;
        master_key_wrapped_user_key = user_key;
        salt = email;
      })
      pure (record {
        kdf = kdf;
        encrypted_user_key = user_key_str;
        encrypted_private_key = private_key_str;
        user_id = user_id_from_jwt token_response.access_token;
        password_hash = password_hash;
      })

    unfoldable pub auth_and_init_crypto : Text → Text → Text → Act (AuthClient P) UnlockCacheData
    unfolding authenticate init_crypto
    auth_and_init_crypto email password server_url = do
      authenticated ← authenticate email password server_url
      init_crypto email password authenticated

    unfoldable pub login : Text → Text → Text → Act (AuthClient P) LoginState
    unfolding verify_credentials
    login email password server_url = do
      verify_credentials email password server_url
      pure (record { email = email; server_url = server_url })

    unfoldable pub unlock : Text → LoginState → Act (AuthClient P) UnlockCacheData
    unfolding auth_and_init_crypto
    unlock password state = auth_and_init_crypto state.email password state.server_url
