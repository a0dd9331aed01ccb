-- ===== src/Sdk/Client.antt =====
-- crates/grimoire-sdk/src: the operations of `GrimoireClient` that the service calls. The client
-- wraps the Bitwarden SDK and HTTP; `C` is its type. A call of a method that may change the client's
-- token, keys or ciphers returns the client after the call.
use bitsafe.Prelude.{ℕ, Option, List}
use bitsafe.Prelude.Bytes.{Bytes}
use bitsafe.Prelude.Texts.{Text}
use bitsafe.Prelude.Results.{Result}
use bitsafe.Protocol.Request.Json.{Value}
use bitsafe.Sdk.{SdkError}
use bitsafe.Sdk.Cache.{VaultCache}
use bitsafe.Sdk.Cache.Floor.{Kdf}

-- auth.rs
pub record LoginState : Type 0 where
  pub email : Text
  pub server_url : Text

pub record UnlockCacheData : Type 0 where
  pub kdf : Kdf
  pub encrypted_user_key : Text
  pub encrypted_private_key : Text
  pub user_id : Option Text
  pub password_hash : Text

-- vault.rs
pub data CipherType : Type 0 where
  login secure_note card identity ssh_key : CipherType

pub record CipherSummary : Type 0 where
  pub id : Text
  pub name : Text
  pub cipher_type : CipherType
  pub username : Option Text
  pub uri : Option Text

pub record CipherDetail : Type 0 where
  pub id : Text
  pub name : Text
  pub cipher_type : CipherType
  pub username : Option Text
  pub password : Option Text
  pub uri : Option Text
  pub notes : Option Text
  pub totp : Option Text

pub record VaultFilter : Type 0 where
  pub cipher_type : Option CipherType
  pub search : Option Text

-- ssh.rs
pub record SshKey : Type 0 where
  pub id : Text
  pub name : Text
  pub public_key : Text
  pub fingerprint : Text

pub record Client (C : Type 0) : Type 0 where
  pub new : Text → C
  -- email, password, server URL
  pub login : C → Text → Text → Text → Result SdkError LoginState × C
  pub unlock : C → Text → LoginState → Result SdkError UnlockCacheData × C
  pub verify_password : C → Text → Text → Text → Result SdkError (Unit {0}) × C
  pub derive_password_hash : Text → Kdf → Text → Result SdkError Text
  pub init_crypto_from_cache : C → Text → Kdf → VaultCache → Result SdkError (Unit {0}) × C
  pub populate_from_cache : C → List Value → Result SdkError (Unit {0}) × C
  pub sync : C → Text → Result SdkError (List Value) × C
  pub list : C → VaultFilter → Result SdkError (List CipherSummary)
  pub get : C → Text → Result SdkError CipherDetail
  pub totp : C → Text → Result SdkError Text
  pub list_keys : C → Result SdkError (List SshKey)
  -- key, data, flags
  pub sign : C → Text → Bytes → ℕ → Result SdkError Bytes
