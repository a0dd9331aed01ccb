-- ===== src/Sdk.antt =====
-- crates/grimoire-sdk/src: the errors of error.rs, the vault cache, and the client that the service
-- calls.
pub mod Act
pub mod Auth
pub mod Cache
pub mod Client
pub mod Grimoire
pub mod Ssh
pub mod State
pub mod Sync
pub mod Vault
use bitsafe.Prelude.Texts.{Text}

pub data SdkError : Type 0 where
  auth_failed : Text → SdkError
  vault_locked : SdkError
  not_logged_in : SdkError
  sync_failed : Text → SdkError
  auth_revoked : SdkError
  not_found : Text → SdkError
  internal : Text → SdkError
