-- ===== src/Service/Session/Errors.antt =====
-- session.rs: `sdk_err_to_rpc`, the backoff errors, and crates/grimoire-sdk/src/error.rs: `Display`.
use bitsafe.Prelude.{ℕ, ◌++◌}
use bitsafe.Prelude.Texts.{Text, text, display}
use bitsafe.Sdk.{SdkError}
use bitsafe.Protocol.Response.{
  RpcError, rpc_error, vault_locked, not_logged_in, auth_failed, item_not_found, internal_error,
}

unfoldable pub sdk_err_to_rpc : SdkError → RpcError
sdk_err_to_rpc SdkError.vault_locked = vault_locked
sdk_err_to_rpc SdkError.not_logged_in = not_logged_in
sdk_err_to_rpc (SdkError.auth_failed message) = auth_failed message
sdk_err_to_rpc (SdkError.not_found id) = item_not_found id
sdk_err_to_rpc (SdkError.sync_failed message) = rpc_error 1004 message
sdk_err_to_rpc SdkError.auth_revoked = auth_failed (text "Authentication revoked by server")
sdk_err_to_rpc (SdkError.internal message) = internal_error (text "Internal error")

unfoldable pub sdk_error_display : SdkError → Text
sdk_error_display (SdkError.auth_failed message) = text "Authentication failed: " ++ message
sdk_error_display SdkError.vault_locked = text "Vault is locked"
sdk_error_display SdkError.not_logged_in = text "Not logged in"
sdk_error_display (SdkError.sync_failed message) = text "Sync failed: " ++ message
sdk_error_display SdkError.auth_revoked = text "Authentication revoked by server"
sdk_error_display (SdkError.not_found id) = text "Item not found: " ++ id
sdk_error_display (SdkError.internal message) = text "SDK error: " ++ message

unfoldable pub too_many_attempts : ℕ → RpcError
too_many_attempts remaining =
    rpc_error 1009 (text "Too many attempts. Try again in " ++ (display remaining ++ text "s"))
