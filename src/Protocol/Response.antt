-- ===== src/Protocol/Response.antt =====
-- crates/grimoire-protocol/src/response.rs: responses and the error codes. A result is the struct
-- that `serde_json::to_value` makes a value of, which does not fail.
use bitsafe.Prelude.{ℕ, Bool, Option, none, some, List, ◌++◌}
use bitsafe.Prelude.Bytes.{Bytes}
use bitsafe.Prelude.Texts.{Text, text}

-- An i32.
pub data ℤ : Type 0 where
  pos : ℕ → ℤ
  negsuc : ℕ → ℤ

-- `data` is `None` throughout.
pub record RpcError : Type 0 where
  pub code : ℤ
  pub message : Text

pub record StatusResult : Type 0 where
  pub state : Text
  pub email : Option Text
  pub server_url : Option Text
  pub last_sync : Option ℕ
  pub session_active : Option Bool
  pub pin_set : Option Bool

pub record VaultItem : Type 0 where
  pub id : Text
  pub name : Text
  pub kind : Text
  pub username : Option Text
  pub uri : Option Text

pub record VaultItemDetail : Type 0 where
  pub id : Text
  pub name : Text
  pub kind : Text
  pub username : Option Text
  pub password : Option Text
  pub uri : Option Text
  pub notes : Option Text
  pub totp : Option Text

pub record SshKeyInfo : Type 0 where
  pub id : Text
  pub name : Text
  pub public_key : Text
  pub fingerprint : Text

pub record ResolvedRef : Type 0 where
  pub reference : Text
  pub value : Option Text
  pub error : Option Text

pub record TotpResult : Type 0 where
  pub code : Text
  pub period : ℕ

-- The values that the handlers answer with: the structs, `{"signature": …}` and `{"last_sync": …}`.
pub data Answer : Type 0 where
  ok_result : Bool → Answer
  status : StatusResult → Answer
  vault_list : List VaultItem → Answer
  vault_item : VaultItemDetail → Answer
  totp : TotpResult → Answer
  resolved_refs : List ResolvedRef → Answer
  ssh_keys : List SshKeyInfo → Answer
  signature : Bytes → Answer
  last_sync : Option ℕ → Answer

pub record Response : Type 0 where
  pub id : Option ℕ
  pub result : Option Answer
  pub error : Option RpcError

abbrev pub success : Option ℕ → Answer → Response
success id result = record { id = id; result = some result; error = none }

abbrev pub failure : Option ℕ → RpcError → Response
failure id error = record { id = id; result = none; error = some error }

-- `RpcError::new` for a code that is not negative.
abbrev pub rpc_error : ℕ → Text → RpcError
rpc_error code message = record { code = pos code; message = message }

abbrev pub method_not_found : Text → RpcError
method_not_found method = record {
  code = negsuc 32600;
  message = text "Method not found: " ++ method;
}

abbrev pub invalid_params : Text → RpcError
invalid_params message = record { code = negsuc 32601; message = message }

abbrev pub internal_error : Text → RpcError
internal_error message = record { code = negsuc 32602; message = message }

abbrev pub vault_locked : RpcError
vault_locked = rpc_error 1000 (text "Vault is locked")

abbrev pub not_logged_in : RpcError
not_logged_in = rpc_error 1001 (text "Not logged in")

abbrev pub auth_failed : Text → RpcError
auth_failed message = rpc_error 1003 message

abbrev pub item_not_found : Text → RpcError
item_not_found id = rpc_error 1005 (text "Item not found: " ++ id)

abbrev pub prompt_unavailable : RpcError
prompt_unavailable =
    rpc_error 1008 (text "No interactive prompt available — provide password in params")

abbrev pub access_approval_denied : RpcError
access_approval_denied = rpc_error 1011 (text "Access approval denied")
