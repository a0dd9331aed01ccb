-- ===== src/Protocol/Request.antt =====
-- crates/grimoire-protocol/src/request.rs: requests, their parameters and the method names.
pub mod Json
pub mod Untagged
use bitsafe.Prelude.{ℕ, Bool, true, Option, none, some, List, [], ◌∷◌, ◌++◌, if◌then◌else◌}
use bitsafe.Prelude.Bytes.{Bytes}
use bitsafe.Prelude.Texts.{Text, text, text_eq}

pub record LoginParams : Type 0 where
  pub email : Text
  pub password : Option Text
  pub server_url : Option Text

pub record VaultListParams : Type 0 where
  pub kind : Option Text
  pub search : Option Text

pub record VaultGetParams : Type 0 where
  pub id : Text
  pub field : Option Text

pub record VaultRef : Type 0 where
  pub id : Text
  pub field : Text

pub record SshSignParams : Type 0 where
  pub key_id : Text
  pub payload : Bytes
  pub flags : ℕ

-- `UnlockParams`, `SetPinParams`, `VaultTotpParams` and `ResolveRefsParams` have one field each.
pub data RequestParams : Type 0 where
  login : LoginParams → RequestParams
  unlock : Option Text → RequestParams
  set_pin : Text → RequestParams
  vault_list : VaultListParams → RequestParams
  vault_get : VaultGetParams → RequestParams
  vault_totp : Text → RequestParams
  resolve_refs : List VaultRef → RequestParams
  ssh_sign : SshSignParams → RequestParams
  empty : RequestParams

pub record Request : Type 0 where
  pub id : Option ℕ
  pub method : Text
  pub params : Option RequestParams

-- The constants of `methods` that the service serves.
pub data Method : Type 0 where
  auth_login auth_unlock auth_lock auth_logout auth_status auth_set_pin auth_authorize : Method
  vault_list vault_get vault_totp vault_resolve_refs : Method
  sync_trigger sync_status ssh_list_keys ssh_sign : Method
  unknown : Method

abbrev method_names : List (Text × Method)
method_names =
    (text "auth.status", Method.auth_status)
    ∷ (text "auth.login", Method.auth_login)
    ∷ (text "auth.unlock", Method.auth_unlock)
    ∷ (text "auth.lock", Method.auth_lock)
    ∷ (text "auth.logout", Method.auth_logout)
    ∷ (text "auth.set_pin", Method.auth_set_pin)
    ∷ (text "auth.authorize", Method.auth_authorize)
    ∷ (text "vault.list", Method.vault_list)
    ∷ (text "vault.get", Method.vault_get)
    ∷ (text "vault.totp", Method.vault_totp)
    ∷ (text "vault.resolve_refs", Method.vault_resolve_refs)
    ∷ (text "ssh.list_keys", Method.ssh_list_keys)
    ∷ (text "ssh.sign", Method.ssh_sign)
    ∷ (text "sync.trigger", Method.sync_trigger)
    ∷ (text "sync.status", Method.sync_status)
    ∷ []

find_method : List (Text × Method) → Text → Method
find_method [] name = Method.unknown
find_method ((known, m) ∷ rest) name = if text_eq name known then m else find_method rest name

-- The arm of `match request.method.as_str()` that a method name takes.
unfoldable pub method_of : Text → Method
unfolding find_method text_eq text
method_of name = find_method method_names name
