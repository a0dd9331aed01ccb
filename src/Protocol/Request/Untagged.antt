-- ===== src/Protocol/Request/Untagged.antt =====
-- request.rs: `#[serde(untagged)]` on `RequestParams`, with `deny_unknown_fields` on each struct. The
-- variants are tried in their order, and the first that fits is taken.
pub mod Shadowed
use bitsafe.Prelude.{
  ℕ, ◌^◌, ◌≡◌, ◌≢◌, refl, ap, Bool, true, false, Option, none, some, List, [], ◌∷◌, arith, ltb,
  if◌then◌else◌, Bool-cases, inl, inr, Option-cases,
}
use bitsafe.Prelude.Bytes.{Bytes}
use bitsafe.Prelude.Texts.{Text, text, text_eq, text_eq_sound}
use bitsafe.Protocol.Request.{
  RequestParams, LoginParams, VaultListParams, VaultGetParams, VaultRef, SshSignParams, Request,
  login, unlock, set_pin, resolve_refs, empty,
}
use bitsafe.Protocol.Request.Json.{
  Value, null, number, string, array, object, Items, nil, cons, Fields, stop, field, slots,
  fields_fit, get_field, in_order, is_none, name_in,
}

infixl 5 ◌>>=◌
abbrev pub ◌>>=◌ : {A B : Type 0} → Option A → (A → Option B) → Option B
none >>= f = none
some a >>= f = f a

abbrev or_else : {A : Type 0} → Option A → Option A → Option A
or_else (some a) other = some a
or_else none other = other

required : Option Value → Option Text
required (some (string s)) = some s
required _ = none

optional : Option Value → Option (Option Text)
optional none = some none
optional (some null) = some none
optional (some (string s)) = some (some s)
optional (some _) = none

unsigned : ℕ → Option Value → Option ℕ
unsigned bits (some (number n)) = if ltb n (2 ^ bits) then some n else none
unsigned bits _ = none

byte_items : Items → Option Bytes
unfolding unsigned
byte_items nil = some []
byte_items (cons v vs) = do b ← unsigned 8 (some v); bs ← byte_items vs; some (b ∷ bs)

bytes_value : Option Value → Option Bytes
unfolding byte_items
bytes_value (some (array vs)) = byte_items vs
bytes_value _ = none

ref_of : List (Option Value) → Option VaultRef
ref_of (id ∷ name ∷ []) = do
  id' ← required id
  name' ← required name
  some (record { id = id'; field = name' })
ref_of _ = none

ref_items : Items → Option (List VaultRef)
ref_items nil = some []
ref_items (cons v vs) = do
  s ← slots (text "id" ∷ text "field" ∷ []) v
  r ← ref_of s
  rs ← ref_items vs
  some (r ∷ rs)

refs_value : Option Value → Option (List VaultRef)
refs_value (some (array vs)) = ref_items vs
refs_value _ = none

login_of : List (Option Value) → Option RequestParams
login_of (email ∷ password ∷ url ∷ []) = do
  email' ← required email
  password' ← optional password
  url' ← optional url
  some (login (record { email = email'; password = password'; server_url = url' }))
login_of _ = none

unlock_of : List (Option Value) → Option RequestParams
unlock_of (password ∷ []) = do password' ← optional password; some (unlock password')
unlock_of _ = none

set_pin_of : List (Option Value) → Option RequestParams
set_pin_of (pin ∷ []) = do pin' ← required pin; some (set_pin pin')
set_pin_of _ = none

vault_list_of : List (Option Value) → Option RequestParams
vault_list_of (kind ∷ search' ∷ []) = do
  kind' ← optional kind
  search'' ← optional search'
  some (RequestParams.vault_list (record { kind = kind'; search = search'' }))
vault_list_of _ = none

vault_get_of : List (Option Value) → Option RequestParams
vault_get_of (id ∷ name ∷ []) = do
  id' ← required id
  name' ← optional name
  some (RequestParams.vault_get (record { id = id'; field = name' }))
vault_get_of _ = none

vault_totp_of : List (Option Value) → Option RequestParams
vault_totp_of (id ∷ []) = do id' ← required id; some (RequestParams.vault_totp id')
vault_totp_of _ = none

resolve_refs_of : List (Option Value) → Option RequestParams
resolve_refs_of (refs ∷ []) = do refs' ← refs_value refs; some (resolve_refs refs')
resolve_refs_of _ = none

ssh_sign_of : List (Option Value) → Option RequestParams
ssh_sign_of (key_id ∷ payload ∷ flags ∷ []) = do
  key_id' ← required key_id
  payload' ← bytes_value payload
  flags' ← unsigned 32 flags
  some (RequestParams.ssh_sign (record { key_id = key_id'; payload = payload'; flags = flags' }))
ssh_sign_of _ = none

empty_of : List (Option Value) → Option RequestParams
empty_of [] = some empty
empty_of _ = none

module _ (v : Value) where
  try_login : Option RequestParams
  try_login = slots (text "email" ∷ text "password" ∷ text "server_url" ∷ []) v >>= login_of

  try_unlock : Option RequestParams
  try_unlock = slots (text "password" ∷ []) v >>= unlock_of

  try_set_pin : Option RequestParams
  try_set_pin = slots (text "pin" ∷ []) v >>= set_pin_of

  try_vault_list : Option RequestParams
  try_vault_list = slots (text "type" ∷ text "search" ∷ []) v >>= vault_list_of

  try_vault_get : Option RequestParams
  try_vault_get = slots (text "id" ∷ text "field" ∷ []) v >>= vault_get_of

  try_vault_totp : Option RequestParams
  try_vault_totp = slots (text "id" ∷ []) v >>= vault_totp_of

  try_resolve_refs : Option RequestParams
  try_resolve_refs = slots (text "refs" ∷ []) v >>= resolve_refs_of

  try_ssh_sign : Option RequestParams
  try_ssh_sign = slots (text "key_id" ∷ text "data" ∷ text "flags" ∷ []) v >>= ssh_sign_of

  try_empty : Option RequestParams
  try_empty = slots [] v >>= empty_of

  -- The order of the variants in `enum RequestParams`.
  pub deserialize_params : Option RequestParams
  deserialize_params = or_else try_login (
      or_else try_unlock (
        or_else try_set_pin (
          or_else try_vault_list (
            or_else try_vault_get (
              or_else try_vault_totp
                (or_else try_resolve_refs (or_else try_ssh_sign try_empty)))))))
