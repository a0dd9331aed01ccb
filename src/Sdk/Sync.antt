-- ===== src/Sdk/Sync.antt =====
-- crates/grimoire-sdk/src/sync.rs: `SyncClient`. The conversion of a cipher and the repository of the
-- Bitwarden SDK are parameters; logging is left out.
pub mod Patch
pub mod Replay
use bitsafe.Prelude.{
  ℕ, Bool, true, false, not, ◌||◌, Option, none, some, List, [], ◌∷◌, ◌++◌, map, ◌==◌,
  if◌then◌else◌,
}
use bitsafe.Prelude.Texts.{Text, text, text_eq}
use bitsafe.Prelude.Strings.{trim_end_matches}
use bitsafe.Prelude.Results.{Result, ok, err, map_err, ok_or}
use bitsafe.Protocol.Request.Json.{
  Value, null, string, array, object, Items, nil, cons, Fields, stop, field, get_field,
}
use bitsafe.Sdk.{SdkError, sync_failed, auth_revoked}
use bitsafe.Sdk.Act.{Act, pure, raise, lift, gets, ◌>>=◌, ◌>>◌}
use bitsafe.Sdk.Auth.{AuthClient}
use bitsafe.Sdk.Client.{Client}

-- `GET`, with the headers in their order, and what comes back: the code of the status, how the status
-- prints, and the body as JSON.
pub record SyncRequest : Type 0 where
  pub url : Text
  pub headers : List (Text × Text)

pub record SyncReply : Type 0 where
  pub status : ℕ
  pub status_text : Text
  pub is_success : Bool
  pub json : Result Text Value

abbrev pub SyncNetwork : Type 0
SyncNetwork = SyncRequest → Result Text SyncReply

-- The libraries: the deserializer of the API's model, `Cipher::try_from`, `cipher.id`, the repository
-- of the state of the SDK, which may be missing, `replace_all`, and serde_json's `to_string`.
pub record SyncLibraries (P : Type 0) : Type 1 where
  pub Model : Type 0
  pub Cipher : Type 0
  pub from_value : Value → Result Text Model
  pub try_from : Model → Result Text Cipher
  pub id_of : Cipher → Option Text
  pub repository : P → Result Text (Unit {0})
  pub replace_all : P → List (Text × Cipher) → Result Text (Unit {0}) × P
  pub to_string : Value → Option Text

pub is_object : Option Value → Bool
is_object (some (object fields)) = true
is_object _ = false

-- `insert` of a key that is there.
pub insert : Text → Value → Fields → Fields
insert name v stop = stop
insert name v (field key w rest) =
    let rest' = insert name v rest in
    if text_eq key name then field key v rest else field key w rest'

pub json_of : Option Text → Value
json_of none = null
json_of (some s) = string s

or_else_value : Option Value → Option Value → Option Value
or_else_value none v = v
or_else_value (some v) _ = some v

values : Items → List Value
values nil = []
values (cons v vs) = v ∷ values vs

as_array : Option Value → Option (List Value)
unfolding values
as_array (some (array items)) = some (values items)
as_array _ = none

-- `body.get(name)`
get : Text → Value → Option Value
get name (object fields) = get_field name fields
get name _ = none

cipher_array : Value → Option (List Value)
unfolding get as_array or_else_value
cipher_array body = as_array (or_else_value (get (text "ciphers") body) (get (text "Ciphers") body))

sync_headers : Text → List (Text × Text)
sync_headers token =
    (text "Authorization", text "Bearer " ++ token)
    ∷ (text "Bitwarden-Client-Name", text "desktop")
    ∷ (text "Bitwarden-Client-Version", text "2025.1.1")
    ∷ (text "Device-Type", text "8")
    ∷ []

sync_url : Text → Text
sync_url server_url = trim_end_matches b'/' server_url ++ text "/api/sync"

refusal : SyncReply → Result SdkError (Unit {0})
refusal resp =
    if (resp.status == 401) || (resp.status == 403)
    then err auth_revoked
    else if not resp.is_success
    then err (sync_failed (text "Sync failed: HTTP " ++ resp.status_text))
    else ok tt

module _ {P : Type 0} (l : SyncLibraries P) where
  pub patch_field : Text → Fields → Option Value → Fields
  unfolding insert json_of
  patch_field key fields (some (object inner)) =
      insert key (json_of (l.to_string (object inner))) fields
  patch_field key fields _ = fields

  -- One key of the loop.
  pub patch_key : Text → Value → Value
  unfolding patch_field
  patch_key key (object fields) = object (patch_field key fields (get_field key fields))
  patch_key key v = v

  pub patch_cipher : Value → Value
  unfolding patch_key
  patch_cipher c = patch_key (text "Data") (patch_key (text "data") c)

  pub patch_cipher_data : List Value → List Value
  unfolding patch_cipher
  patch_cipher_data ciphers_json = map patch_cipher ciphers_json

  with_id : Option Text → l.Cipher → List (Text × l.Cipher) → List (Text × l.Cipher)
  with_id none cipher ciphers = ciphers
  with_id (some id) cipher ciphers = (id, cipher) ∷ ciphers

  keep_cipher : Result Text l.Cipher → List (Text × l.Cipher) → List (Text × l.Cipher)
  unfolding with_id
  keep_cipher (err e) ciphers = ciphers
  keep_cipher (ok cipher) ciphers = with_id (l.id_of cipher) cipher ciphers

  keep_model : Result Text l.Model → List (Text × l.Cipher) → List (Text × l.Cipher)
  unfolding keep_cipher
  keep_model (err e) ciphers = ciphers
  keep_model (ok model) ciphers = keep_cipher (l.try_from model) ciphers

  -- The ciphers that can be read and have an identifier, in their order.
  converted : List Value → List (Text × l.Cipher)
  unfolding keep_model
  converted [] = []
  converted (c ∷ cs) = keep_model (l.from_value c) (converted cs)

  replace_all : List (Text × l.Cipher) → Act (AuthClient P) (Unit {0})
  replace_all ciphers s =
      let (r, client) = l.replace_all s.client ciphers in
      (
        map_err (λ e. sync_failed (text "Failed to store ciphers: " ++ e)) r,
        record s { client = client },
      )

  repository : Act (AuthClient P) (Unit {0})
  repository s =
      (map_err (λ e. sync_failed (text "No cipher repository: " ++ e)) (l.repository s.client), s)

  pub store_ciphers : List Value → Act (AuthClient P) (Unit {0})
  unfolding repository replace_all converted
  store_ciphers patched_ciphers = do repository; replace_all (converted patched_ciphers)

  unfoldable pub populate_from_cache : List Value → Act (AuthClient P) (Unit {0})
  unfolding store_ciphers
  populate_from_cache cached_ciphers = store_ciphers cached_ciphers

  -- What is stored and returned of the array in the answer.
  pub store_array : Option (List Value) → Act (AuthClient P) (List Value)
  unfolding store_ciphers patch_cipher_data
  store_array none = pure []
  store_array (some ciphers_json) = do
    store_ciphers (patch_cipher_data ciphers_json)
    pure (patch_cipher_data ciphers_json)

  unfoldable pub sync : SyncNetwork → Text → Act (AuthClient P) (List Value)
  unfolding store_array cipher_array sync_headers sync_url refusal
  sync network server_url = do
    stored ← gets (λ s. s.access_token)
    token ← lift (ok_or (sync_failed (text "No access token")) stored)
    resp ← lift (
        map_err (λ e. sync_failed (text "Sync request failed: " ++ e))
          (network (record { url = sync_url server_url; headers = sync_headers token })))
    lift (refusal resp)
    body ← lift (map_err (λ e. sync_failed (text "Failed to parse sync response: " ++ e)) resp.json)
    store_array (cipher_array body)
