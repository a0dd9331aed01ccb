-- ===== src/Service/Session/Refs.antt =====
-- session.rs: `handle_resolve_refs` and `resolve_single_ref`; vault.rs: the names of cipher types.
use bitsafe.Prelude.{
  ℕ, Bool, true, false, ◌&&◌, ◌||◌, Option, none, some, List, [], ◌∷◌, ◌++◌, ◌==◌, ◌+◌, leb, take,
  drop, if◌then◌else◌, length,
}
use bitsafe.Prelude.Texts.{Text, text, text_eq, display}
use bitsafe.Prelude.Strings.{strip_prefix}
use bitsafe.Prelude.Results.{Result, ok, err, map_err, ok_or, ◌>>=◌}
use bitsafe.Sdk.Client.{
  Client, CipherType, login, secure_note, card, identity, ssh_key, CipherSummary, CipherDetail,
}
use bitsafe.Protocol.Request.{VaultRef}
use bitsafe.Protocol.Response.{ResolvedRef}
use bitsafe.Service.Session.Errors.{sdk_error_display}

-- `CipherType::to_string`
unfoldable pub cipher_type_name : CipherType → Text
cipher_type_name login = text "login"
cipher_type_name secure_note = text "note"
cipher_type_name card = text "card"
cipher_type_name identity = text "identity"
cipher_type_name ssh_key = text "sshkey"

-- `to_lowercase`, as far as it leads to a name of ASCII letters: the capitals, and the Kelvin sign.
is_kelvin : ℕ → Text → Bool
is_kelvin c rest = (c == 226) && text_eq (take 2 rest) (132 ∷ 170 ∷ [])

lower : Text → Text
unfolding is_kelvin
lower [] = []
lower (c ∷ s) =
    let rest = lower s in
    if is_kelvin c rest
    then 107 ∷ drop 2 rest
    else (if leb 65 c && leb c 90 then c + 32 else c) ∷ rest

cipher_type_of_lower : Text → Option CipherType
cipher_type_of_lower name =
    if text_eq name (text "login")
    then some login
    else if text_eq name (text "note") || text_eq name (text "securenote")
    then some secure_note
    else if text_eq name (text "card")
    then some card
    else if text_eq name (text "identity")
    then some identity
    else if text_eq name (text "sshkey") || text_eq name (text "ssh_key")
    then some ssh_key
    else none

-- `CipherType::from_str`
unfoldable pub parse_cipher_type : Text → Option CipherType
unfolding lower cipher_type_of_lower text_eq text
parse_cipher_type name = cipher_type_of_lower (lower name)

abbrev is_prefixed : Option Text → Bool
is_prefixed none = false
is_prefixed (some rest) = true

unfoldable pub filter_items : (CipherSummary → Bool) → List CipherSummary → List CipherSummary
filter_items test [] = []
filter_items test (i ∷ items) =
    let rest = filter_items test items in if test i then i ∷ rest else rest

-- The only match, or the error for none and for several.
one_match : Text → (ℕ → Text) → List CipherSummary → Result Text Text
one_match missing several [] = err missing
one_match missing several (i ∷ []) = ok i.id
one_match missing several (i ∷ j ∷ rest) = err (several (length (i ∷ j ∷ rest)))

-- By name behind `//`, else by a prefix of the ID.
unfoldable pub find_item : Text → List CipherSummary → Result Text Text
unfolding one_match strip_prefix filter_items
find_item ref_id items = elim (strip_prefix (text "//") ref_id) [
  | some name ↦
      one_match (text "No item named '" ++ (name ++ text "'"))
        (λ n.
          text "Ambiguous name '"
          ++ (name ++ (text "' matches " ++ (display n ++ text " items — use ID instead"))))
        (filter_items (λ i. text_eq i.name name) items)
  | none ↦
      one_match (text "No item matching ID prefix '" ++ (ref_id ++ text "'"))
        (λ n.
          text "Ambiguous ID prefix '"
          ++ (ref_id ++ (text "' matches " ++ (display n ++ text " items"))))
        (filter_items (λ i. is_prefixed (strip_prefix ref_id i.id)) items)
]

module _ {C : Type 0} (client : Client C) where
  field_of : C → Text → Text → CipherDetail → Result Text Text
  field_of sdk item_id name detail =
      if text_eq name (text "password") || text_eq name (text "pw")
      then ok_or (text "No password field") detail.password
      else if text_eq name (text "username") || text_eq name (text "user")
      then ok_or (text "No username field") detail.username
      else if text_eq name (text "uri") || text_eq name (text "url")
      then ok_or (text "No URI field") detail.uri
      else if text_eq name (text "notes") || text_eq name (text "note")
      then ok_or (text "No notes field") detail.notes
      else if text_eq name (text "name")
      then ok detail.name
      else if text_eq name (text "totp")
      then map_err (λ e. text "TOTP failed: " ++ sdk_error_display e) (client.totp sdk item_id)
      else err (text "Unknown field '" ++ (name ++ text "'"))

  unfoldable pub resolve_single_ref : C → List CipherSummary → Text → Text → Result Text Text
  unfolding field_of
  resolve_single_ref sdk items ref_id name = do
    item_id ← find_item ref_id items
    detail ←
        map_err (λ e. text "Failed to get item: " ++ sdk_error_display e) (client.get sdk item_id)
    field_of sdk item_id name detail

  resolved : Text → Result Text Text → ResolvedRef
  resolved reference (ok value) = record { reference = reference; value = some value; error = none }
  resolved reference (err e) = record { reference = reference; value = none; error = some e }

  unfoldable pub resolve_ref : C → List CipherSummary → VaultRef → ResolvedRef
  unfolding resolved
  resolve_ref sdk items r =
      resolved (text "grimoire:" ++ (r.id ++ (text "/" ++ r.field)))
        (resolve_single_ref sdk items r.id r.field)
