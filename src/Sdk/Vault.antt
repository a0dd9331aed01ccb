-- ===== src/Sdk/Vault.antt =====
-- crates/grimoire-sdk/src/vault.rs: `VaultClient`, over the calls of the Bitwarden SDK that it makes.
-- An error of the SDK is the text that it prints.
pub mod Uris
use bitsafe.Prelude.{
  ℕ, Bool, true, false, ◌||◌, Option, none, some, List, [], ◌∷◌, map, ◌++◌, ◌==◌, if◌then◌else◌,
}
use bitsafe.Prelude.Texts.{Text, text}
use bitsafe.Prelude.Strings.{or_else, contains}
use bitsafe.Prelude.Results.{Result, ok, err, map_err, ok_or, ◌>>=◌}
use bitsafe.Sdk.{SdkError, internal, not_found}
use bitsafe.Sdk.Client.{
  Client, CipherType, login, secure_note, card, identity, ssh_key, CipherSummary, CipherDetail,
  VaultFilter,
}

-- `bitwarden_vault::CipherListView`, `LoginView` and `CipherView`, as far as the code reads them. The
-- SDK has its own enumeration of cipher types, for both views.
pub data ViewType : Type 0 where
  login_view secure_note_view card_view identity_view ssh_key_view : ViewType

pub record CipherListView : Type 0 where
  pub id : Option Text
  pub name : Text
  pub kind : ViewType
  pub subtitle : Text

pub record LoginView : Type 0 where
  pub username : Option Text
  pub password : Option Text
  pub uris : Option (List (Option Text))
  pub totp : Option Text

pub record CipherView : Type 0 where
  pub id : Option Text
  pub name : Text
  pub kind : ViewType
  pub login_data : Option LoginView
  pub notes : Option Text

-- `ciphers().list()` with its successes, `ciphers().get(id)`, `totp().generate_totp(key, None)`, and
-- `to_lowercase` of the standard library.
pub record PasswordManager (C : Type 0) : Type 0 where
  pub list : C → Result Text (List CipherListView)
  pub get : C → Text → Result Text CipherView
  pub generate_totp : C → Text → Result Text Text
  pub to_lowercase : Text → Text

map_cipher_type : ViewType → CipherType
map_cipher_type login_view = login
map_cipher_type secure_note_view = secure_note
map_cipher_type card_view = card
map_cipher_type identity_view = identity
map_cipher_type ssh_key_view = ssh_key

non_empty : Text → Option Text
non_empty [] = none
non_empty (a ∷ s) = some (a ∷ s)

summary_of : CipherListView → CipherSummary
unfolding map_cipher_type non_empty
summary_of c = record {
  id = or_else c.id [];
  name = c.name;
  cipher_type = map_cipher_type c.kind;
  username = non_empty c.subtitle;
  uri = none;
}

-- `retain`
retain : (CipherSummary → Bool) → List CipherSummary → List CipherSummary
retain test [] = []
retain test (c ∷ items) = let rest = retain test items in if test c then c ∷ rest else rest

discriminant : CipherType → ℕ
discriminant login = 0
discriminant secure_note = 1
discriminant card = 2
discriminant identity = 3
discriminant ssh_key = 4

of_type : Option CipherType → List CipherSummary → List CipherSummary
unfolding retain discriminant
of_type none items = items
of_type (some kind) items = retain (λ c. discriminant c.cipher_type == discriminant kind) items

first_uri : Option (List (Option Text)) → Option Text
first_uri none = none
first_uri (some []) = none
first_uri (some (uri ∷ _)) = uri

detail_with : CipherView → Option LoginView → CipherDetail
unfolding first_uri map_cipher_type
detail_with view none = record {
  id = or_else view.id [];
  name = view.name;
  cipher_type = map_cipher_type view.kind;
  username = none;
  password = none;
  uri = none;
  notes = view.notes;
  totp = none;
}
detail_with view (some l) = record {
  id = or_else view.id [];
  name = view.name;
  cipher_type = map_cipher_type view.kind;
  username = l.username;
  password = l.password;
  uri = first_uri l.uris;
  notes = view.notes;
  totp = l.totp;
}

totp_key : Option LoginView → Option Text
totp_key none = none
totp_key (some l) = l.totp

module _ {C : Type 0} (pm : PasswordManager C) where
  text_matches : Text → Option Text → Bool
  unfolding contains
  text_matches q none = false
  text_matches q (some username) = contains q (pm.to_lowercase username)

  found_by : Option Text → List CipherSummary → List CipherSummary
  unfolding retain contains text_matches
  found_by none items = items
  found_by (some search) items =
      let q = pm.to_lowercase search in
      retain (λ c. contains q (pm.to_lowercase c.name) || text_matches q c.username) items

  unfoldable pub list : C → VaultFilter → Result SdkError (List CipherSummary)
  unfolding found_by of_type summary_of
  list c filter = do
    successes ← map_err (λ e. internal (text "Failed to list ciphers: " ++ e)) (pm.list c)
    ok (found_by filter.search (of_type filter.cipher_type (map summary_of successes)))

  unfoldable pub get : C → Text → Result SdkError CipherDetail
  unfolding detail_with
  get c id = do view ← map_err not_found (pm.get c id); ok (detail_with view view.login_data)

  unfoldable pub totp : C → Text → Result SdkError Text
  unfolding totp_key
  totp c id = do
    view ← map_err not_found (pm.get c id)
    key ← ok_or (not_found (text "No TOTP key for this item")) (totp_key view.login_data)
    map_err (λ e. internal (text "TOTP generation failed: " ++ e)) (pm.generate_totp c key)
