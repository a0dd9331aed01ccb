-- ===== src/Sdk/Auth/TokenRequest.antt =====
-- crates/grimoire-sdk/src/auth.rs: the request of `login_token_request`, and what is made of the answer.
use bitsafe.Prelude.{not, some, none, List, [], ◌∷◌, ◌++◌, if◌then◌else◌}
use bitsafe.Prelude.Strings.{or_else}
use bitsafe.Prelude.Texts.{Text, text}
use bitsafe.Prelude.Results.{Result, ok, err, map_err}
use bitsafe.Sdk.{SdkError, auth_failed}
use bitsafe.Sdk.Auth.Prelogin.{Document, TokenResponse, Reply}

pub login_form : Text → Text → List (Text × Text)
login_form email password_hash =
    (text "grant_type", text "password")
    ∷ (text "username", email)
    ∷ (text "password", password_hash)
    ∷ (text "scope", text "api offline_access")
    ∷ (text "client_id", text "desktop")
    ∷ (text "deviceType", text "8")
    ∷ (text "deviceIdentifier", text "grimoire")
    ∷ (text "deviceName", text "Grimoire")
    ∷ []

pub login_headers : List (Text × Text)
login_headers =
    (text "Content-Type", text "application/x-www-form-urlencoded")
    ∷ (text "Bitwarden-Client-Name", text "desktop")
    ∷ (text "Bitwarden-Client-Version", text "2025.1.1")
    ∷ []

pub token_url : Text → Text
token_url server_url = server_url ++ text "/identity/connect/token"

error_message : Result Text Document → Text
error_message (err e) = text "Unknown error"
error_message (ok body) = elim (body.as_str (text "message")) [
  | some message ↦ message
  | none ↦ or_else (body.as_str (text "error_description")) (text "Unknown error")
]

-- What `login_token_request` makes of an answer.
unfoldable pub token_of : Reply → Result SdkError TokenResponse
unfolding error_message
token_of resp =
    if not resp.is_success
    then err
        (auth_failed (error_message resp.json ++ (text " (HTTP " ++ (resp.status ++ text ")"))))
    else map_err (λ e. auth_failed (text "Failed to parse login response: " ++ e))
        resp.token_response
