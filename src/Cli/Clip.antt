-- ===== src/Cli/Clip.antt =====
-- crates/grimoire-cli/src/main.rs: `handle_clip`, up to the clipboard, and the single field that
-- `handle_get` of commands/mod.rs prints. The result is the secret.
pub mod Agrees
use bitsafe.Prelude.{Bool, ◌||◌, Option, none, some, ◌++◌, if◌then◌else◌}
use bitsafe.Prelude.Texts.{Text, text, text_eq}
use bitsafe.Prelude.Results
use bitsafe.Prelude.Results.{Result, ok, err, ok_or}
use bitsafe.Protocol.Request.{Request}
use bitsafe.Protocol.Response.{Response, Answer, VaultItemDetail, TotpResult}
use bitsafe.Sdk.Act.{Steps, lift, ◌>>=◌, ◌>>◌}
use bitsafe.Cli.Error.{CliError, bail, wrong_shape}
use bitsafe.Cli.Requests.{
  totp_request, get_request, check_error, result_value, send_unlocked, approve_first,
}
use bitsafe.Cli.Credentials.Get.{result_as, detail_of}

named : Text → Text → Text → Bool
named field long short = text_eq field long || text_eq field short

-- The arms of the match on the field.
field_value : Text → Text → VaultItemDetail → Result CliError (Option Text)
unfolding named
field_value unknown field detail =
    if named field (text "password") (text "pw")
    then ok detail.password
    else if named field (text "username") (text "user")
    then ok detail.username
    else if named field (text "uri") (text "url")
    then ok detail.uri
    else if named field (text "notes") (text "note")
    then ok detail.notes
    else if text_eq field (text "name")
    then ok (some detail.name)
    else err (bail (text "Unknown field: " ++ (field ++ unknown)))

empty_field : Text → CliError
empty_field field = bail (text "Field '" ++ (field ++ text "' is empty for this item"))

-- The value of the field, where it has one; `unknown` ends the message on an unknown field.
value_of : Text → Text → VaultItemDetail → Result CliError Text
unfolding field_value empty_field
value_of unknown field detail =
    Results.◌>>=◌ (field_value unknown field detail) λ value. ok_or (empty_field field) value

-- What `grimoire get <id> --field <field>` prints of a reply.
pub get_field : Text → Response → Result CliError Text
unfolding value_of
get_field field response = Results.◌>>=◌ (check_error response) λ _.
    Results.◌>>=◌ (result_value response) λ answer.
      Results.◌>>=◌ (ok_or wrong_shape (detail_of answer))
        (value_of (text ". Use: password, username, uri, notes, name, totp") field)

totp_of : Answer → Option TotpResult
totp_of (Answer.totp code) = some code
totp_of _ = none

clip_request : Text → Text → Request
clip_request id field =
    if text_eq field (text "totp") then totp_request id else get_request id (some field)

pub secret_of : Text → Response → Result CliError Text
unfolding value_of totp_of
secret_of field response =
    if text_eq field (text "totp")
    then (Results.◌>>=◌ (result_as totp_of response.result) λ totp. ok totp.code)
    else Results.◌>>=◌ (result_as detail_of response.result)
        (value_of (text ". Use: password, username, totp, uri, notes, name") field)

module _ {S : Type 0} (send : Request → Steps CliError S Response) where
  pub handle_clip : Text → Text → Steps CliError S Text
  unfolding clip_request secret_of
  handle_clip id field = do
    response ← send_unlocked send approve_first (clip_request id field)
    lift (check_error response)
    lift (secret_of field response)
