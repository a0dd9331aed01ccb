-- ===== src/Cli/Requests.antt =====
-- crates/grimoire-cli/src/main.rs: the requests of the commands, and the unlocking of a locked vault
-- on the way. `send` is `send_request`, which may change what lies behind it. Progress messages, the
-- pause of half a second behind an unlock, and the erasure of secrets are left out.
pub mod Replies
use bitsafe.Prelude.{ℕ, Bool, true, false, Option, none, some, ◌==◌, if◌then◌else◌}
use bitsafe.Prelude.Texts.{Text, text, text_eq}
use bitsafe.Prelude.Results.{Result, ok, err, ok_or, ◌>>=◌}
use bitsafe.Protocol.Request.{Request, RequestParams}
use bitsafe.Protocol.Response.{Response, RpcError, Answer, ℤ, pos, negsuc}
use bitsafe.Sdk.Act.{Steps}
use bitsafe.Sdk.Act
use bitsafe.Cli.Error.{CliError, bail}

-- `Request::new(1, method, params)`
abbrev pub request_of : Text → Option RequestParams → Request
request_of method params = record { id = some 1; method = method; params = params }

-- The commands that send one request.
pub data Command : Type 0 where
  status approve sync lock logout : Command
  login : Text → Option Text → Command
  unlock : Bool → Command
  list : Option Text → Option Text → Command
  get : Text → Option Text → Command
  totp : Text → Command

abbrev pub totp_request : Text → Request
totp_request id = request_of (text "vault.totp") (some (RequestParams.vault_totp id))

abbrev pub get_request : Text → Option Text → Request
get_request id field =
    request_of (text "vault.get")
      (some (RequestParams.vault_get (record { id = id; field = field })))

abbrev pub list_request : Option Text → Option Text → Request
list_request kind search =
    request_of (text "vault.list")
      (some (RequestParams.vault_list (record { kind = kind; search = search })))

abbrev pub unlock_request : Option Text → Request
unlock_request password = request_of (text "auth.unlock") (some (RequestParams.unlock password))

is_totp : Option Text → Bool
is_totp none = false
is_totp (some field) = text_eq field (text "totp")

-- `password` is what `rpassword::prompt_password` gives, where the command asks for it.
module _ (password : Result CliError Text) where
  unfoldable pub command_request : Command → Result CliError Request
  unfolding is_totp text_eq text
  command_request status = ok (request_of (text "auth.status") none)
  command_request (login email server) = do
    typed ← password
    ok (
        request_of (text "auth.login") (
          some (
            RequestParams.login
              (record { email = email; password = some typed; server_url = server }))))
  command_request (unlock true) = do typed ← password; ok (unlock_request (some typed))
  command_request (unlock false) = ok (unlock_request none)
  command_request (list kind search) = ok (list_request kind search)
  command_request (get id field) =
      ok (if is_totp field then totp_request id else get_request id field)
  command_request (totp id) = ok (totp_request id)
  command_request approve = do
    typed ← password
    ok (request_of (text "auth.authorize") (some (RequestParams.unlock (some typed))))
  command_request sync = ok (request_of (text "sync.trigger") none)
  command_request lock = ok (request_of (text "auth.lock") none)
  command_request logout = ok (request_of (text "auth.logout") none)

abbrev has_code : ℕ → ℤ → Bool
has_code n (pos m) = m == n
has_code n (negsuc m) = false

abbrev error_of : Option RpcError → Result CliError (Unit {0})
error_of none = ok tt
error_of (some e) = err (bail e.message)

-- commands/mod.rs
unfoldable pub check_error : Response → Result CliError (Unit {0})
check_error r = error_of r.error

unfoldable pub result_value : Response → Result CliError Answer
result_value r = ok_or (bail (text "Service returned no result payload")) r.result

module _ {S : Type 0} (send : Request → Steps CliError S Response) where
  -- Ask the service to unlock, and send the request again.
  unlock_and_retry : Request → Steps CliError S Response
  unfolding check_error
  unlock_and_retry request =
      Act.◌>>=◌ (send (unlock_request none))
        λ unlocked. Act.◌>>=◌ (Act.lift (check_error unlocked)) λ _. send request

  on_error : Text → Request → Response → Option RpcError → Steps CliError S Response
  unfolding unlock_and_retry
  on_error no_prompt request response none = Act.pure response
  on_error no_prompt request response (some e) =
      if has_code 1000 e.code
      then unlock_and_retry request
      else if has_code 1008 e.code
      then Act.raise (bail no_prompt)
      else Act.pure response

  -- `no_prompt` is the message where the service cannot prompt.
  unfoldable pub send_unlocked : Text → Request → Steps CliError S Response
  unfolding on_error
  send_unlocked no_prompt request =
      Act.◌>>=◌ (send request) λ response. on_error no_prompt request response response.error

abbrev pub approve_first : Text
approve_first =
    text "No GUI prompt available. Run `grimoire approve` first to pre-approve access, then retry."
