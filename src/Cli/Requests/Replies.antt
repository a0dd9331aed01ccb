-- ===== src/Cli/Requests/Replies.antt =====
-- main.rs: what `send_unlocked` returns are replies to the request.
use bitsafe.Prelude.{Option, none, some}
use bitsafe.Prelude.Texts.{Text}
use bitsafe.Protocol.Request.{Request}
use bitsafe.Protocol.Response.{Response, RpcError}
use bitsafe.Sdk.Act.{Steps}
use bitsafe.Sdk.Act.Ends.{
  Anything, Ends, Ends-any, Ends-bind, Ends-bind_value, Ends-pure, Ends-raise, Ends-if,
}
use bitsafe.Cli.Error.{CliError}
use bitsafe.Cli.Requests.{on_error, unlock_and_retry, send_unlocked}

module _ {S : Type 0} (send : Request → Steps CliError S Response) (V : Response → Type 0)
    (request : Request) (given : Ends Anything V (send request)) where
  unlock_and_retry-Ends : Ends Anything V (unlock_and_retry send request)
  unfolding unlock_and_retry
  unlock_and_retry-Ends =
      Ends-bind _ _ (Ends-any _) (λ unlocked. Ends-bind _ _ (Ends-any _) (λ _. given))

  on_error-Ends :
      (no_prompt : Text) (response : Response) (error : Option RpcError)
      → V response
      → Ends Anything V (on_error send no_prompt request response error)
  unfolding on_error
  on_error-Ends no_prompt response none h = Ends-pure response h
  on_error-Ends no_prompt response (some e) h =
      Ends-if _ _ _ unlock_and_retry-Ends (Ends-if _ _ _ (Ends-raise _ tt) (Ends-pure response h))

  pub send_unlocked-Ends :
      (no_prompt : Text) → Ends Anything V (send_unlocked send no_prompt request)
  unfolding send_unlocked
  send_unlocked-Ends no_prompt =
      Ends-bind_value _ _ given (λ response h. on_error-Ends no_prompt response response.error h)
