-- ===== src/Service/Prompt.antt =====
-- crates/grimoire-service/src/prompt.rs: the prompt program and what its answers mean. Starting the
-- program is a parameter: `run` gives what came out, or the error of starting it.
use bitsafe.Prelude.{
  ℕ, Bool, true, false, ◌&&◌, ◌||◌, Option, some, [], ◌∷◌, ◌++◌, ◌==◌, if◌then◌else◌,
}
use bitsafe.Prelude.Texts.{Text, text, text_eq}
use bitsafe.Prelude.Results.{Result, ok, err}

-- crates/grimoire-common/src/config.rs
pub data PromptMethod : Type 0 where
  auto gui terminal none : PromptMethod

pub data Ask : Type 0 where
  password : Ask
  biometric : Text → Ask
  pin : ℕ → ℕ → Ask

pub record PromptResponse : Type 0 where
  pub status : Text
  pub credential : Option Text
  pub message : Option Text

-- `code` is the exit code, none for a signal; `response` is what the JSON on stdout parses to.
pub record Output : Type 0 where
  pub code : Option ℕ
  pub response : Result Text PromptResponse

abbrev pub Run : Type 0
Run = PromptMethod → Ask → Result Text Output

abbrev pub is_none_method : PromptMethod → Bool
is_none_method none = true
is_none_method _ = false

abbrev pub is_terminal : PromptMethod → Bool
is_terminal terminal = true
is_terminal _ = false

-- `!output.status.success() && output.status.code() == Some(1)`
exited_with_one : Option ℕ → Bool
exited_with_one Option.none = false
exited_with_one (some n) = n == 1

abbrev message_or : Text → Option Text → Text
message_or default Option.none = default
message_or default (some m) = m

-- What a password or a PIN prompt answers.
read_credential : Text → Result Text PromptResponse → Result Text (Option Text)
read_credential what (err e) = err (text "Failed to parse prompt response: " ++ e)
read_credential what (ok r) =
    if text_eq r.status (text "ok")
    then ok r.credential
    else if text_eq r.status (text "cancelled")
    then ok Option.none
    else err (what ++ message_or (text "unknown") r.message)

credential_of : Text → Result Text Output → Result Text (Option Text)
unfolding read_credential exited_with_one
credential_of what (err e) = err e
credential_of what (ok out) =
    if exited_with_one out.code then ok Option.none else read_credential what out.response

module _ (run : Run) where
  unfoldable pub prompt_password : PromptMethod → Result Text (Option Text)
  unfolding credential_of
  prompt_password method =
      if is_none_method method
      then err (text "Interactive prompting is disabled (prompt.method = \"none\")")
      else credential_of (text "Prompt error: ") (run method password)

  unfoldable pub prompt_pin : PromptMethod → ℕ → ℕ → Result Text (Option Text)
  unfolding credential_of
  prompt_pin method attempt max_attempts =
      if is_none_method method
      then err (text "Interactive prompting is disabled")
      else credential_of (text "PIN prompt error: ") (run method (pin attempt max_attempts))

-- `msg.contains("unavailable")`
starts_with : Text → Text → Bool
starts_with [] s = true
starts_with (a ∷ p) [] = false
starts_with (a ∷ p) (b ∷ s) = (a == b) && starts_with p s

contains : Text → Text → Bool
unfolding starts_with
contains p [] = starts_with p []
contains p (a ∷ s) = starts_with p (a ∷ s) || contains p s

read_verification : PromptResponse → Result Text Bool
unfolding contains
read_verification r =
    if text_eq r.status (text "verified")
    then ok true
    else if text_eq r.status (text "cancelled")
    then ok false
    else if text_eq r.status (text "error")
    then (let msg = message_or [] r.message in
        if contains (text "unavailable") msg
        then ok false
        else err (text "Biometric error: " ++ msg))
    else ok false

verification_of : Result Text Output → Result Text Bool
unfolding read_verification
verification_of (err e) = err e
verification_of (ok out) = elim out.response [
  | err e ↦ err (text "Failed to parse prompt response: " ++ e)
  | ok r ↦ read_verification r
]

module _ (run : Run) where
  unfoldable pub prompt_biometric : PromptMethod → Text → Result Text Bool
  unfolding verification_of
  prompt_biometric method reason =
      if is_none_method method || is_terminal method
      then err (text "Biometric not available with this prompt method")
      else verification_of (run method (biometric reason))
