-- ===== src/Sdk/Auth/Prelogin.antt =====
-- crates/grimoire-sdk/src/auth.rs: what the server says of the key derivation, and its limits.
pub mod Limits
use bitsafe.Prelude.{
  ℕ, zero, suc, ◌<◌, ◌≤◌, ◌≡◌, ◌^◌, Bool, true, false, not, Option, none, some, ◌++◌, ltb, ◌∷◌, [],
  List, if◌then◌else◌,
}
use bitsafe.Prelude.Texts.{Text, text, display}
use bitsafe.Prelude.Results.{Result, ok, err, map_err, ok_or, reject_if, ◌>>=◌, ◌>>◌}
use bitsafe.Protocol.Response.{ℤ, pos, negsuc}
use bitsafe.Sdk.{SdkError, auth_failed, internal}
use bitsafe.Sdk.Cache.Floor.{Kdf}

-- A JSON document as far as the code reads it: `data[name].as_i64()` and `data[name].as_str()`.
pub record Document : Type 0 where
  pub as_i64 : Text → Option ℤ
  pub as_str : Text → Option Text

-- `TokenResponse`
pub record TokenResponse : Type 0 where
  pub access_token : Text
  pub key : Option Text
  pub private_key : Option Text

-- What the network answers: the status, and the body as JSON, or as a `TokenResponse` by the
-- deserializer that serde derives. An error is the text that it prints.
pub record Reply : Type 0 where
  pub is_success : Bool
  pub status : Text
  pub json : Result Text Document
  pub token_response : Result Text TokenResponse

-- The body of a request: the JSON object of one e-mail address, or a form.
pub data Body : Type 0 where
  email_json : Text → Body
  form : Text → Body

pub record HttpRequest : Type 0 where
  pub url : Text
  pub headers : List (Text × Text)
  pub body : Body

-- `.send()`
abbrev pub Network : Type 0
Network = HttpRequest → Result Text Reply

abbrev pub or_i64 : Option ℤ → Option ℤ → Option ℤ
or_i64 none z = z
or_i64 (some z) _ = some z

abbrev i64_or : Option ℤ → ℤ → ℤ
i64_or none z = z
i64_or (some z) _ = z

display_i64 : ℤ → Text
display_i64 (pos n) = display n
display_i64 (negsuc n) = b'-' ∷ display (suc n)

out_of_range : ℤ → Text → SdkError
unfolding display_i64
out_of_range v name =
    internal (text "KDF " ++ (name ++ (text " out of u32 range: " ++ display_i64 v)))

-- `u32::try_from(v)`
to_u32 : ℤ → Text → Result SdkError ℕ
unfolding out_of_range
to_u32 (pos n) name = if ltb n (2 ^ 32) then ok n else err (out_of_range (pos n) name)
to_u32 (negsuc n) name = err (out_of_range (negsuc n) name)

above : Text → ℕ → ℕ → SdkError
above name val max = internal (
    text "KDF "
    ++ (name
        ++ (text " exceeds maximum ("
            ++ (display val ++ (text " > " ++ (display max ++ text ")"))))))

bounded_u32 : ℤ → Text → ℕ → Result SdkError ℕ
unfolding to_u32 above
bounded_u32 v name max = do
  val ← to_u32 v name
  reject_if (ltb max val) (above name val max)
  ok val

-- `NonZeroU32::new(n).ok_or_else(…)`
non_zero : ℕ → Text → Result SdkError ℕ
non_zero zero message = err (internal message)
non_zero (suc n) message = ok (suc n)

-- A field under its name in camel case, or else in Pascal case.
either_case : Document → Text → Text → Option ℤ
either_case answer camel pascal = or_i64 (answer.as_i64 camel) (answer.as_i64 pascal)

pbkdf2_of : ℤ → Result SdkError Kdf
unfolding bounded_u32 non_zero
pbkdf2_of iterations = do
  iter ← bounded_u32 iterations (text "iterations") 2000000
  iter' ← non_zero iter (text "Zero KDF iterations")
  ok (Kdf.pbkdf2 iter')

argon2id_of : Document → ℤ → Result SdkError Kdf
unfolding bounded_u32 non_zero either_case
argon2id_of answer iterations = do
  memory ←
      ok_or (internal (text "Missing Argon2 memory"))
        (either_case answer (text "kdfMemory") (text "KdfMemory"))
  parallelism ←
      ok_or (internal (text "Missing Argon2 parallelism"))
        (either_case answer (text "kdfParallelism") (text "KdfParallelism"))
  iter ← bounded_u32 iterations (text "iterations") 20
  iter' ← non_zero iter (text "Zero iterations")
  mem ← bounded_u32 memory (text "memory") 4096
  mem' ← non_zero mem (text "Zero memory")
  par ← bounded_u32 parallelism (text "parallelism") 16
  par' ← non_zero par (text "Zero parallelism")
  ok (Kdf.argon2id iter' mem' par')

kdf_by_type : Document → ℤ → ℤ → Result SdkError Kdf
unfolding pbkdf2_of argon2id_of display_i64
kdf_by_type answer (pos zero) iterations = pbkdf2_of iterations
kdf_by_type answer (pos (suc zero)) iterations = argon2id_of answer iterations
kdf_by_type answer other iterations =
    err (internal (text "Unknown KDF type: " ++ display_i64 other))

kdf_of : Document → Result SdkError Kdf
unfolding kdf_by_type either_case
kdf_of answer =
    kdf_by_type answer (i64_or (either_case answer (text "kdf") (text "Kdf")) (pos 0))
      (i64_or (either_case answer (text "kdfIterations") (text "KdfIterations")) (pos 600000))

prelogin_url : Text → Text
prelogin_url server_url = server_url ++ text "/identity/accounts/prelogin"

unfoldable pub prelogin : Network → Text → Text → Result SdkError Kdf
unfolding kdf_of prelogin_url
prelogin network server_url email = do
  resp ←
      map_err (λ e. auth_failed (text "Cannot reach server: " ++ e))
        (network (record { url = prelogin_url server_url; headers = []; body = email_json email }))
  reject_if (not resp.is_success) (auth_failed (text "Prelogin failed: HTTP " ++ resp.status))
  answer ← map_err (λ e. auth_failed (text "Failed to parse prelogin: " ++ e)) resp.json
  kdf_of answer
