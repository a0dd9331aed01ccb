-- ===== src/Cli/Clip/Agrees.antt =====
-- main.rs and commands/mod.rs: clip and get take the same field of an item.
use bitsafe.Prelude.{arith, ◌≡◌, false, Option, some, none}
use bitsafe.Prelude.Texts.{Text, text, text_eq}
use bitsafe.Prelude.Results.{Result, ok, ok_or, ◌>>=◌, >>=-eq-ok}
use bitsafe.Protocol.Response.{Response, Answer, VaultItemDetail}
use bitsafe.Cli.Error.{CliError, bail, wrong_shape}
use bitsafe.Cli.Clip.{field_value, value_of, get_field, secret_of}
use bitsafe.Cli.Requests.{check_error, result_value}
use bitsafe.Cli.Credentials.Get.{result_as, detail_of}

-- The message on an unknown field is the only difference.
value_of-ok :
    (unknown unknown' field : Text) (detail : VaultItemDetail) (value : Text)
    → value_of unknown field detail ≡ ok value
    → value_of unknown' field detail ≡ ok value
unfolding value_of field_value
value_of-ok unknown unknown' field detail value h = ground arith

-- The item of a reply, in the two ways that it is taken.
taken :
    (result : Option Answer) (next next' : VaultItemDetail → Result CliError Text) (value : Text)
    → ((detail : VaultItemDetail) → next detail ≡ ok value → next' detail ≡ ok value)
    → (ok_or (bail (text "Service returned no result payload")) result >>= λ answer.
        ok_or wrong_shape (detail_of answer) >>= next)
      ≡ ok value
    → (result_as detail_of result >>= next') ≡ ok value
unfolding result_as
taken none next next' value same h = absurd (cc)
taken (some answer) next next' value same h =
    let (detail, e, last) = >>=-eq-ok (ok_or wrong_shape (detail_of answer)) next h in
    rw (e) (same detail last)

-- Whatever `grimoire get` prints as the field of an item, `grimoire clip` copies, the TOTP code apart.
pub secret_of-get_field :
    (field value : Text) (response : Response)
    → text_eq field (text "totp") ≡ false
    → get_field field response ≡ ok value
    → secret_of field response ≡ ok value
unfolding get_field secret_of result_value
secret_of-get_field field value response other h =
    let (_, _, taken_so) = >>=-eq-ok (check_error response) _ h in
    rw (other)
      (taken response.result _ _ value (λ detail e. value_of-ok _ _ field detail value e) taken_so)
