-- ===== src/Cli/Error.antt =====
-- The errors that the command line ends with, as anyhow carries them.
use bitsafe.Prelude.Texts.{Text}
use bitsafe.Protocol.Codec.{CodecError}

-- The service is not there, a value has another shape than expected, a panic, the channel fails, or a
-- message for the user.
pub data CliError : Type 0 where
  not_connected wrong_shape panicked : CliError
  channel : CodecError → CliError
  bail : Text → CliError
