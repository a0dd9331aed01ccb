-- ===== src/Cli.antt =====
-- crates/grimoire-cli/src: the command line client.
pub mod Error
pub mod Clip
pub mod Connection
pub mod Requests
pub mod Credentials
pub mod Generate
pub mod Manifest
pub mod Run
