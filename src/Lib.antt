-- ===== src/Lib.antt =====
-- Grimoire: a background service that holds an unlocked Bitwarden vault for its command line and for
-- SSH clients.
--
-- The clients and the service talk over a socket, in JSON requests and responses behind a length, which
-- after a key exchange are encrypted (Protocol). The service keeps one state behind one lock, which its
-- tasks share (Service); the state holds a client of the vault server, and the vault cache, the login
-- and the failed passwords are in files (Sdk). A request for vault data passes a gate: the vault is
-- unlocked, and the peer's terminal session has been approved by a fingerprint, a PIN or the master
-- password.
--
-- - Prelude: numbers, lists, bytes, texts, results, and the comparison without early exit.
-- - Protocol.Stream, Protocol.Codec: crates/grimoire-protocol/src/codec.rs. A reader is the bytes that
--   the peer has sent and how the stream ends; a writer is what was written and the room that is left.
--   `encode`, `decode`, `write_message`, `read_message`, `handshake_client` and `handshake_server`
--   return the codec or stream after the call. The children hold the proofs: Plain, Sealed, Channel,
--   Replay, Nonces, Conversation, Handshake.
-- - Protocol.Request: crates/grimoire-protocol/src/request.rs, with the untagged deserialization over
--   JSON values in Request.Untagged. Protocol.Response: crates/grimoire-protocol/src/response.rs.
-- - Sdk.Cache: crates/grimoire-sdk/src/cache.rs. Sdk.Client is the interface of `GrimoireClient` that
--   the service calls; Sdk.Auth, Sdk.Sync, Sdk.Vault and Sdk.Ssh fill its methods from auth.rs, sync.rs,
--   vault.rs and ssh.rs of crates/grimoire-sdk/src, and Sdk.Grimoire joins them. Sdk.State: the
--   repository of state.rs.
-- - Service.World: the state of crates/grimoire-service/src/state.rs with the files and the clocks;
--   Service.State and Service.Approvals its methods, Service.Unlock the ones that call the client,
--   Service.Persist the files of crates/grimoire-sdk/src/persist.rs and cache.rs.
-- - Sdk.Act: operations that may fail and keep what they wrote. Service.Task: tasks as sequences of
--   critical sections, before each of which the other tasks do whatever they do.
-- - Service.Prompt: crates/grimoire-service/src/prompt.rs. Service.Approval:
--   crates/grimoire-service/src/approval.rs. Service.Session: crates/grimoire-service/src/session.rs,
--   with the handlers in Session.Account and Session.Items, and `handle_client` in
--   Service.Connection. Service.Server: the accept loop of crates/grimoire-service/src/server.rs;
--   Service.Peer: crates/grimoire-service/src/peer.rs on Linux. Service.Workers:
--   crates/grimoire-service/src/sync_worker.rs. Service.SshAgent:
--   crates/grimoire-service/src/ssh_agent.rs. Service.Session.Errors, Service.Session.Refs: the errors
--   and the vault references of session.rs.
-- - Cli: crates/grimoire-cli/src. Cli.Connection is `send_request` of main.rs, Cli.Requests the request
--   of each command and the retry behind an unlock, Cli.Credentials commands/credential_helper.rs with
--   the part of main.rs that uses it, Cli.Generate commands/generate.rs, Cli.Manifest
--   commands/manifest.rs, Cli.Clip and Cli.Run `handle_clip` and `handle_run`.
-- - Tests: runs and instances on concrete inputs.
--
-- Integers are natural numbers with the wrap-around written out: counters of messages modulo 2^64,
-- lengths, attempts and scope keys modulo 2^32. An `Instant` counts nanoseconds
-- since the earliest one that the platform can hold.
-- The loop of `handle_client` runs on fuel, one unit for each message; each message takes a byte from
-- the stream, so more fuel than the client sends bytes is enough. All other functions are total.
--
-- Parameters, since their code is not in the repository or is a call of the system: serde_json on
-- messages and caches, ChaCha20-Poly1305, X25519, HKDF, HMAC and SHA-256, the calls of the Bitwarden
-- SDK, what the network answers, the prompt program, the credential store, the text of
-- `/proc/<pid>/stat`, and what a random source gives. The service takes its client and the session
-- leader of a process as parameters too, which Sdk.Grimoire and Service.Peer fill. What is relied on
-- stands in records (IsJson, IsAead, IsKeyExchange, IsHmac, IsSealing, ShortSignatures, KnownNames). A
-- prompt and a server are functions of what they are asked.
--
-- Not modelled, since they are calls of the system or of other programs: argument parsing, printing, the
-- clipboard and the service manager in the command line, the start of the service and its sockets, the
-- prompt program, logging, and the erasure of secrets from memory. The estimate of entropy is in
-- floating point.
pub mod Prelude
pub mod Protocol
pub mod Sdk
pub mod Cli
pub mod Service
pub mod Tests
