-- ===== src/Service.antt =====
-- crates/grimoire-service/src: the daemon.
pub mod Prompt
pub mod World
pub mod Persist
pub mod Approvals
pub mod State
pub mod Unlock
pub mod Task
pub mod Approval
pub mod Connection
pub mod Peer
pub mod Server
pub mod Session
pub mod Workers
pub mod SshAgent
