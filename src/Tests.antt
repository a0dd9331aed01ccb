-- ===== src/Tests.antt =====
-- Runs of the modelled code on concrete inputs, and the theorems at inputs where their conditions
-- hold.
mod Libraries
mod Protocol
mod Sdk
mod Service
mod Requests
mod SshAgent
mod Channel
mod Cli
mod Client
