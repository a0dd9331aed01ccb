-- ===== src/Protocol.antt =====
-- crates/grimoire-protocol/src: what the clients and the service exchange.
pub mod Stream
pub mod Codec
pub mod Request
pub mod Response
