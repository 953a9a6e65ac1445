-- ===== src/V3.antt =====
-- wangle/v3: the client of an etcd version 3 server.
pub mod Messages
pub mod Response
pub mod Transaction
pub mod Action
pub mod Prefix
pub mod Values
pub mod Watching
pub mod Server
mod Examples
