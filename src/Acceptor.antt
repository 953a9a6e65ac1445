-- ===== src/Acceptor.antt =====
-- wangle/acceptor: what keeps the connections of a server.
pub mod ConnectionManager
mod Examples
