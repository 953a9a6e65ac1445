-- ===== src/Service.antt =====
-- wangle/service: the dispatchers of requests.
pub mod ServerDispatcher
mod Examples
