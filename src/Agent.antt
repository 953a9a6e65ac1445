-- ===== src/Agent.antt =====
-- wangle/chijinxin: the provider agent, a TCP proxy, and its string helper.
pub mod Split
pub mod Proxy
mod Examples
