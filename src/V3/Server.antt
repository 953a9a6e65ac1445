-- ===== src/V3/Server.antt =====
-- The etcd server as the client sees it: an interface with the behaviour that etcd documents for its
-- key-value service, which the repository calls and does not contain.
pub mod Interface
pub mod Replies
pub mod Actions
pub mod Setting
pub mod Updating
pub mod Swapping
pub mod Deleting
pub mod Memory
