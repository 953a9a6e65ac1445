-- ===== src/Channel.antt =====
-- wangle/channel: handlers of a pipeline.
pub mod OutputBuffering
pub mod Pipeline
mod Examples
