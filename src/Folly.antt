-- ===== src/Folly.antt =====
-- folly's buffers: the interface that the codecs and handlers take as a parameter, and a buffer
-- over lists that meets it.
pub mod Interface
pub mod ListBuf
pub use Interface.{IoBuf}
