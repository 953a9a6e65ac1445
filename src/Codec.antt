-- ===== src/Codec.antt =====
-- wangle/codec: the frame decoders and the length prepender.
pub mod Decoder
pub mod FixedLength
pub mod LengthField
pub mod Prepender
pub mod Line
mod Examples
