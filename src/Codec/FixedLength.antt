-- ===== src/Codec/FixedLength.antt =====
-- wangle/codec/FixedLengthFrameDecoder.h: frames of a fixed number of bytes.
pub mod Frames
use provider_agent_proxy.Common.{
  ℕ, ◌-◌, List, ◌∷◌, [], Option, none, some, ltb, if◌then◌else◌, length,
}
use provider_agent_proxy.Folly.{IoBuf}
use provider_agent_proxy.Codec.Decoder.{Outcome, Decode}

pub record FixedLengthFrameDecoder : Type 0 where
  pub frame_length : ℕ

module _ (io : IoBuf) where
  unfoldable pub decode : Decode FixedLengthFrameDecoder
  decode d q =
      if ltb (length q) d.frame_length
      then some (record {
        state = d;
        buf = q;
        result = none;
        fired = [];
        needed = d.frame_length - length q;
      })
      else elim (io.split d.frame_length q) [
        | none ↦ none
        | some (frame, rest) ↦
            some (record { state = d; buf = rest; result = some frame; fired = []; needed = 0 })
      ]
