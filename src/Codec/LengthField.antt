-- ===== src/Codec/LengthField.antt =====
-- wangle/codec/LengthFieldBasedFrameDecoder.h and .cpp: frames that begin with their length.
pub mod Branches
pub mod Framing
pub mod Progress
pub mod Adjustment
pub mod Creation
use provider_agent_proxy.Common.{
  ℕ, ◌+◌, ◌-◌, ◌%◌, ◌^◌, Bool, ◌&&◌, ◌||◌, List, ◌∷◌, [], Option, none, some, ltb, leb, ◌==◌,
  if◌then◌else◌, length,
}
use provider_agent_proxy.Common.Int.{ℤ, pos, to_u32, to_u64, to_i32}
use provider_agent_proxy.Folly.{IoBuf}
use provider_agent_proxy.Codec.Decoder.{
  ReadError, frame_too_small, frame_larger_than, strip_larger_than_frame, Outcome, Decode,
}

-- All but the adjustment, an `int32_t`, are `uint32_t`.
pub record LengthFieldBasedFrameDecoder : Type 0 where
  pub length_field_length : ℕ
  pub max_frame_length : ℕ
  pub length_field_offset : ℕ
  pub length_adjustment : ℤ
  pub initial_bytes_to_strip : ℕ
  pub network_byte_order : Bool
  pub length_field_end_offset : ℕ

-- The constructor; `none`: a CHECK fails, and the process aborts.
unfoldable pub create : ℕ → ℕ → ℕ → ℤ → ℕ → Bool → Option LengthFieldBasedFrameDecoder
create field_length max offset adjustment strip order =
    if ltb 0 max && leb offset ((max + 2 ^ 32 - field_length) % 2 ^ 32)
    then some (record {
      length_field_length = field_length;
      max_frame_length = max;
      length_field_offset = offset;
      length_adjustment = adjustment;
      initial_bytes_to_strip = strip;
      network_byte_order = order;
      length_field_end_offset = (offset + field_length) % 2 ^ 32;
    })
    else none

-- A call that returns false and fires an exception.
abbrev pub refused :
    LengthFieldBasedFrameDecoder → ReadError → List ℕ → Outcome LengthFieldBasedFrameDecoder
refused d e rest = record { state = d; buf = rest; result = none; fired = e ∷ []; needed = 0 }

abbrev pub waits : LengthFieldBasedFrameDecoder → List ℕ → Outcome LengthFieldBasedFrameDecoder
waits d q = record { state = d; buf = q; result = none; fired = []; needed = 0 }

unfoldable pub refuse_after :
    LengthFieldBasedFrameDecoder
    → ReadError
    → Option (List ℕ)
    → Option (Outcome LengthFieldBasedFrameDecoder)
refuse_after d e none = none
refuse_after d e (some rest) = some (refused d e rest)

-- `frameLength += lengthAdjustment_ + lengthFieldEndOffset_`: the sum of an `int32_t` and a
-- `uint32_t` is a `uint32_t`, and is added to a `uint64_t`.
unfoldable pub adjusted : LengthFieldBasedFrameDecoder → ℕ → ℕ
adjusted d n = (n + (to_u32 d.length_adjustment + d.length_field_end_offset) % 2 ^ 32) % 2 ^ 64

module _ (io : IoBuf) where
  -- `none`: the cursor throws, or no case of the switch fits the width and the value is undefined.
  unfoldable pub get_unadjusted_frame_length : List ℕ → ℕ → ℕ → Bool → Option ℕ
  get_unadjusted_frame_length q offset width order =
      elim (io.skip (to_u64 (to_i32 (pos offset))) q) [
        | none ↦ none
        | some c ↦
            if width == 1 || width == 2 || width == 4 || width == 8
            then io.read_int order width c
            else none
      ]

  -- `buf.trimStart(initialBytesToStrip_)` and `buf.split(actualFrameLength)`: the length of the
  -- frame passes through an `int`.
  unfoldable pub take_frame :
      LengthFieldBasedFrameDecoder → List ℕ → ℕ → Option (Outcome LengthFieldBasedFrameDecoder)
  take_frame d q frame_length = elim (io.trim_start d.initial_bytes_to_strip q) [
    | none ↦ none
    | some q' ↦
        elim (io.split (to_u64 (to_i32 (pos (frame_length - d.initial_bytes_to_strip)))) q') [
          | none ↦ none
          | some (frame, rest) ↦
              some (record { state = d; buf = rest; result = some frame; fired = []; needed = 0 })
        ]
  ]

  -- The part of `decode` behind the computation of `frameLength`.
  unfoldable pub decode_frame :
      LengthFieldBasedFrameDecoder → List ℕ → ℕ → Option (Outcome LengthFieldBasedFrameDecoder)
  unfolding take_frame refuse_after
  decode_frame d q frame_length =
      if ltb frame_length d.length_field_end_offset
      then refuse_after d frame_too_small (io.trim_start d.length_field_end_offset q)
      else if ltb d.max_frame_length frame_length
      then some
          (refused d (frame_larger_than d.max_frame_length) (io.trim_start_at_most frame_length q))
      else if ltb (length q) frame_length
      then some (waits d q)
      else if ltb frame_length d.initial_bytes_to_strip
      then refuse_after d strip_larger_than_frame (io.trim_start frame_length q)
      else take_frame d q frame_length

  unfoldable pub decode : Decode LengthFieldBasedFrameDecoder
  unfolding get_unadjusted_frame_length adjusted decode_frame
  decode d q =
      if ltb (length q) d.length_field_end_offset
      then some (waits d q)
      else elim (get_unadjusted_frame_length q d.length_field_offset d.length_field_length
          d.network_byte_order) [ none ↦ none | some n ↦ decode_frame d q (adjusted d n) ]
