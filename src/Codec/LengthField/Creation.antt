-- ===== src/Codec/LengthField/Creation.antt =====
-- The constructor of LengthFieldBasedFrameDecoder.
use provider_agent_proxy.Common.{ℕ, ◌≤◌, ◌<◌, ◌^◌, ◌≡◌, Bool, some, arith}
use provider_agent_proxy.Common.Int.{ℤ}
use provider_agent_proxy.Codec.LengthField.{LengthFieldBasedFrameDecoder, create}
use provider_agent_proxy.Codec.LengthField.Branches.{IsWidth, IsUsable}

-- For a width that the decoder supports, a maximum below 2 ^ 31 and no smaller than the width, a
-- decoder that passes the checks of the constructor is usable, and its end offset is at most the
-- maximum.
pub create-IsUsable :
    (w max offset : ℕ) (adjustment : ℤ) (strip : ℕ) (order : Bool)
    (d : LengthFieldBasedFrameDecoder)
    → IsWidth w
    → w ≤ max
    → max < 2 ^ 31
    → create w max offset adjustment strip order ≡ some d
    → IsUsable d × (d.length_field_end_offset ≤ d.max_frame_length)
unfolding create
create-IsUsable w max offset adjustment strip order d known fits small e = ground arith
