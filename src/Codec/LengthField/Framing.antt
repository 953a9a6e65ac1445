-- ===== src/Codec/LengthField/Framing.antt =====
-- The frame length as a sum of integers, and what `decode` answers for it.
use provider_agent_proxy.Common.{
  ℕ, ◌+◌, ◌-◌, ◌*◌, ◌/◌, ◌%◌, ◌^◌, ◌≤◌, ◌<◌, ◌≡◌, List, Option, some, arith, length, drop,
}
use provider_agent_proxy.Common.Int.{ℤ, pos, negsuc, pos_part, neg_part, to_u32}
use provider_agent_proxy.Folly.{IoBuf}
use provider_agent_proxy.Codec.Decoder.{Outcome}
use provider_agent_proxy.Codec.LengthField.{LengthFieldBasedFrameDecoder, adjusted, waits, decode}
use provider_agent_proxy.Codec.LengthField.Branches.{
  IsUsable, Decodes, no_field, field, decode-Answers,
}

-- The number `s` of 32 bits is the sum of an integer and a number, up to multiples of 2 ^ 32. An
-- integer is the difference of its two parts.
abbrev pub IsSum32 : ℤ → ℕ → ℕ → Type 0
IsSum32 z e s =
    (s < 2 ^ 32) × (p : ℕ) × (q : ℕ) × (pos_part z + e + 2 ^ 32 * p ≡ s + neg_part z + 2 ^ 32 * q)

-- The frame length `n` for the number `v` of a length field: the sum of `v` and of a number of 32
-- bits, up to multiples of 2 ^ 64, where that number is the sum of the adjustment and the end offset
-- of the field.
pub record IsFrameLength (d : LengthFieldBasedFrameDecoder) (v n : ℕ) : Type 0 where
  pub added : ℕ
  pub added_sum : IsSum32 d.length_adjustment d.length_field_end_offset added
  pub fits : n < 2 ^ 64
  pub whole : (r : ℕ) × (v + added ≡ n + 2 ^ 64 * r)

to_u32-IsSum32 : (z : ℤ) (e : ℕ) → IsSum32 z e ((to_u32 z + e) % 2 ^ 32)
to_u32-IsSum32 (pos a) e = (omega arith, 0, a / 2 ^ 32 + (a % 2 ^ 32 + e) / 2 ^ 32, omega arith)
to_u32-IsSum32 (negsuc b) e =
    (omega arith, b / 2 ^ 32 + 1, (2 ^ 32 - 1 - b % 2 ^ 32 + e) / 2 ^ 32, omega arith)

adjusted-IsFrameLength :
    (d : LengthFieldBasedFrameDecoder) (v : ℕ) → IsFrameLength d v (adjusted d v)
unfolding adjusted
adjusted-IsFrameLength d v = record {
  added = (to_u32 d.length_adjustment + d.length_field_end_offset) % 2 ^ 32;
  added_sum = to_u32-IsSum32 d.length_adjustment d.length_field_end_offset;
  fits = omega arith;
  whole = (
    (v + (to_u32 d.length_adjustment + d.length_field_end_offset) % 2 ^ 32) / 2 ^ 64,
    omega arith,
  );
}

-- Where the sums are in range, the frame length is that of the integers.
IsFrameLength-exact :
    (d : LengthFieldBasedFrameDecoder) (v n s : ℕ)
    → IsFrameLength d v n
    → pos_part d.length_adjustment + d.length_field_end_offset ≡ s + neg_part d.length_adjustment
    → s < 2 ^ 32
    → v + s < 2 ^ 64
    → n ≡ v + s
IsFrameLength-exact d v n s f e small below =
    let (bound, p, q, sum) = f.added_sum in
    let (r, whole) = f.whole in let same : f.added ≡ s = omega arith in omega (arith, f.fits)

module _ (io : IoBuf) where
  -- The queue does not hold the length field yet, or the field holds the number `v`, and the frame
  -- length that belongs to it decides.
  pub data Frames (d : LengthFieldBasedFrameDecoder) (q : List ℕ)
      (r : Option (Outcome LengthFieldBasedFrameDecoder)) : Type 0 where
    short : length q < d.length_field_end_offset → r ≡ some (waits d q) → Frames d q r
    long :
        (v n : ℕ)
        → d.length_field_end_offset ≤ length q
        → io.read_int d.network_byte_order d.length_field_length (drop d.length_field_offset q)
          ≡ some v
        → v < 256 ^ d.length_field_length
        → IsFrameLength d v n
        → Decodes d q n r
        → Frames d q r

  -- On every queue a usable decoder answers without an exception that leaves it. It waits for
  -- the length field; or it reads a number there that fits the field. The frame length is then this
  -- number and, reduced modulo 2 ^ 32, the integer sum of the adjustment and the end offset of the
  -- field, added up modulo 2 ^ 64; and it decides which one of five branches is taken (too small, too
  -- large, incomplete, less than what is stripped, or a frame).
  pub decode-Frames :
      (d : LengthFieldBasedFrameDecoder) (q : List ℕ) → IsUsable d → Frames d q (decode io d q)
  decode-Frames d q ok = elim (decode-Answers io d q ok) [
    | no_field less e ↦ short less e
    | field v le e bound branch ↦
        long v (adjusted d v) le e bound (adjusted-IsFrameLength d v) branch
  ]
