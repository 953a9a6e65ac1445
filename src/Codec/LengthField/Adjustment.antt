-- ===== src/Codec/LengthField/Adjustment.antt =====
-- A negative length adjustment that outweighs the end of the length field.
use provider_agent_proxy.Common.{
  ℕ, ◌^◌, ◌≤◌, ◌<◌, ◌≡◌, ◌≢◌, inl, inr, List, Option, some, arith, length, drop,
}
use provider_agent_proxy.Common.Int.{negsuc}
use provider_agent_proxy.Folly.{IoBuf}
use provider_agent_proxy.Codec.Decoder.{Outcome, frame_larger_than}
use provider_agent_proxy.Codec.LengthField.{LengthFieldBasedFrameDecoder, adjusted, refused, decode}
use provider_agent_proxy.Codec.LengthField.Branches.{
  IsWidth, IsUsable, Decodes, too_small, too_large, incomplete, strip_too_large, complete, no_field,
  field, decode-Answers,
}

narrow : (w v : ℕ) → IsWidth w → w ≢ 8 → v < 256 ^ w → v < 2 ^ 32
narrow w v (inl e) h b = let b' : v < 256 = rw e at b in omega arith
narrow w v (inr (inl e)) h b = let b' : v < 65536 = rw e at b in omega arith
narrow w v (inr (inr (inl e))) h b = rw e at b
narrow w v (inr (inr (inr e))) h b = absurd (h e)

-- The sum wraps around as a `uint32_t`, so that the frame length comes out above 2 ^ 31.
adjusted_wraps :
    (d : LengthFieldBasedFrameDecoder) (k v : ℕ)
    → d.length_adjustment ≡ negsuc k
    → k < 2 ^ 31
    → d.length_field_end_offset ≤ k
    → v < 2 ^ 32
    → 2 ^ 31 ≤ adjusted d v
unfolding adjusted
adjusted_wraps d k v e hk he hv = rw e (omega arith)

Decodes-too_large :
    (d : LengthFieldBasedFrameDecoder) (q : List ℕ) (n : ℕ)
    {r : Option (Outcome LengthFieldBasedFrameDecoder)}
    → d.max_frame_length < n
    → d.length_field_end_offset ≤ n
    → Decodes d q n r
    → r ≡ some (refused d (frame_larger_than d.max_frame_length) (drop n q))
Decodes-too_large d q n h h' (too_small a e) = absurd (omega arith)
Decodes-too_large d q n h h' (too_large a b e) = e
Decodes-too_large d q n h h' (incomplete a b c e) = absurd (omega arith)
Decodes-too_large d q n h h' (strip_too_large a b c s e) = absurd (omega arith)
Decodes-too_large d q n h h' (complete a b c s e) = absurd (omega arith)

module _ (io : IoBuf) where
  -- A usable decoder with a length field of 1, 2 or 4 bytes, and a negative adjustment of at
  -- least -2 ^ 31 that is below the negated end offset of that field, answers every queue that
  -- holds the length field by refusing the frame as larger than the maximum and dropping at
  -- least 2 ^ 31 bytes, or all that are in the queue.
  pub negative_sum_refuses :
      (d : LengthFieldBasedFrameDecoder) (k : ℕ) (q : List ℕ)
      → IsUsable d
      → d.length_field_length ≢ 8
      → d.length_adjustment ≡ negsuc k
      → k < 2 ^ 31
      → d.length_field_end_offset ≤ k
      → d.length_field_end_offset ≤ length q
      → (n : ℕ) × (2 ^ 31 ≤ n)
        × (decode io d q ≡ some (refused d (frame_larger_than d.max_frame_length) (drop n q)))
  negative_sum_refuses d k q ok wide e hk he hq = elim (decode-Answers io d q ok) [
    | no_field short _ ↦ absurd (omega arith)
    | field v le r bound b ↦
        let big =
          adjusted_wraps d k v e hk he (narrow d.length_field_length v ok.width wide bound) in
        (
          adjusted d v,
          big,
          Decodes-too_large d q (adjusted d v) (omega (arith, ok.max_length)) (omega arith) b,
        )
  ]
