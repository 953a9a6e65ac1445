-- ===== src/Codec/LengthField/Branches.antt =====
-- `decode` on each of its branches, for a decoder whose numbers are in range.
use provider_agent_proxy.Common.{
  ℕ, ◌+◌, ◌-◌, ◌^◌, ◌≤◌, ◌<◌, ◌≡◌, ◌⊎◌, inl, inr, List, [], Option, some, arith, ltb, ◌==◌, ◌||◌,
  true, length, take, drop, length-drop, Bool-cases, ltb→lt, ltb→le,
}
use provider_agent_proxy.Common.Int.{pos, to_u64, to_i32}
use provider_agent_proxy.Folly.{IoBuf}
use provider_agent_proxy.Codec.Decoder.{
  frame_too_small, frame_larger_than, strip_larger_than_frame, Outcome,
}
use provider_agent_proxy.Codec.LengthField.{
  LengthFieldBasedFrameDecoder, get_unadjusted_frame_length, adjusted, refused, refuse_after, waits,
  take_frame, decode_frame, decode,
}

-- A width that the switch of `getUnadjustedFrameLength` knows.
abbrev pub IsWidth : ℕ → Type 0
IsWidth w = (w ≡ 1) ⊎ (w ≡ 2) ⊎ (w ≡ 4) ⊎ (w ≡ 8)

-- A supported width, and sizes that pass through an `int` unchanged.
pub record IsUsable (d : LengthFieldBasedFrameDecoder) : Type 0 where
  pub width : IsWidth d.length_field_length
  pub offset : d.length_field_offset < 2 ^ 31
  pub end_offset : d.length_field_end_offset ≡ d.length_field_offset + d.length_field_length
  pub max_length : d.max_frame_length < 2 ^ 31

through_int : (n : ℕ) → n < 2 ^ 31 → to_u64 (to_i32 (pos n)) ≡ n
through_int n h = ground arith

known_width : (w : ℕ) → IsWidth w → (w == 1 || w == 2 || w == 4 || w == 8) ≡ true
known_width w h = ground arith

abbrev pub framed : LengthFieldBasedFrameDecoder → List ℕ → ℕ → Outcome LengthFieldBasedFrameDecoder
framed d q n = record {
  state = d;
  buf = drop (n - d.initial_bytes_to_strip) (drop d.initial_bytes_to_strip q);
  result = some (take (n - d.initial_bytes_to_strip) (drop d.initial_bytes_to_strip q));
  fired = [];
  needed = 0;
}

-- What `decode` answers on a queue that holds the length field, as a description that does not
-- compute: `n` is the adjusted frame length, and the conditions exclude one another.
pub data Decodes (d : LengthFieldBasedFrameDecoder) (q : List ℕ) (n : ℕ)
    (r : Option (Outcome LengthFieldBasedFrameDecoder)) : Type 0 where
  too_small :
      n < d.length_field_end_offset
      → r ≡ some (refused d frame_too_small (drop d.length_field_end_offset q))
      → Decodes d q n r
  too_large :
      d.length_field_end_offset ≤ n
      → d.max_frame_length < n
      → r ≡ some (refused d (frame_larger_than d.max_frame_length) (drop n q))
      → Decodes d q n r
  incomplete :
      d.length_field_end_offset ≤ n
      → n ≤ d.max_frame_length
      → length q < n
      → r ≡ some (waits d q)
      → Decodes d q n r
  strip_too_large :
      d.length_field_end_offset ≤ n
      → n ≤ d.max_frame_length
      → n ≤ length q
      → n < d.initial_bytes_to_strip
      → r ≡ some (refused d strip_larger_than_frame (drop n q))
      → Decodes d q n r
  complete :
      d.length_field_end_offset ≤ n
      → n ≤ d.max_frame_length
      → n ≤ length q
      → d.initial_bytes_to_strip ≤ n
      → r ≡ some (framed d q n)
      → Decodes d q n r

module _ (io : IoBuf) where
  pub get_unadjusted_frame_length_lem :
      (d : LengthFieldBasedFrameDecoder) (q : List ℕ)
      → IsUsable d
      → d.length_field_end_offset ≤ length q
      → get_unadjusted_frame_length io q d.length_field_offset d.length_field_length
          d.network_byte_order
        ≡ io.read_int d.network_byte_order d.length_field_length (drop d.length_field_offset q)
  unfolding get_unadjusted_frame_length
  get_unadjusted_frame_length_lem d q ok h = rw (
    through_int d.length_field_offset ok.offset,
    io.skip_enough d.length_field_offset q (omega (arith, ok.end_offset)),
    get_unadjusted_frame_length,
    known_width d.length_field_length ok.width,
  )

  pub take_frame_lem :
      (d : LengthFieldBasedFrameDecoder) (q : List ℕ) (n : ℕ)
      → IsUsable d
      → n ≤ d.max_frame_length
      → n ≤ length q
      → d.initial_bytes_to_strip ≤ n
      → take_frame io d q n ≡ some (framed d q n)
  unfolding take_frame
  take_frame_lem d q n ok hmax hlen hstrip = rw (
    io.trim_start_enough d.initial_bytes_to_strip q (omega arith),
    through_int (n - d.initial_bytes_to_strip) (omega (arith, ok.max_length)),
    io.split_enough (n - d.initial_bytes_to_strip) (drop d.initial_bytes_to_strip q)
        (omega (arith, length-drop d.initial_bytes_to_strip q)),
    take_frame,
  )

  pub decode_frame-Decodes :
      (d : LengthFieldBasedFrameDecoder) (q : List ℕ) (n : ℕ)
      → IsUsable d
      → d.length_field_end_offset ≤ length q
      → Decodes d q n (decode_frame io d q n)
  unfolding decode_frame refuse_after
  decode_frame-Decodes d q n ok h = elim (Bool-cases (ltb n d.length_field_end_offset)) [
    | inl small ↦
        too_small (ltb→lt _ _ small)
          (rw (small, io.trim_start_enough d.length_field_end_offset q h))
    | inr not_small ↦ elim (Bool-cases (ltb d.max_frame_length n)) [
      | inl large ↦
          too_large (ltb→le _ _ not_small) (ltb→lt _ _ large)
            (rw (not_small, large, io.trim_start_at_most_lem n q))
      | inr not_large ↦ elim (Bool-cases (ltb (length q) n)) [
        | inl short ↦
            incomplete (ltb→le _ _ not_small) (ltb→le _ _ not_large) (ltb→lt _ _ short)
              (rw (not_small, not_large, short))
        | inr enough ↦ elim (Bool-cases (ltb n d.initial_bytes_to_strip)) [
          | inl strip ↦
              strip_too_large (ltb→le _ _ not_small) (ltb→le _ _ not_large) (ltb→le _ _ enough)
                (ltb→lt _ _ strip)
                (rw (
                  not_small,
                  not_large,
                  enough,
                  strip,
                  io.trim_start_enough n q (ltb→le _ _ enough),
                ))
          | inr fits ↦
              complete (ltb→le _ _ not_small) (ltb→le _ _ not_large) (ltb→le _ _ enough)
                (ltb→le _ _ fits)
                (rw (not_small, not_large, enough, fits)
                  (take_frame_lem d q n ok (ltb→le _ _ not_large) (ltb→le _ _ enough)
                    (ltb→le _ _ fits)))
        ]
      ]
    ]
  ]

  -- The queue does not hold the length field yet, or it holds the number `v` there, and what follows
  -- is decided by the adjusted length.
  pub data Answers (d : LengthFieldBasedFrameDecoder) (q : List ℕ)
      (r : Option (Outcome LengthFieldBasedFrameDecoder)) : Type 0 where
    no_field : length q < d.length_field_end_offset → r ≡ some (waits d q) → Answers d q r
    field :
        (v : ℕ)
        → d.length_field_end_offset ≤ length q
        → io.read_int d.network_byte_order d.length_field_length (drop d.length_field_offset q)
          ≡ some v
        → v < 256 ^ d.length_field_length
        → Decodes d q (adjusted d v) r
        → Answers d q r

  -- On every queue a usable decoder answers without an exception that leaves it: it waits for
  -- the length field, or it reads a number there that fits the field, and takes the one of five
  -- branches that the adjusted length decides (too small, too large, incomplete, less than what
  -- is stripped, or a frame).
  pub decode-Answers :
      (d : LengthFieldBasedFrameDecoder) (q : List ℕ) → IsUsable d → Answers d q (decode io d q)
  unfolding decode
  decode-Answers d q ok = elim (Bool-cases (ltb (length q) d.length_field_end_offset)) [
    | inl short ↦ no_field (ltb→lt _ _ short) (rw short)
    | inr enough ↦
        let le : d.length_field_end_offset ≤ length q = ltb→le _ _ enough in
        let (v, e, bound) =
          io.read_int_total d.network_byte_order d.length_field_length
            (drop d.length_field_offset q)
            (omega (arith, ok.end_offset, length-drop d.length_field_offset q)) in
        field v le e bound (
          rw (enough, get_unadjusted_frame_length_lem d q ok le, e)
            (decode_frame-Decodes d q (adjusted d v) ok le))
  ]
