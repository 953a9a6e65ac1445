-- ===== src/Codec/FixedLength/Frames.antt =====
-- What the fixed length decoder makes of a stream.
use mathlib.Core.List.{append_assoc, flatten}
use provider_agent_proxy.Common.{
  ℕ, zero, suc, ◌-◌, ◌≤◌, ◌<◌, ◌≡◌, refl, ap, ◌∙◌, inl, inr, List, [], ◌∷◌, ◌++◌, map, none, some,
  arith, length, take, drop, All, length-take, length-drop, take-append-drop, take-append_left,
  length-append, drop-append_left, Bool-cases, ltb, ltb→lt, ltb→le, le→ltb, lt→ltb,
}
use provider_agent_proxy.Folly.{IoBuf}
use provider_agent_proxy.Codec.Decoder.{
  Outcome, fire_read, Run, done, out_of_fuel, after, read_loop, read,
}
use provider_agent_proxy.Codec.Decoder.Pieces.{read-append-after}
use provider_agent_proxy.Codec.Decoder.Termination.{Progress}
use provider_agent_proxy.Codec.Decoder.Fragments.{Stable, loop_stop, loop_next}
use provider_agent_proxy.Codec.FixedLength.{FixedLengthFrameDecoder, decode}

module _ (io : IoBuf) where
  abbrev waiting : FixedLengthFrameDecoder → List ℕ → Outcome FixedLengthFrameDecoder
  waiting d q = record {
    state = d;
    buf = q;
    result = none;
    fired = [];
    needed = d.frame_length - length q;
  }

  abbrev framed : FixedLengthFrameDecoder → List ℕ → Outcome FixedLengthFrameDecoder
  framed d q = record {
    state = d;
    buf = drop d.frame_length q;
    result = some (take d.frame_length q);
    fired = [];
    needed = 0;
  }

  decode_waits :
      (d : FixedLengthFrameDecoder) (q : List ℕ)
      → length q < d.frame_length
      → decode io d q ≡ some (waiting d q)
  unfolding decode
  decode_waits d q h = rw (lt→ltb (length q) d.frame_length h)

  decode_frames :
      (d : FixedLengthFrameDecoder) (q : List ℕ)
      → d.frame_length ≤ length q
      → decode io d q ≡ some (framed d q)
  unfolding decode
  decode_frames d q h = rw (le→ltb (length q) d.frame_length h, io.split_enough d.frame_length q h)

  abbrev Positive : FixedLengthFrameDecoder → Type 0
  Positive d = 0 < d.frame_length

  decode-Progress : Progress (decode io) Positive
  decode-Progress d q pos = elim (Bool-cases (ltb (length q) d.frame_length)) [
    | inl short ↦ (waiting d q, decode_waits d q (ltb→lt _ _ short), pos, inl refl)
    | inr enough ↦
        let le : d.frame_length ≤ length q = ltb→le _ _ enough in
        (framed d q, decode_frames d q le, pos, inr (omega (arith, length-drop d.frame_length q)))
  ]

  decode-Stable : Stable (decode io) Positive
  decode-Stable d q more o pos e quiet = elim (Bool-cases (ltb (length q) d.frame_length)) [
    | inl short ↦ let w = decode_waits d q (ltb→lt _ _ short) in inl (cc, cc, cc)
    | inr enough ↦
        let le : d.frame_length ≤ length q = ltb→le _ _ enough in
        let f = decode_frames d q le in
        let same : o ≡ framed d q = cc in
        let more_le : d.frame_length ≤ length (q ++ more) = omega (arith, length-append q more) in
        inr (
          take d.frame_length q,
          rw same pos,
          cc,
          decode_frames d (q ++ more) more_le
              ∙ rw (
                same,
                take-append_left d.frame_length q more le,
                drop-append_left d.frame_length q more le,
              ),
        )
  ]

  -- Frames of the configured length, the bytes behind them, and no other event.
  pub data Chunks (d : FixedLengthFrameDecoder) (q : List ℕ) (r : Run FixedLengthFrameDecoder)
      : Type 0 where
    chunks :
        (ms : List (List ℕ)) (rest : List ℕ)
        → r ≡ done d rest (map fire_read ms)
        → flatten ms ++ rest ≡ q
        → All (λ m. length m ≡ d.frame_length) ms
        → length rest < d.frame_length
        → Chunks d q r

  next_chunk :
      (d : FixedLengthFrameDecoder) (f : ℕ) (q : List ℕ)
      → d.frame_length ≤ length q
      → Chunks d (drop d.frame_length q) (read_loop (decode io) f d (drop d.frame_length q))
      → Chunks d q (read_loop (decode io) (suc f) d q)
  unfolding flatten
  next_chunk d f q le (chunks ms rest e whole frame_lengths short) =
      chunks (take d.frame_length q ∷ ms) rest
        (loop_next (decode io) f d q (framed d q) (take d.frame_length q) (decode_frames d q le)
            refl
          ∙ rw e)
        (append_assoc (take d.frame_length q) (flatten ms) rest
          ∙ ap (◌++◌ (take d.frame_length q)) whole
          ∙ take-append-drop d.frame_length q)
        (omega (arith, length-take d.frame_length q), frame_lengths) short

  read_loop-Chunks :
      (d : FixedLengthFrameDecoder) (f : ℕ) (q : List ℕ)
      → 0 < d.frame_length
      → length q < f
      → Chunks d q (read_loop (decode io) f d q)
  unfolding flatten
  read_loop-Chunks d zero q pos h = absurd (omega arith)
  read_loop-Chunks d (suc f) q pos h = elim (Bool-cases (ltb (length q) d.frame_length)) [
    | inl short ↦
        let lt = ltb→lt _ _ short in
        chunks [] q (loop_stop (decode io) f d q (waiting d q) (decode_waits d q lt) refl) refl tt
          lt
    | inr enough ↦
        let le : d.frame_length ≤ length q = ltb→le _ _ enough in
        next_chunk d f q le (
          read_loop-Chunks d f (drop d.frame_length q) pos
            (omega (arith, length-drop d.frame_length q)))
  ]

  -- With a frame length above 0, `read` ends, and delivers the queue cut into frames of exactly that
  -- length, in order, keeping fewer bytes than a frame in the queue; it fires no exception.
  pub read-Chunks :
      (d : FixedLengthFrameDecoder) (q : List ℕ)
      → 0 < d.frame_length
      → Chunks d q (read (decode io) d q)
  unfolding read
  read-Chunks d q pos = read_loop-Chunks d (suc (length q)) q pos (omega arith)

  -- With a frame length of 0 the loop of `read` runs out of any fuel, whatever the queue.
  pub read_loop-zero_frame_length :
      (fuel : ℕ) (q : List ℕ)
      → read_loop (decode io) fuel (record { frame_length = 0 }) q ≡ out_of_fuel
  read_loop-zero_frame_length zero q = unfold read_loop in refl
  read_loop-zero_frame_length (suc fuel) q =
      let d : FixedLengthFrameDecoder = record { frame_length = 0 } in
      loop_next (decode io) fuel d q (framed d q) [] (decode_frames d q (omega arith)) refl
      ∙ rw (read_loop-zero_frame_length fuel q)

  -- With a frame length above 0, a stream that is read in two pieces gives the same frames, in the
  -- same order, and leaves the same bytes, as one `read` of both pieces together.
  pub read-append :
      (d : FixedLengthFrameDecoder) (q more : List ℕ)
      → 0 < d.frame_length
      → (ms : List (List ℕ)) × (q₁ : List ℕ) × (read (decode io) d q ≡ done d q₁ (map fire_read ms))
        × (read (decode io) d (q ++ more)
            ≡ after (map fire_read ms) (read (decode io) d (q₁ ++ more)))
  read-append d q more pos = elim (read-Chunks d q pos) [
    | chunks ms q₁ e whole frame_lengths short ↦ (
      ms,
      q₁,
      e,
      read-append-after (decode io) Positive decode-Progress decode-Stable d d q more q₁ ms pos e,
    )
  ]
