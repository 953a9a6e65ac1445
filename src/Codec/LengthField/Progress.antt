-- ===== src/Codec/LengthField/Progress.antt =====
-- The length field decoder in the loop of `ByteToMessageDecoder::read`.
use provider_agent_proxy.Common.{
  ℕ, ◌-◌, ◌≤◌, ◌<◌, ◌≡◌, refl, ap, map, [], ◌∙◌, ◌⊎◌, inl, inr, List, ◌++◌, Option, none, some,
  arith, length, take, drop, length-drop, length-append, take-append_left, drop-append_left,
}
use provider_agent_proxy.Folly.{IoBuf}
use provider_agent_proxy.Codec.Decoder.{Outcome, fire_read, done, after, read}
use provider_agent_proxy.Codec.Decoder.Pieces.{read-append-after}
use provider_agent_proxy.Codec.Decoder.Termination.{Progress, Ends, read-Ends}
use provider_agent_proxy.Codec.Decoder.Fragments.{Stable}
use provider_agent_proxy.Codec.LengthField.{LengthFieldBasedFrameDecoder, adjusted, waits, decode}
use provider_agent_proxy.Codec.LengthField.Branches.{
  IsWidth, IsUsable, framed, Decodes, too_small, too_large, incomplete, strip_too_large, complete,
  no_field, field, decode-Answers,
}

pub width_pos : (w : ℕ) → IsWidth w → 0 < w
width_pos w h = omega arith

module _ (io : IoBuf) where
  Decodes-Progress :
      (d : LengthFieldBasedFrameDecoder) (q : List ℕ) (n : ℕ)
      {r : Option (Outcome LengthFieldBasedFrameDecoder)}
      → IsUsable d
      → Decodes d q n r
      → (o : Outcome LengthFieldBasedFrameDecoder) × (r ≡ some o)
        × IsUsable o.state
        × ((o.result ≡ none) ⊎ (length o.buf < length q))
  Decodes-Progress d q n ok (too_small a e) = (_, e, ok, inl refl)
  Decodes-Progress d q n ok (too_large a b e) = (_, e, ok, inl refl)
  Decodes-Progress d q n ok (incomplete a b c e) = (_, e, ok, inl refl)
  Decodes-Progress d q n ok (strip_too_large a b c s e) = (_, e, ok, inl refl)
  Decodes-Progress d q n ok (complete a b c s e) = (
    framed d q n,
    e,
    ok,
    inr (
        omega (
          arith,
          width_pos d.length_field_length ok.width,
          ok.end_offset,
          length-drop (n - d.initial_bytes_to_strip) (drop d.initial_bytes_to_strip q),
          length-drop d.initial_bytes_to_strip q,
        )),
  )

  decode-Progress : Progress (decode io) IsUsable
  decode-Progress d q ok = elim (decode-Answers io d q ok) [
    | no_field short e ↦ (waits d q, e, ok, inl refl)
    | field v le e bound b ↦ Decodes-Progress d q (adjusted d v) ok b
  ]

  -- `read` of a usable decoder ends on every queue, with the decoder still usable, and lets no
  -- exception escape.
  pub read-LengthField-Ends :
      (d : LengthFieldBasedFrameDecoder) (q : List ℕ)
      → IsUsable d
      → Ends IsUsable (read (decode io) d q)
  read-LengthField-Ends d q ok = read-Ends (decode io) IsUsable decode-Progress d q ok

  Decodes-complete :
      (d : LengthFieldBasedFrameDecoder) (q : List ℕ) (n : ℕ)
      {r : Option (Outcome LengthFieldBasedFrameDecoder)}
      → Decodes d q n r
      → d.length_field_end_offset ≤ n
      → n ≤ d.max_frame_length
      → n ≤ length q
      → d.initial_bytes_to_strip ≤ n
      → r ≡ some (framed d q n)
  Decodes-complete d q n (too_small a' e) a b c s = absurd (omega arith)
  Decodes-complete d q n (too_large a' b' e) a b c s = absurd (omega arith)
  Decodes-complete d q n (incomplete a' b' c' e) a b c s = absurd (omega arith)
  Decodes-complete d q n (strip_too_large a' b' c' s' e) a b c s = absurd (omega arith)
  Decodes-complete d q n (complete a' b' c' s' e) a b c s = e

  -- A queue that holds a whole frame gives that frame.
  pub decode_complete :
      (d : LengthFieldBasedFrameDecoder) (q : List ℕ) (v : ℕ)
      → IsUsable d
      → io.read_int d.network_byte_order d.length_field_length (drop d.length_field_offset q)
        ≡ some v
      → d.length_field_end_offset ≤ adjusted d v
      → adjusted d v ≤ d.max_frame_length
      → adjusted d v ≤ length q
      → d.initial_bytes_to_strip ≤ adjusted d v
      → decode io d q ≡ some (framed d q (adjusted d v))
  decode_complete d q v ok e a b c s = elim (decode-Answers io d q ok) [
    | no_field short _ ↦ absurd (omega arith)
    | field u le e' bound r ↦
        let same : u ≡ v = cc in Decodes-complete d q (adjusted d v) (rw same at r) a b c s
  ]

  framed-append :
      (d : LengthFieldBasedFrameDecoder) (q more : List ℕ) (n : ℕ)
      → n ≤ length q
      → d.initial_bytes_to_strip ≤ n
      → framed d (q ++ more) n ≡ record (framed d q n) { buf = (framed d q n).buf ++ more }
  framed-append d q more n h s =
      let strip = d.initial_bytes_to_strip in
      let room : n - strip ≤ length (drop strip q) = omega (arith, length-drop strip q) in
      rw (
        drop-append_left strip q more (omega arith),
        take-append_left (n - strip) (drop strip q) more room,
        drop-append_left (n - strip) (drop strip q) more room,
      )

  read_int-field-append :
      (d : LengthFieldBasedFrameDecoder) (q more : List ℕ)
      → IsUsable d
      → d.length_field_end_offset ≤ length q
      → io.read_int d.network_byte_order d.length_field_length
          (drop d.length_field_offset (q ++ more))
        ≡ io.read_int d.network_byte_order d.length_field_length (drop d.length_field_offset q)
  read_int-field-append d q more ok h =
      rw (drop-append_left d.length_field_offset q more (omega (arith, ok.end_offset))) (
        io.read_int-append d.network_byte_order d.length_field_length (drop d.length_field_offset q)
          more (omega (arith, ok.end_offset, length-drop d.length_field_offset q)))

  Decodes-Stable :
      (d : LengthFieldBasedFrameDecoder) (q more : List ℕ) (v : ℕ)
      (o : Outcome LengthFieldBasedFrameDecoder)
      → IsUsable d
      → io.read_int d.network_byte_order d.length_field_length
          (drop d.length_field_offset (q ++ more))
        ≡ some v
      → o.fired ≡ []
      → {r : Option (Outcome LengthFieldBasedFrameDecoder)} → r ≡ some o
      → Decodes d q (adjusted d v) r
      → ((o.result ≡ none) × (o.state ≡ d) × (o.buf ≡ q))
        ⊎ ((m : List ℕ) × IsUsable o.state
            × (o.result ≡ some m)
            × (decode io d (q ++ more) ≡ some (record o { buf = o.buf ++ more })))
  Decodes-Stable d q more v o ok e quiet is (too_small a f) = cc
  Decodes-Stable d q more v o ok e quiet is (too_large a b f) = cc
  Decodes-Stable d q more v o ok e quiet is (incomplete a b c f) = inl (cc, cc, cc)
  Decodes-Stable d q more v o ok e quiet is (strip_too_large a b c s f) = cc
  Decodes-Stable d q more v o ok e quiet is (complete a b c s f) =
      let same : o ≡ framed d q (adjusted d v) = cc in
      rw same (
        inr (
          take (adjusted d v - d.initial_bytes_to_strip) (drop d.initial_bytes_to_strip q),
          ok,
          refl,
          decode_complete d (q ++ more) v ok e a b (omega (arith, length-append q more)) s
              ∙ ap some (framed-append d q more (adjusted d v) c s),
        ))

  decode-Stable : Stable (decode io) IsUsable
  decode-Stable d q more o ok e quiet = elim (decode-Answers io d q ok) [
    | no_field short f ↦ inl (cc, cc, cc)
    | field v le r bound b ↦
        Decodes-Stable d q more v o ok (read_int-field-append d q more ok le ∙ r) quiet e b
  ]

  -- Where a usable decoder reads the first piece of a stream without a read exception, reading the
  -- second piece next gives, after the messages of the first, what is left of one `read` of both
  -- pieces together: the same messages and events, the same decoder and the same bytes in the queue.
  pub read-LengthField-append :
      (d d₁ : LengthFieldBasedFrameDecoder) (q more q₁ : List ℕ) (ms : List (List ℕ))
      → IsUsable d
      → read (decode io) d q ≡ done d₁ q₁ (map fire_read ms)
      → read (decode io) d (q ++ more) ≡ after (map fire_read ms) (read (decode io) d₁ (q₁ ++ more))
  read-LengthField-append d d₁ q more q₁ ms ok e =
      read-append-after (decode io) IsUsable decode-Progress decode-Stable d d₁ q more q₁ ms ok e
