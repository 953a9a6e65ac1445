-- ===== src/Codec/Prepender/Stream.antt =====
-- A stream of messages, each behind its length field.
use provider_agent_proxy.Common.{
  ℕ, zero, suc, ◌+◌, ◌≤◌, ◌<◌, ◌≡◌, refl, ap, ◌∙◌, List, [], ◌∷◌, ◌++◌, map, Option, none, some,
  arith, length, length-append, All,
}
use provider_agent_proxy.Folly.{IoBuf}
use provider_agent_proxy.Codec.Decoder.{fire_read, done, read_loop, read}
use provider_agent_proxy.Codec.Decoder.Fragments.{loop_stop, loop_next}
use provider_agent_proxy.Codec.LengthField.{LengthFieldBasedFrameDecoder, waits, decode}
use provider_agent_proxy.Codec.LengthField.Branches.{no_field, field, decode-Answers}
use provider_agent_proxy.Codec.LengthField.Progress.{width_pos}
use provider_agent_proxy.Codec.Prepender.{LengthFieldPrepender, Written, fire_write, throws, write}
use provider_agent_proxy.Codec.Prepender.RoundTrip.{Fits, length-write, decode-write}

-- The messages are written one after the other; `none`: one of the calls throws.
module _ (io : IoBuf) where
  abbrev pub then_write : Written → Option (List ℕ) → Option (List ℕ)
  then_write (throws e) more = none
  then_write (fire_write b) none = none
  then_write (fire_write b) (some more) = some (b ++ more)

  unfoldable pub write_all : LengthFieldPrepender → List (List ℕ) → Option (List ℕ)
  write_all p [] = some []
  write_all p (m ∷ ms) = then_write (write io p m) (write_all p ms)

  then_write-eq_some :
      (w : Written) (o : Option (List ℕ)) (s : List ℕ)
      → then_write w o ≡ some s
      → (b : List ℕ) × (more : List ℕ) × (w ≡ fire_write b) × (o ≡ some more) × (s ≡ b ++ more)
  then_write-eq_some (throws e) o s h = cc
  then_write-eq_some (fire_write b) none s h = cc
  then_write-eq_some (fire_write b) (some more) s h = (b, more, refl, refl, cc)

  decode-empty :
      (p : LengthFieldPrepender) (d : LengthFieldBasedFrameDecoder)
      → Fits p d
      → decode io d [] ≡ some (waits d [])
  decode-empty p d fits = elim (decode-Answers io d [] fits.usable) [
    | no_field short e ↦ e
    | field v le r bound b ↦
        absurd
          (omega (arith, width_pos d.length_field_length fits.usable.width, fits.usable.end_offset))
  ]

  -- A decoded message is shorter than what was in the queue.
  rest_shorter :
      (p : LengthFieldPrepender) (d : LengthFieldBasedFrameDecoder) (m b : List ℕ)
      → Fits p d
      → length m + p.length_field_length ≤ d.max_frame_length
      → write io p m ≡ fire_write b
      → 0 < length b
  rest_shorter p d m b fits h e = omega (
    arith,
    length-write io p d m b fits h e,
    width_pos d.length_field_length fits.usable.width,
    fits.same_length,
  )

  read_loop-write_all :
      (p : LengthFieldPrepender) (d : LengthFieldBasedFrameDecoder) (ms : List (List ℕ))
      (stream : List ℕ) (fuel : ℕ)
      → Fits p d
      → All (λ m. length m + p.length_field_length ≤ d.max_frame_length) ms
      → write_all p ms ≡ some stream
      → length stream < fuel
      → read_loop (decode io) fuel d stream ≡ done d [] (map fire_read ms)
  unfolding write_all
  read_loop-write_all p d ms stream zero fits h e f = absurd (omega arith)
  read_loop-write_all p d [] stream (suc fuel) fits h e f =
      let empty : stream ≡ [] = cc in
      rw empty (loop_stop (decode io) fuel d [] (waits d []) (decode-empty p d fits) refl)
  read_loop-write_all p d (m ∷ ms) stream (suc fuel) fits h e f =
      let (b, more, w, rest, whole) = then_write-eq_some (write io p m) (write_all p ms) stream e in
      let shorter = rest_shorter p d m b fits h.0 w in
      rw whole (
        loop_next (decode io) fuel d (b ++ more) _ m (decode-write io p d m b more fits h.0 w) refl
        ∙ rw (
            read_loop-write_all p d ms more fuel fits h.1 rest
              (omega (arith, ap length whole, length-append b more))))

  -- `read` of a decoder with fitting settings, on what the prepender wrote for messages that,
  -- with their length fields, are no longer than the maximum of the decoder, delivers exactly
  -- these messages, in order, and leaves nothing, if no write throws.
  pub read-write_all :
      (p : LengthFieldPrepender) (d : LengthFieldBasedFrameDecoder) (ms : List (List ℕ))
      (stream : List ℕ)
      → Fits p d
      → All (λ m. length m + p.length_field_length ≤ d.max_frame_length) ms
      → write_all p ms ≡ some stream
      → read (decode io) d stream ≡ done d [] (map fire_read ms)
  unfolding read
  read-write_all p d ms stream fits h e =
      read_loop-write_all p d ms stream (suc (length stream)) fits h e (omega arith)
