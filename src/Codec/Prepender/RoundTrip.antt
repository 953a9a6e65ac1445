-- ===== src/Codec/Prepender/RoundTrip.antt =====
-- The decoder reads back what the prepender wrote, when their settings fit together.
use provider_agent_proxy.Common.{
  ℕ, ◌+◌, ◌-◌, ◌%◌, ◌^◌, ◌≤◌, ◌<◌, ◌≡◌, refl, sym, ap, ◌∙◌, ◌⊎◌, inl, inr, true, false, List, [],
  ◌++◌, some, arith, length, drop, length-append, take-length-append, drop-length-append,
  if◌then◌else◌, Bool-cases,
}
use mathlib.Core.List.{append_assoc}
use provider_agent_proxy.Common.Int.{ℤ, pos, negsuc, pos_part, neg_part, is_neg, IsI32}
use provider_agent_proxy.Folly.{IoBuf}
use provider_agent_proxy.Codec.LengthField.{LengthFieldBasedFrameDecoder, adjusted, decode}
use provider_agent_proxy.Codec.LengthField.Branches.{IsWidth, IsUsable, framed}
use provider_agent_proxy.Codec.LengthField.Progress.{decode_complete}
use provider_agent_proxy.Codec.Prepender.{
  LengthFieldPrepender, fire_write, throws, length_field_negative, length_value, encode_length,
  write,
}

-- What the prepender adds to the length for the field itself.
abbrev pub own_length : LengthFieldPrepender → ℕ
own_length p = if p.length_includes_length_field then p.length_field_length else 0

-- The settings of the two ends fit: the same field at the front, which the decoder strips, and
-- adjustments that cancel, the decoder's no lower than minus the width of the field.
pub record Fits (p : LengthFieldPrepender) (d : LengthFieldBasedFrameDecoder) : Type 0 where
  pub usable : IsUsable d
  pub int_adjustment : IsI32 p.length_adjustment
  pub same_length : d.length_field_length ≡ p.length_field_length
  pub same_order : d.network_byte_order ≡ p.network_byte_order
  pub at_front : d.length_field_offset ≡ 0
  pub strips_field : d.initial_bytes_to_strip ≡ p.length_field_length
  pub cancels :
      pos_part p.length_adjustment + own_length p + pos_part d.length_adjustment
      ≡ neg_part p.length_adjustment + neg_part d.length_adjustment
  pub not_below : neg_part d.length_adjustment ≤ p.length_field_length

-- In range, `length` is the sum that is meant.
length_value_parts :
    (p : LengthFieldPrepender) (buf : List ℕ)
    → IsI32 p.length_adjustment
    → p.length_field_length ≤ 8
    → length buf + p.length_field_length < 2 ^ 31
    → pos_part p.length_adjustment + own_length p
      ≤ neg_part p.length_adjustment + p.length_field_length
    → pos_part (length_value p buf) + neg_part p.length_adjustment
      ≡ neg_part (length_value p buf) + pos_part p.length_adjustment + length buf + own_length p
unfolding length_value
length_value_parts p buf h w l c = ground arith

one_part_zero : (z : ℤ) → (pos_part z ≡ 0) ⊎ (neg_part z ≡ 0)
one_part_zero (pos n) = inr refl
one_part_zero (negsuc n) = inl refl

framed_parts :
    (d : LengthFieldBasedFrameDecoder) (field payload rest : List ℕ) (w : ℕ)
    → length field ≡ w
    → d.initial_bytes_to_strip ≡ w
    → framed d (field ++ (payload ++ rest)) (length payload + w)
      ≡ record { state = d; buf = rest; result = some payload; fired = []; needed = 0 }
framed_parts d field payload rest w e s =
    let content : length payload + w - w ≡ length payload = omega arith in
    rw (
      s,
      content,
      ← e,
      drop-length-append field (payload ++ rest),
      take-length-append payload rest,
      drop-length-append payload rest,
    )

neg_part-eq_zero : (z : ℤ) → is_neg z ≡ false → neg_part z ≡ 0
neg_part-eq_zero (pos n) h = refl
neg_part-eq_zero (negsuc n) h = cc

-- The decoder's sum, where it is not below 0.
adjusted_sum :
    (d : LengthFieldBasedFrameDecoder) (n m : ℕ)
    → d.length_field_end_offset ≤ 8
    → neg_part d.length_adjustment ≤ d.length_field_end_offset
    → m < 2 ^ 32
    → n + pos_part d.length_adjustment + d.length_field_end_offset
      ≡ m + neg_part d.length_adjustment
    → pos_part d.length_adjustment < 2 ^ 32 - 16
    → adjusted d n ≡ m
unfolding adjusted
adjusted_sum d n m small below fits e h = ground arith

width-le : (w : ℕ) → IsWidth w → w ≤ 8
width-le w h = omega arith

module _ (io : IoBuf) where
  -- A length that passed the switch fits the field, and is written there unchanged.
  abbrev Encoded : LengthFieldPrepender → ℕ → List ℕ → List ℕ → Type 0
  Encoded p n buf msg =
      (n < 256 ^ p.length_field_length)
      × (msg ≡ io.write_int p.network_byte_order p.length_field_length n ++ buf)

  fire_write_injective : {a b : List ℕ} → fire_write a ≡ fire_write b → a ≡ b
  fire_write_injective e = cc

  encode_length-Encoded :
      (p : LengthFieldPrepender) (n : ℕ) (buf msg : List ℕ)
      → IsWidth p.length_field_length
      → n < 2 ^ 31
      → encode_length io p n buf ≡ fire_write msg
      → Encoded p n buf msg
  unfolding encode_length
  encode_length-Encoded p n buf msg (inl e) h w =
      let small : n < 256 = ground arith in
      let same : n % 2 ^ 8 ≡ n = omega arith in
      (
        rw e small,
        ground (arith, ap (io.write_int p.network_byte_order p.length_field_length) same),
      )
  encode_length-Encoded p n buf msg (inr (inl e)) h w =
      let small : n < 65536 = ground arith in
      let same : n % 2 ^ 16 ≡ n = omega arith in
      (
        rw e small,
        ground (arith, ap (io.write_int p.network_byte_order p.length_field_length) same),
      )
  encode_length-Encoded p n buf msg (inr (inr (inl e))) h w =
      let small : n < 2 ^ 32 = omega arith in
      let same : n % 2 ^ 32 ≡ n = omega arith in
      (
        rw e small,
        ground (arith, ap (io.write_int p.network_byte_order p.length_field_length) same),
      )
  encode_length-Encoded p n buf msg (inr (inr (inr e))) h w =
      let small : n < 2 ^ 64 = omega arith in
      let same : n % 2 ^ 64 ≡ n = omega arith in
      (
        rw e small,
        ground (arith, ap (io.write_int p.network_byte_order p.length_field_length) same),
      )

  write_negative :
      (p : LengthFieldPrepender) (buf : List ℕ)
      → is_neg (length_value p buf) ≡ true
      → write io p buf ≡ throws length_field_negative
  unfolding write
  write_negative p buf h = rw h

  write_encodes :
      (p : LengthFieldPrepender) (buf : List ℕ)
      → is_neg (length_value p buf) ≡ false
      → write io p buf ≡ encode_length io p (pos_part (length_value p buf)) buf
  unfolding write
  write_encodes p buf h = rw h

  write-Encoded :
      (p : LengthFieldPrepender) (buf msg : List ℕ)
      → IsWidth p.length_field_length
      → pos_part (length_value p buf) < 2 ^ 31
      → write io p buf ≡ fire_write msg
      → (neg_part (length_value p buf) ≡ 0) × Encoded p (pos_part (length_value p buf)) buf msg
  write-Encoded p buf msg w h e = elim (Bool-cases (is_neg (length_value p buf))) [
    | inl neg ↦ cc (write_negative p buf neg)
    | inr not_neg ↦ (
      neg_part-eq_zero (length_value p buf) not_neg,
      encode_length-Encoded p (pos_part (length_value p buf)) buf msg w h
          (sym (write_encodes p buf not_neg) ∙ e),
    )
  ]

  written :
      (p : LengthFieldPrepender) (d : LengthFieldBasedFrameDecoder) (payload msg : List ℕ)
      → Fits p d
      → length payload + p.length_field_length ≤ d.max_frame_length
      → write io p payload ≡ fire_write msg
      → (neg_part (length_value p payload) ≡ 0)
        × Encoded p (pos_part (length_value p payload)) payload msg
  written p d payload msg fits h e =
      let w = p.length_field_length in
      let known : IsWidth w = rw (← fits.same_length) fits.usable.width in
      let parts =
        length_value_parts p payload fits.int_adjustment (width-le w known)
          (omega (arith, fits.usable.max_length)) (omega (arith, fits.cancels, fits.not_below)) in
      write-Encoded p payload msg known
        (omega (arith, one_part_zero (length_value p payload), fits.usable.max_length)) e

  -- A written message holds its length field.
  pub length-write :
      (p : LengthFieldPrepender) (d : LengthFieldBasedFrameDecoder) (payload msg : List ℕ)
      → Fits p d
      → length payload + p.length_field_length ≤ d.max_frame_length
      → write io p payload ≡ fire_write msg
      → length msg ≡ p.length_field_length + length payload
  length-write p d payload msg fits h e =
      let n = pos_part (length_value p payload) in
      let (nonneg, encoded) = written p d payload msg fits h e in
      omega (
        arith,
        ap length encoded.1,
        length-append (io.write_int p.network_byte_order p.length_field_length n) payload,
        io.length-write_int p.network_byte_order p.length_field_length n,
      )

  read_front :
      (p : LengthFieldPrepender) (d : LengthFieldBasedFrameDecoder) (n : ℕ) (more : List ℕ)
      → Fits p d
      → n < 256 ^ p.length_field_length
      → io.read_int d.network_byte_order d.length_field_length (
          drop d.length_field_offset
            (io.write_int p.network_byte_order p.length_field_length n ++ more))
        ≡ some n
  read_front p d n more fits h =
      rw (fits.at_front, fits.same_order, fits.same_length)
        (io.read_int-write_int p.network_byte_order p.length_field_length n more h)

  -- Whatever the prepender writes for a message, with any bytes behind it, a decoder with fitting
  -- settings gives back as that message, leaving exactly the bytes behind it, if the message with
  -- its length field is no longer than the decoder's maximum.
  pub decode-write :
      (p : LengthFieldPrepender) (d : LengthFieldBasedFrameDecoder) (payload msg rest : List ℕ)
      → Fits p d
      → length payload + p.length_field_length ≤ d.max_frame_length
      → write io p payload ≡ fire_write msg
      → decode io d (msg ++ rest)
        ≡ some (record { state = d; buf = rest; result = some payload; fired = []; needed = 0 })
  decode-write p d payload msg rest fits h e =
      let w = p.length_field_length in
      let n = pos_part (length_value p payload) in
      let wide : w ≤ 8 = width-le w (rw (← fits.same_length) fits.usable.width) in
      let parts =
        length_value_parts p payload fits.int_adjustment wide
          (omega (arith, fits.usable.max_length)) (omega (arith, fits.cancels, fits.not_below)) in
      let (nonneg, encoded) = written p d payload msg fits h e in
      let end_is : d.length_field_end_offset ≡ w =
        omega (arith, fits.usable.end_offset, fits.same_length, fits.at_front) in
      let whole : adjusted d n ≡ length payload + w =
        adjusted_sum d n (length payload + w) (omega arith) (omega (arith, fits.not_below))
          (omega (arith, fits.usable.max_length)) (omega (arith, fits.cancels))
          (omega (arith, fits.cancels, fits.int_adjustment, fits.not_below)) in
      let stream : msg ++ rest ≡ io.write_int p.network_byte_order w n ++ (payload ++ rest) =
        ap (λ (m : List ℕ). m ++ rest) encoded.1
        ∙ append_assoc (io.write_int p.network_byte_order w n) payload rest in
      rw stream (
        decode_complete io d _ n fits.usable (read_front p d n (payload ++ rest) fits encoded.0)
          (omega arith) (omega arith)
          (omega (
            arith,
            io.length-write_int p.network_byte_order w n,
            length-append (io.write_int p.network_byte_order w n) (payload ++ rest),
            length-append payload rest,
          ))
          (omega (arith, fits.strips_field))
        ∙ rw whole (
            ap some (
              framed_parts d (io.write_int p.network_byte_order w n) payload rest (w)
                (io.length-write_int p.network_byte_order w n) fits.strips_field)))
