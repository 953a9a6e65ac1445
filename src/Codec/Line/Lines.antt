-- ===== src/Codec/Line/Lines.antt =====
-- What the line decoder makes of lines in which no carriage return stands alone.
use mathlib.Core.List.{append_assoc}
use provider_agent_proxy.Common.{
  ℕ, zero, suc, ◌+◌, ◌-◌, ◌<◌, ◌≡◌, refl, sym, ap, ◌∙◌, true, false, List, [], ◌∷◌, ◌++◌, map, some,
  arith, All, length, length-append, take-length-append, drop-length-append, get_elem?, min, ltb,
  if◌then◌else◌, le→ltb, if-true, if-false, Bool-cases, inl, inr,
}
use provider_agent_proxy.Folly.{IoBuf}
use provider_agent_proxy.Codec.Decoder.{fire_read, done, read_loop, read}
use provider_agent_proxy.Codec.Decoder.Fragments.{loop_stop, loop_next}
use provider_agent_proxy.Codec.Line.{
  LineBasedFrameDecoder, TerminatorType, lf, cr, takes_lf, takes_cr_lf, find_loop, find_end_of_line,
  delim_length, no_frame, framed, take_line, no_line, at_eol, decode_at, decode,
}
use provider_agent_proxy.Codec.Line.Find.{
  Plain, find_loop-Plain, find_loop-lf, find_loop-carriage_newline,
}

-- The two ways to end a line: "\n" and "\r\n".
pub data Ending : Type 0 where
  lf_ending cr_lf_ending : Ending

abbrev pub ending_bytes : Ending → List ℕ
ending_bytes lf_ending = lf ∷ []
ending_bytes cr_lf_ending = cr ∷ lf ∷ []

abbrev pub first_byte : Ending → ℕ
first_byte lf_ending = lf
first_byte cr_lf_ending = cr

-- The settings accept the ending.
abbrev pub Accepts : TerminatorType → Ending → Type 0
Accepts t lf_ending = takes_lf t ≡ true
Accepts t cr_lf_ending = takes_cr_lf t ≡ true

find_loop-ending :
    (t : TerminatorType) (e : Ending) (c : List ℕ) (rounds i : ℕ)
    → Accepts t e
    → find_loop t (suc rounds) i (ending_bytes e ++ c) ≡ some (some i)
find_loop-ending t lf_ending c rounds i h = find_loop-lf t c rounds i h
find_loop-ending t cr_lf_ending c rounds i h = find_loop-carriage_newline t c rounds i h

get_elem?-length-append :
    (line : List ℕ) (b : ℕ) (c : List ℕ) → get_elem? (line ++ (b ∷ c)) (length line) ≡ some b
get_elem?-length-append [] b c = refl
get_elem?-length-append (x ∷ line) b c = get_elem?-length-append line b c

pub get_elem?-ending :
    (line : List ℕ) (e : Ending) (c : List ℕ)
    → get_elem? (line ++ (ending_bytes e ++ c)) (length line) ≡ some (first_byte e)
get_elem?-ending line lf_ending c = get_elem?-length-append line lf c
get_elem?-ending line cr_lf_ending c = get_elem?-length-append line cr (lf ∷ c)

pub delim_length-ending : (e : Ending) → delim_length (first_byte e) ≡ length (ending_bytes e)
delim_length-ending lf_ending = refl
delim_length-ending cr_lf_ending = refl

ending-pos : (e : Ending) → 0 < length (ending_bytes e)
ending-pos lf_ending = omega arith
ending-pos cr_lf_ending = omega arith

pub find_end_of_line-line :
    (d : LineBasedFrameDecoder) (line : List ℕ) (e : Ending) (rest : List ℕ)
    → All Plain line
    → Accepts d.terminator_type e
    → length line < d.max_length
    → find_end_of_line d (line ++ (ending_bytes e ++ rest)) ≡ some (some (length line))
unfolding find_end_of_line
find_end_of_line-line d line e rest plain accepts short =
    let total = min d.max_length (length (line ++ (ending_bytes e ++ rest))) in
    let rounds : total ≡ length line + suc (total - length line - 1) = omega (
      arith,
      length-append line (ending_bytes e ++ rest),
      length-append (ending_bytes e) rest,
      ending-pos e,
    ) in
    let start : 0 + length line ≡ length line = omega arith in
    rw rounds (
      find_loop-Plain d.terminator_type line (ending_bytes e ++ rest)
        (suc (total - length line - 1)) 0 plain
      ∙ find_loop-ending d.terminator_type e rest (total - length line - 1) (0 + length line)
          accepts
      ∙ ap (λ (n : ℕ). some (some n)) start)

-- The frame for a line: with its ending, unless the decoder strips it.
abbrev pub line_frame : LineBasedFrameDecoder → List ℕ → Ending → List ℕ
line_frame d line e = if d.strip_delimiter then line else line ++ ending_bytes e

module _ (io : IoBuf) where
  -- The bytes of a line are split off, and its ending with it or after it.
  split_line : (line rest : List ℕ) → io.split (length line) (line ++ rest) ≡ some (line, rest)
  split_line line rest =
      io.split_enough (length line) (line ++ rest) (omega (arith, length-append line rest))
      ∙ rw (take-length-append line rest, drop-length-append line rest)

  pub trim_line : (line rest : List ℕ) → io.trim_start (length line) (line ++ rest) ≡ some rest
  trim_line line rest =
      io.trim_start_enough (length line) (line ++ rest) (omega (arith, length-append line rest))
      ∙ rw (drop-length-append line rest)

  strip_line :
      (d : LineBasedFrameDecoder) (line : List ℕ) (e : Ending) (rest : List ℕ)
      → length line < d.max_length
      → d.strip_delimiter ≡ true
      → take_line io d (line ++ (ending_bytes e ++ rest)) (length line) (first_byte e)
        ≡ some (framed d line rest)
  unfolding take_line
  strip_line d line e rest short s =
      if-false (ltb d.max_length (length line)) _ _ (le→ltb _ _ (omega arith))
      ∙ if-true d.strip_delimiter _ _ s
      ∙ rw (
        split_line line (ending_bytes e ++ rest),
        delim_length-ending e,
        trim_line (ending_bytes e) rest,
      )

  keep_ending :
      (d : LineBasedFrameDecoder) (line : List ℕ) (e : Ending) (rest : List ℕ)
      → length line < d.max_length
      → d.strip_delimiter ≡ false
      → take_line io d (line ++ (ending_bytes e ++ rest)) (length line) (first_byte e)
        ≡ some (framed d (line ++ ending_bytes e) rest)
  unfolding take_line
  keep_ending d line e rest short s =
      let whole : length line + delim_length (first_byte e) ≡ length (line ++ ending_bytes e) =
        omega (arith, delim_length-ending e, length-append line (ending_bytes e)) in
      if-false (ltb d.max_length (length line)) _ _ (le→ltb _ _ (omega arith))
      ∙ if-false d.strip_delimiter _ _ s
      ∙ rw (
        whole,
        ← append_assoc line (ending_bytes e) rest,
        split_line (line ++ ending_bytes e) rest,
      )

  take_line_lem :
      (d : LineBasedFrameDecoder) (line : List ℕ) (e : Ending) (rest : List ℕ)
      → length line < d.max_length
      → take_line io d (line ++ (ending_bytes e ++ rest)) (length line) (first_byte e)
        ≡ some (framed d (line_frame d line e) rest)
  take_line_lem d line e rest short = elim (Bool-cases d.strip_delimiter) [
    | inl s ↦
        strip_line d line e rest short s
        ∙ ap (λ (f : List ℕ). some (framed d f rest)) (sym (if-true d.strip_delimiter _ _ s))
    | inr s ↦
        keep_ending d line e rest short s
        ∙ ap (λ (f : List ℕ). some (framed d f rest)) (sym (if-false d.strip_delimiter _ _ s))
  ]

  -- A plain line below the maximum, with an ending that the settings accept, is taken as one frame,
  -- and exactly the bytes behind it stay in the queue.
  pub decode-line :
      (d : LineBasedFrameDecoder) (line : List ℕ) (e : Ending) (rest : List ℕ)
      → d.discarding ≡ false
      → All Plain line
      → Accepts d.terminator_type e
      → length line < d.max_length
      → decode io d (line ++ (ending_bytes e ++ rest)) ≡ some (framed d (line_frame d line e) rest)
  unfolding decode decode_at at_eol
  decode-line d line e rest fresh plain accepts short =
      rw (find_end_of_line-line d line e rest plain accepts short, get_elem?-ending line e rest)
        (if-false d.discarding _ _ fresh ∙ take_line_lem d line e rest short)

  decode-empty :
      (d : LineBasedFrameDecoder) → d.discarding ≡ false → decode io d [] ≡ some (no_frame d [] [])
  unfolding decode decode_at find_end_of_line no_line
  decode-empty d fresh =
      let none_left : min d.max_length 0 ≡ 0 = omega arith in
      rw none_left (
        if-false d.discarding _ _ fresh
        ∙ if-false (ltb d.max_length 0) _ _ (le→ltb _ _ (omega arith)))

  -- Lines, each with an ending of its own.
  abbrev pub stream_of : List (List ℕ × Ending) → List ℕ
  stream_of [] = []
  stream_of ((line, e) ∷ ls) = line ++ (ending_bytes e ++ stream_of ls)

  abbrev pub Readable : LineBasedFrameDecoder → List ℕ × Ending → Type 0
  Readable d (line, e) = All Plain line × Accepts d.terminator_type e × (length line < d.max_length)

  abbrev pub frame_of : LineBasedFrameDecoder → List ℕ × Ending → List ℕ
  frame_of d (line, e) = line_frame d line e

  read_loop-lines :
      (d : LineBasedFrameDecoder) (ls : List (List ℕ × Ending)) (fuel : ℕ)
      → d.discarding ≡ false
      → All (Readable d) ls
      → length (stream_of ls) < fuel
      → read_loop (decode io) fuel d (stream_of ls)
        ≡ done d [] (map fire_read (map (frame_of d) ls))
  read_loop-lines d ls zero fresh h f = absurd (omega arith)
  read_loop-lines d [] (suc fuel) fresh h f =
      loop_stop (decode io) fuel d [] (no_frame d [] []) (decode-empty d fresh) refl
  read_loop-lines d ((line, e) ∷ ls) (suc fuel) fresh ((plain, accepts, short), h) f =
      loop_next (decode io) fuel d (stream_of ((line, e) ∷ ls)) _ (line_frame d line e)
        (decode-line d line e (stream_of ls) fresh plain accepts short) refl
      ∙ rw (
          read_loop-lines d ls fuel fresh h (
            omega (
              arith,
              length-append line (ending_bytes e ++ stream_of ls),
              length-append (ending_bytes e) (stream_of ls),
              ending-pos e,
            )))

  -- `read` of a decoder that is not discarding, on a stream of plain lines below the maximum,
  -- each with an ending that the settings accept, delivers one frame for each line, in order,
  -- with the ending or without it as the settings say, and leaves nothing.
  pub read-lines :
      (d : LineBasedFrameDecoder) (ls : List (List ℕ × Ending))
      → d.discarding ≡ false
      → All (Readable d) ls
      → read (decode io) d (stream_of ls) ≡ done d [] (map fire_read (map (frame_of d) ls))
  unfolding read
  read-lines d ls fresh h = read_loop-lines d ls (suc (length (stream_of ls))) fresh h (omega arith)
