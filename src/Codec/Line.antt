-- ===== src/Codec/Line.antt =====
-- wangle/codec/LineBasedFrameDecoder.h and .cpp: frames that end with a line terminator. A cursor
-- over the queue is the list of the bytes in front of it, and a read at the end throws.
pub mod Find
pub mod Lines
pub mod Discarding
use provider_agent_proxy.Common.{
  ℕ, zero, suc, ◌+◌, ◌%◌, ◌^◌, Bool, true, false, not, ◌&&◌, List, ◌∷◌, [], Option, none, some, ltb,
  ◌==◌, if◌then◌else◌, length, get_elem?, min,
}
use provider_agent_proxy.Folly.{IoBuf}
use provider_agent_proxy.Codec.Decoder.{ReadError, line_exceeds, line_over, Outcome, Decode}

pub data TerminatorType : Type 0 where
  both newline carriage_newline : TerminatorType

pub record LineBasedFrameDecoder : Type 0 where
  pub max_length : ℕ
  pub strip_delimiter : Bool
  pub discarding : Bool
  pub discarded_bytes : ℕ
  pub terminator_type : TerminatorType

abbrev pub lf : ℕ
lf = 10

abbrev pub cr : ℕ
cr = 13

-- `terminatorType_ != TerminatorType::CARRIAGENEWLINE`, and `!= NEWLINE`.
abbrev pub takes_lf : TerminatorType → Bool
takes_lf both = true
takes_lf newline = true
takes_lf carriage_newline = false

abbrev pub takes_cr_lf : TerminatorType → Bool
takes_cr_lf both = true
takes_cr_lf newline = false
takes_cr_lf carriage_newline = true

-- The loop of `findEndOfLine`, with its rounds left, its counter and its cursor. The outer `none`:
-- a read throws; the inner `none`: the result is -1. The test for "\r\n" reads the byte behind a '\r'
-- and does not put it back.
unfoldable pub find_loop : TerminatorType → ℕ → ℕ → List ℕ → Option (Option ℕ)
find_loop t zero i c = some none
find_loop t (suc rounds) i [] = none
find_loop t (suc rounds) i (b ∷ []) =
    let next = find_loop t rounds (suc i) [] in
    if b == lf && takes_lf t then some (some i) else next
find_loop t (suc rounds) i (b ∷ b' ∷ c) =
    let skipped = find_loop t rounds (suc i) c in
    let next = find_loop t rounds (suc i) (b' ∷ c) in
    if b == lf && takes_lf t
    then some (some i)
    else if takes_cr_lf t && b == cr
    then (if b' == lf then some (some i) else skipped)
    else next

unfoldable pub find_end_of_line : LineBasedFrameDecoder → List ℕ → Option (Option ℕ)
unfolding find_loop
find_end_of_line d q = find_loop d.terminator_type (min d.max_length (length q)) 0 q

-- `c.read<char>() == '\r' ? 2 : 1`
abbrev pub delim_length : ℕ → ℕ
delim_length b = if b == cr then 2 else 1

abbrev pub no_frame :
    LineBasedFrameDecoder → List ReadError → List ℕ → Outcome LineBasedFrameDecoder
no_frame d es rest = record { state = d; buf = rest; result = none; fired = es; needed = 0 }

abbrev pub framed : LineBasedFrameDecoder → List ℕ → List ℕ → Outcome LineBasedFrameDecoder
framed d frame rest = record { state = d; buf = rest; result = some frame; fired = []; needed = 0 }

module _ (io : IoBuf) where
  -- A terminator was found at `eol`, and `b` is the byte there.
  unfoldable pub take_line :
      LineBasedFrameDecoder → List ℕ → ℕ → ℕ → Option (Outcome LineBasedFrameDecoder)
  take_line d q eol b =
      if ltb d.max_length eol
      then (elim (io.split (eol + delim_length b) q) [
        | none ↦ none
        | some (dropped, rest) ↦ some (no_frame d (line_exceeds eol d.max_length ∷ []) rest)
      ])
      else if d.strip_delimiter
      then (elim (io.split eol q) [
        | none ↦ none
        | some (frame, rest) ↦ elim (io.trim_start (delim_length b) rest) [
          | none ↦ none
          | some rest' ↦ some (framed d frame rest')
        ]
      ])
      else (elim (io.split (eol + delim_length b) q) [
        | none ↦ none
        | some (frame, rest) ↦ some (framed d frame rest)
      ])

  -- No terminator was found.
  unfoldable pub no_line : LineBasedFrameDecoder → List ℕ → Option (Outcome LineBasedFrameDecoder)
  no_line d q =
      if ltb d.max_length (length q)
      then (elim (io.trim_start (length q) q) [
        | none ↦ none
        | some rest ↦ some (
            no_frame (record d { discarding = true; discarded_bytes = length q % 2 ^ 32 })
              (line_over (length q) d.max_length ∷ []) rest)
      ])
      else some (no_frame d [] q)

  -- The end of a frame that is being discarded.
  unfoldable pub end_discard :
      LineBasedFrameDecoder → List ℕ → ℕ → ℕ → Option (Outcome LineBasedFrameDecoder)
  end_discard d q eol b = elim (io.trim_start (eol + delim_length b) q) [
    | none ↦ none
    | some rest ↦ some (no_frame (record d { discarding = false; discarded_bytes = 0 }) [] rest)
  ]

  -- `buf.move()` empties the queue.
  unfoldable pub keep_discarding :
      LineBasedFrameDecoder → List ℕ → Option (Outcome LineBasedFrameDecoder)
  keep_discarding d q = some (no_frame (record d { discarded_bytes = length q % 2 ^ 32 }) [] [])

  unfoldable pub at_eol :
      LineBasedFrameDecoder → List ℕ → ℕ → Option ℕ → Option (Outcome LineBasedFrameDecoder)
  at_eol d q eol none = none
  at_eol d q eol (some b) = if d.discarding then end_discard d q eol b else take_line d q eol b

  unfoldable pub decode_at :
      LineBasedFrameDecoder → List ℕ → Option (Option ℕ) → Option (Outcome LineBasedFrameDecoder)
  decode_at d q none = none
  decode_at d q (some none) = if d.discarding then keep_discarding d q else no_line d q
  decode_at d q (some (some eol)) = at_eol d q eol (get_elem? q eol)

  unfoldable pub decode : Decode LineBasedFrameDecoder
  decode d q = decode_at d q (find_end_of_line d q)
