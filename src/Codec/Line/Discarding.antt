-- ===== src/Codec/Line/Discarding.antt =====
-- What the line decoder does where it does not find the end of a line: lone carriage returns, and
-- lines that are too long.
use mathlib.Core.List.{append_assoc}
use provider_agent_proxy.Common.{
  ℕ, suc, ◌+◌, ◌%◌, ◌^◌, ◌≤◌, ◌<◌, ◌≡◌, ◌≢◌, refl, ap, ◌∙◌, true, false, List, [], ◌∷◌, ◌++◌, none,
  some, arith, All, length, length-append, drop-all, get_elem?, min, ltb, lt→ltb, if-true, if-false,
}
use provider_agent_proxy.Folly.{IoBuf}
use provider_agent_proxy.Codec.Decoder.{line_over}
use provider_agent_proxy.Codec.Line.{
  LineBasedFrameDecoder, TerminatorType, lf, cr, takes_lf, takes_cr_lf, find_loop, find_end_of_line,
  delim_length, no_frame, no_line, end_discard, at_eol, decode_at, decode,
}
use provider_agent_proxy.Codec.Line.Lines.{
  Ending, ending_bytes, first_byte, Accepts, delim_length-ending, get_elem?-ending,
  find_end_of_line-line, trim_line,
}
use provider_agent_proxy.Codec.Line.Find.{
  Plain, find_loop-Plain, find_loop-lf, find_loop-lone_cr, find_loop-lt,
}

get_elem?-append_right :
    (xs ys : List ℕ) (k : ℕ) → get_elem? (xs ++ ys) (length xs + k) ≡ get_elem? ys k
get_elem?-append_right [] ys k = let e : 0 + k ≡ k = omega arith in rw e
get_elem?-append_right (x ∷ xs) ys k =
    let e : suc (length xs) + k ≡ suc (length xs + k) = omega arith in
    rw e (get_elem?-append_right xs ys k)

-- A lone carriage return, with the byte behind it, in front of a line feed.
abbrev pub lone_cr : List ℕ → ℕ → List ℕ → List ℕ → List ℕ
lone_cr front b mid rest = front ++ (cr ∷ b ∷ (mid ++ rest))

find_loop-lone_cr_line :
    (t : TerminatorType) (front mid rest : List ℕ) (b rounds : ℕ)
    → takes_cr_lf t ≡ true
    → All Plain front
    → b ≢ lf
    → All Plain mid
    → find_loop t (length front + suc (length mid + rounds)) 0 (lone_cr front b mid rest)
      ≡ find_loop t rounds (length front + 1 + length mid) rest
find_loop-lone_cr_line t front mid rest b rounds h pf n pm =
    let start : 0 + length front ≡ length front = omega arith in
    let at : suc (length front) + length mid ≡ length front + 1 + length mid = omega arith in
    find_loop-Plain t front (cr ∷ b ∷ (mid ++ rest)) (suc (length mid + rounds)) 0 pf
    ∙ rw start (find_loop-lone_cr t b (mid ++ rest) (length mid + rounds) (length front) h n)
    ∙ find_loop-Plain t mid rest rounds (suc (length front)) pm
    ∙ rw at

-- With settings that take both "\n" and "\r\n", and a queue no longer than the maximum that holds
-- plain bytes, a carriage return, a byte that is no line feed, plain bytes and a line feed,
-- `findEndOfLine` reports one position below the one where that line feed is.
pub find_end_of_line-lone_cr :
    (d : LineBasedFrameDecoder) (front mid post : List ℕ) (b : ℕ)
    → takes_cr_lf d.terminator_type ≡ true
    → takes_lf d.terminator_type ≡ true
    → All Plain front
    → b ≢ lf
    → All Plain mid
    → length (lone_cr front b mid (lf ∷ post)) ≤ d.max_length
    → (get_elem? (lone_cr front b mid (lf ∷ post)) (length front + length mid + 2) ≡ some lf)
      × (find_end_of_line d (lone_cr front b mid (lf ∷ post))
          ≡ some (some (length front + length mid + 1)))
unfolding find_end_of_line
find_end_of_line-lone_cr d front mid post b hc hl pf n pm room =
    let q = lone_cr front b mid (lf ∷ post) in
    let place : length front + length mid + 2 ≡ length front + suc (suc (length mid + 0)) =
      omega arith in
    let size : min d.max_length (length q)
        ≡ length front + suc (length mid + suc (suc (length post))) =
      omega (
        arith,
        length-append front (cr ∷ b ∷ (mid ++ (lf ∷ post))),
        length-append mid (lf ∷ post),
      ) in
    let shift : length front + 1 + length mid ≡ length front + length mid + 1 = omega arith in
    (
      rw
          (
            place,
            get_elem?-append_right front (cr ∷ b ∷ (mid ++ (lf ∷ post)))
                (suc (suc (length mid + 0))),
          )
          (get_elem?-append_right mid (lf ∷ post) 0),
      rw size (
          find_loop-lone_cr_line d.terminator_type front mid (lf ∷ post) b _ hc pf n pm
          ∙ find_loop-lf d.terminator_type post (suc (length post)) _ hl
          ∙ ap (λ (k : ℕ). some (some k)) shift),
    )

-- With settings that take "\r\n", a queue no longer than the maximum that holds plain bytes, a
-- carriage return, a byte that is no line feed, and plain bytes, but no end of line, makes
-- `decode` throw.
pub decode-lone_cr_throws :
    (io : IoBuf) (d : LineBasedFrameDecoder) (front mid : List ℕ) (b : ℕ)
    → takes_cr_lf d.terminator_type ≡ true
    → All Plain front
    → b ≢ lf
    → All Plain mid
    → length (lone_cr front b mid []) ≤ d.max_length
    → decode io d (lone_cr front b mid []) ≡ none
unfolding decode decode_at find_end_of_line
decode-lone_cr_throws io d front mid b hc pf n pm room =
    let size : min d.max_length (length (lone_cr front b mid []))
        ≡ length front + suc (length mid + 1) =
      omega (arith, length-append front (cr ∷ b ∷ (mid ++ [])), length-append mid []) in
    rw (size, find_loop-lone_cr_line d.terminator_type front mid [] b 1 hc pf n pm)

-- An end of line that `findEndOfLine` reports lies below the maximum length, so that the branch
-- of `decode` for a line above it is never taken.
pub find_end_of_line-lt_max :
    (d : LineBasedFrameDecoder) (q : List ℕ) (eol : ℕ)
    → find_end_of_line d q ≡ some (some eol)
    → eol < d.max_length
unfolding find_end_of_line
find_end_of_line-lt_max d q eol e =
    omega (arith, find_loop-lt d.terminator_type (min d.max_length (length q)) 0 q eol e)

module _ (io : IoBuf) where
  -- A queue whose first `max_length` bytes are plain, and which is longer, is thrown away whole, with
  -- every complete line that it holds behind these bytes.
  pub decode-over :
      (d : LineBasedFrameDecoder) (front more : List ℕ)
      → d.discarding ≡ false
      → All Plain front
      → length front ≡ d.max_length
      → 0 < length more
      → decode io d (front ++ more)
        ≡ some (
            no_frame
              (record d { discarding = true; discarded_bytes = length (front ++ more) % 2 ^ 32 })
              (line_over (length (front ++ more)) d.max_length ∷ [])
              [])
  unfolding decode decode_at find_end_of_line no_line
  decode-over d front more fresh plain full some_more =
      let size : min d.max_length (length (front ++ more)) ≡ length front + 0 =
        omega (arith, length-append front more) in
      let over : d.max_length < length (front ++ more) = omega (arith, length-append front more) in
      rw (size, find_loop-Plain d.terminator_type front more 0 0 plain)
        (if-false d.discarding _ _ fresh
          ∙ if-true (ltb d.max_length (length (front ++ more))) _ _ (lt→ltb _ _ over)
          ∙ rw (
            io.trim_start_enough (length (front ++ more)) (front ++ more) (omega arith),
            drop-all (front ++ more),
          ))

  -- While it discards, the decoder drops the next plain line that fits the maximum, which may be a
  -- line of its own and not the end of the one that was too long.
  pub decode-drops_line :
      (d : LineBasedFrameDecoder) (line : List ℕ) (e : Ending) (rest : List ℕ)
      → d.discarding ≡ true
      → All Plain line
      → Accepts d.terminator_type e
      → length line < d.max_length
      → decode io d (line ++ (ending_bytes e ++ rest))
        ≡ some (no_frame (record d { discarding = false; discarded_bytes = 0 }) [] rest)
  unfolding decode decode_at at_eol end_discard
  decode-drops_line d line e rest busy plain accepts short =
      let whole : length line + delim_length (first_byte e) ≡ length (line ++ ending_bytes e) =
        omega (arith, delim_length-ending e, length-append line (ending_bytes e)) in
      let trimmed : io.trim_start (length line + delim_length (first_byte e))
            (line ++ (ending_bytes e ++ rest))
          ≡ some rest =
        rw (whole, ← append_assoc line (ending_bytes e) rest)
          (trim_line io (line ++ ending_bytes e) rest) in
      rw (find_end_of_line-line d line e rest plain accepts short, get_elem?-ending line e rest)
        (if-true d.discarding _ _ busy ∙ rw (trimmed, end_discard))

  -- A queue of more than `max_length` bytes whose first `max_length` bytes are plain, read
  -- while the decoder is not discarding, is refused and thrown away whole; and if the queue
  -- then begins with a plain line below the maximum, with an ending that the settings accept,
  -- the next `decode` drops that line too.
  pub over_long_costs_next_line :
      (d : LineBasedFrameDecoder) (front more line : List ℕ) (e : Ending) (rest : List ℕ)
      → d.discarding ≡ false
      → All Plain front
      → length front ≡ d.max_length
      → 0 < length more
      → All Plain line
      → Accepts d.terminator_type e
      → length line < d.max_length
      → (d' : LineBasedFrameDecoder) × (decode io d (front ++ more)
          ≡ some (no_frame d' (line_over (length (front ++ more)) d.max_length ∷ []) []))
        × (decode io d' (line ++ (ending_bytes e ++ rest))
            ≡ some (no_frame (record d { discarding = false; discarded_bytes = 0 }) [] rest))
  over_long_costs_next_line d front more line e rest fresh pf full some_more pl accepts short =
      let d' = record d { discarding = true; discarded_bytes = length (front ++ more) % 2 ^ 32 } in
      (
        d',
        decode-over d front more fresh pf full some_more,
        decode-drops_line d' line e rest refl pl accepts short,
      )
