-- ===== src/Codec/Decoder.antt =====
-- wangle/codec/ByteToMessageDecoder.h: the loop that calls `decode` until it returns false.
pub mod Termination
pub mod Fragments
pub mod Pieces
use provider_agent_proxy.Common.{ℕ, zero, suc, List, [], ◌∷◌, ◌++◌, map, Option, none, some, length}

-- The exceptions that the decoders hand to `ctx->fireReadException`, by their message.
pub data ReadError : Type 0 where
  frame_too_small : ReadError
  frame_larger_than : ℕ → ReadError
  strip_larger_than_frame : ReadError
  line_exceeds : ℕ → ℕ → ReadError
  line_over : ℕ → ℕ → ReadError

-- One call of `decode`: the decoder and the queue after it, the value of `result` if the call
-- returned true, the read exceptions that it fired, and the value left in `needed`.
pub record Outcome (S : Type 0) : Type 0 where
  pub state : S
  pub buf : List ℕ
  pub result : Option (List ℕ)
  pub fired : List ReadError
  pub needed : ℕ

-- `none`: a C++ exception leaves `decode`.
abbrev pub Decode : Type 0 → Type 0
Decode S = S → List ℕ → Option (Outcome S)

-- What the next handler of the pipeline sees.
pub data Event : Type 0 where
  fire_read : List ℕ → Event
  fire_read_exception : ReadError → Event

pub data Run (S : Type 0) : Type 0 where
  done : S → List ℕ → List Event → Run S
  thrown : List Event → Run S
  out_of_fuel : Run S

module _ {S : Type 0} where
  -- Events that happened before the rest of a run.
  abbrev pub after : List Event → Run S → Run S
  after es (done s q fs) = done s q (es ++ fs)
  after es (thrown fs) = thrown (es ++ fs)
  after es out_of_fuel = out_of_fuel

  abbrev pub errors : Outcome S → List Event
  errors o = map fire_read_exception o.fired

  unfoldable pub read_loop : Decode S → ℕ → S → List ℕ → Run S
  read_loop decode zero s q = out_of_fuel
  read_loop decode (suc fuel) s q = elim (decode s q) [
    | none ↦ thrown []
    | some o ↦ elim o.result [
      | none ↦ done o.state o.buf (errors o)
      | some m ↦ after (errors o ++ (fire_read m ∷ [])) (read_loop decode fuel o.state o.buf)
    ]
  ]

  -- `ByteToMessageDecoder::read`. Each round that succeeds takes a byte at least from the queue, so
  -- that this fuel is enough (`Termination`).
  unfoldable pub read : Decode S → S → List ℕ → Run S
  unfolding read_loop
  read decode s q = read_loop decode (suc (length q)) s q
