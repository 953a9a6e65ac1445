-- ===== src/Folly/Interface.antt =====
-- What the codecs and handlers use of folly's `IOBufQueue`, `IOBuf` and `Cursor`, which the
-- repository calls and does not contain. A chain of buffers is the list of its bytes; `none` is the
-- exception that folly throws (`std::underflow_error`, `std::out_of_range`).

use provider_agent_proxy.Common.{
  ℕ, ◌^◌, ◌≤◌, ◌<◌, ◌≡◌, Bool, List, ◌++◌, Option, none, some, length, take, drop,
}

pub record IoBuf : Type 0 where
  -- `IOBufQueue::split(n)`: the first n bytes, and what stays in the queue.
  pub split : ℕ → List ℕ → Option (List ℕ × List ℕ)
  pub split_enough : (n : ℕ) (q : List ℕ) → n ≤ length q → split n q ≡ some (take n q, drop n q)
  pub split_short : (n : ℕ) (q : List ℕ) → length q < n → split n q ≡ none
  -- `IOBufQueue::trimStart(n)`.
  pub trim_start : ℕ → List ℕ → Option (List ℕ)
  pub trim_start_enough : (n : ℕ) (q : List ℕ) → n ≤ length q → trim_start n q ≡ some (drop n q)
  pub trim_start_short : (n : ℕ) (q : List ℕ) → length q < n → trim_start n q ≡ none
  -- `IOBufQueue::trimStartAtMost(n)`.
  pub trim_start_at_most : ℕ → List ℕ → List ℕ
  pub trim_start_at_most_lem : (n : ℕ) (q : List ℕ) → trim_start_at_most n q ≡ drop n q
  -- `Cursor::skip(n)`.
  pub skip : ℕ → List ℕ → Option (List ℕ)
  pub skip_enough : (n : ℕ) (q : List ℕ) → n ≤ length q → skip n q ≡ some (drop n q)
  -- `Cursor::readBE` (first argument `true`) and `readLE`, of a type of the given width in bytes.
  pub read_int : Bool → ℕ → List ℕ → Option ℕ
  -- `RWPrivateCursor::writeBE` and `writeLE`.
  pub write_int : Bool → ℕ → ℕ → List ℕ
  pub length-write_int : (be : Bool) (w v : ℕ) → length (write_int be w v) ≡ w
  pub read_int-write_int :
      (be : Bool) (w v : ℕ) (rest : List ℕ)
      → v < 256 ^ w
      → read_int be w (write_int be w v ++ rest) ≡ some v
  pub read_int_total :
      (be : Bool) (w : ℕ) (q : List ℕ)
      → w ≤ length q
      → (v : ℕ) × (read_int be w q ≡ some v) × (v < 256 ^ w)
  -- A read looks at the bytes under the cursor alone.
  pub read_int-append :
      (be : Bool) (w : ℕ) (q more : List ℕ)
      → w ≤ length q
      → read_int be w (q ++ more) ≡ read_int be w q
