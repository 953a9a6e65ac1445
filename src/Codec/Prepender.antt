-- ===== src/Codec/Prepender.antt =====
-- wangle/codec/LengthFieldPrepender.h and .cpp: a length field in front of each message.
pub mod RoundTrip
pub mod Stream
use provider_agent_proxy.Common.{
  ℕ, ◌+◌, ◌%◌, ◌^◌, Bool, List, ◌++◌, ltb, leb, ◌==◌, if◌then◌else◌, length,
}
use provider_agent_proxy.Common.Int.{ℤ, pos, pos_part, is_neg, to_u32, to_u64, to_i32, of_u32, ◌+ℤ◌}
use provider_agent_proxy.Folly.{IoBuf}

-- The numbers are `int`s; the constructor checks that the width is 1, 2, 4 or 8.
pub record LengthFieldPrepender : Type 0 where
  pub length_field_length : ℕ
  pub length_adjustment : ℤ
  pub length_includes_length_field : Bool
  pub network_byte_order : Bool

pub data WriteError : Type 0 where
  length_field_negative : WriteError
  length_does_not_fit_byte : WriteError
  invalid_length_field_length : WriteError

-- The buffer handed to `ctx->fireWrite`, or the `runtime_error` that is thrown.
pub data Written : Type 0 where
  fire_write : List ℕ → Written
  throws : WriteError → Written

-- `length`: an `int` and a `size_t` add up to a `size_t`, which becomes an `int` again. (The second
-- sum is one of `int`s; where it would overflow, C++ leaves it undefined, and this wraps.)
unfoldable pub length_value : LengthFieldPrepender → List ℕ → ℤ
unfolding ◌+ℤ◌
length_value p buf =
    let base = of_u32 ((to_u64 p.length_adjustment + length buf) % 2 ^ 64 % 2 ^ 32) in
    if p.length_includes_length_field then to_i32 (base +ℤ pos p.length_field_length) else base

module _ (io : IoBuf) where
  -- The switch on the width, for a length that is not negative.
  unfoldable pub encode_length : LengthFieldPrepender → ℕ → List ℕ → Written
  encode_length p n buf =
      let field = io.write_int p.network_byte_order p.length_field_length in
      if p.length_field_length == 1
      then (if leb 256 n
          then throws length_does_not_fit_byte
          else fire_write (field (n % 2 ^ 8) ++ buf))
      else if p.length_field_length == 2
      then (if leb 65536 n
          then throws length_does_not_fit_byte
          else fire_write (field (n % 2 ^ 16) ++ buf))
      else if p.length_field_length == 4
      then fire_write (field (n % 2 ^ 32) ++ buf)
      else if p.length_field_length == 8
      then fire_write (field (n % 2 ^ 64) ++ buf)
      else throws invalid_length_field_length

  unfoldable pub write : LengthFieldPrepender → List ℕ → Written
  write p buf =
      if is_neg (length_value p buf)
      then throws length_field_negative
      else encode_length p (pos_part (length_value p buf)) buf
