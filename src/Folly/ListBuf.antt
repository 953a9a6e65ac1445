-- ===== src/Folly/ListBuf.antt =====
-- A concrete buffer over lists of numbers below 256, which meets every assumption of `IoBuf`.
use mathlib.Core.List.{reverse, reverse-cons, reverse-reverse}
use provider_agent_proxy.Common.{
  ℕ, zero, suc, ◌+◌, ◌*◌, ◌/◌, ◌%◌, ◌^◌, ◌≤◌, ◌<◌, ◌≡◌, refl, ap, ◌∙◌, Bool, true, false, List, [],
  ◌∷◌, ◌++◌, Option, none, some, arith, ltb, if◌then◌else◌, length, take, drop, length-append,
  length-take, take-length-append, subst, lt→ltb, le→ltb, take-append_left,
}
use provider_agent_proxy.Folly.Interface.{IoBuf}

-- The lowest byte first.
pub le_bytes : ℕ → ℕ → List ℕ
le_bytes zero v = []
le_bytes (suc w) v = v % 256 ∷ le_bytes w (v / 256)

pub le_value : List ℕ → ℕ
le_value [] = 0
le_value (b ∷ bs) = b % 256 + 256 * le_value bs

length-le_bytes : (w v : ℕ) → length (le_bytes w v) ≡ w
unfolding le_bytes
length-le_bytes zero v = refl
length-le_bytes (suc w) v = ap suc (length-le_bytes w (v / 256))

pow_step : (w : ℕ) → 256 ^ suc w ≡ 256 * 256 ^ w
pow_step w = omega arith

le_value-le_bytes : (w v : ℕ) → v < 256 ^ w → le_value (le_bytes w v) ≡ v
unfolding le_bytes le_value
le_value-le_bytes zero v h = omega arith
le_value-le_bytes (suc w) v h =
    omega (arith, le_value-le_bytes w (v / 256) (omega (arith, pow_step w)))

le_value-lt : (bs : List ℕ) → le_value bs < 256 ^ length bs
unfolding le_value
le_value-lt [] = omega arith
le_value-lt (b ∷ bs) = omega (arith, le_value-lt bs, pow_step (length bs))

order : Bool → List ℕ → List ℕ
order true bs = reverse bs
order false bs = bs

length-reverse : (bs : List ℕ) → length (reverse bs) ≡ length bs
length-reverse [] = refl
length-reverse (b ∷ bs) =
    omega
      (arith, ap length (reverse-cons b bs), length-append (reverse bs) (b ∷ []), length-reverse bs)

length-order : (be : Bool) (bs : List ℕ) → length (order be bs) ≡ length bs
unfolding order
length-order true bs = length-reverse bs
length-order false bs = refl

order-order : (be : Bool) (bs : List ℕ) → order be (order be bs) ≡ bs
unfolding order
order-order true bs = reverse-reverse bs
order-order false bs = refl

unfoldable pub write_bytes : Bool → ℕ → ℕ → List ℕ
unfolding le_bytes order
write_bytes be w v = order be (le_bytes w v)

unfoldable pub read_bytes : Bool → ℕ → List ℕ → Option ℕ
unfolding le_value order
read_bytes be w q = if ltb (length q) w then none else some (le_value (order be (take w q)))

pub length-write_bytes : (be : Bool) (w v : ℕ) → length (write_bytes be w v) ≡ w
unfolding write_bytes
length-write_bytes be w v = length-order be (le_bytes w v) ∙ length-le_bytes w v

read_bytes_enough :
    (be : Bool) (w : ℕ) (q : List ℕ)
    → w ≤ length q
    → read_bytes be w q ≡ some (le_value (order be (take w q)))
unfolding read_bytes
read_bytes_enough be w q h = rw (le→ltb (length q) w h)

take_all : (w : ℕ) (bs more : List ℕ) → length bs ≡ w → take w (bs ++ more) ≡ bs
take_all w bs more e = rw (← e) (take-length-append bs more)

pub read_bytes-write_bytes :
    (be : Bool) (w v : ℕ) (rest : List ℕ)
    → v < 256 ^ w
    → read_bytes be w (write_bytes be w v ++ rest) ≡ some v
read_bytes-write_bytes be w v rest h =
    read_bytes_enough be w (write_bytes be w v ++ rest) enough
    ∙ ap some (
        rw (take_all w (write_bytes be w v) rest (length-write_bytes be w v))
          (unfold write_bytes in rw (order-order be (le_bytes w v)) (le_value-le_bytes w v h)))
  where
    enough : w ≤ length (write_bytes be w v ++ rest)
    enough = omega (arith, length-append (write_bytes be w v) rest, length-write_bytes be w v)

pub read_bytes_total :
    (be : Bool) (w : ℕ) (q : List ℕ)
    → w ≤ length q
    → (v : ℕ) × (read_bytes be w q ≡ some v) × (v < 256 ^ w)
read_bytes_total be w q h = (
  le_value (order be (take w q)),
  read_bytes_enough be w q h,
  subst (λ n. le_value (order be (take w q)) < 256 ^ n)
      (length-order be (take w q) ∙ omega (arith, length-take w q))
      (le_value-lt (order be (take w q))),
)

pub read_bytes-append :
    (be : Bool) (w : ℕ) (q more : List ℕ)
    → w ≤ length q
    → read_bytes be w (q ++ more) ≡ read_bytes be w q
read_bytes-append be w q more h =
    read_bytes_enough be w (q ++ more) (omega (arith, length-append q more))
    ∙ rw (take-append_left w q more h, read_bytes_enough be w q h)

unfoldable pub split_bytes : ℕ → List ℕ → Option (List ℕ × List ℕ)
split_bytes n q = if ltb (length q) n then none else some (take n q, drop n q)

unfoldable pub drop_bytes : ℕ → List ℕ → Option (List ℕ)
drop_bytes n q = if ltb (length q) n then none else some (drop n q)

pub split_bytes_enough :
    (n : ℕ) (q : List ℕ) → n ≤ length q → split_bytes n q ≡ some (take n q, drop n q)
unfolding split_bytes
split_bytes_enough n q h = rw (le→ltb (length q) n h)

pub split_bytes_short : (n : ℕ) (q : List ℕ) → length q < n → split_bytes n q ≡ none
unfolding split_bytes
split_bytes_short n q h = rw (lt→ltb (length q) n h)

pub drop_bytes_enough : (n : ℕ) (q : List ℕ) → n ≤ length q → drop_bytes n q ≡ some (drop n q)
unfolding drop_bytes
drop_bytes_enough n q h = rw (le→ltb (length q) n h)

pub drop_bytes_short : (n : ℕ) (q : List ℕ) → length q < n → drop_bytes n q ≡ none
unfolding drop_bytes
drop_bytes_short n q h = rw (lt→ltb (length q) n h)

pub trim_at_most_lem : (n : ℕ) (q : List ℕ) → drop n q ≡ drop n q
trim_at_most_lem n q = refl

abbrev pub list_buf : IoBuf
list_buf = record {
  split = split_bytes;
  split_enough = split_bytes_enough;
  split_short = split_bytes_short;
  trim_start = drop_bytes;
  trim_start_enough = drop_bytes_enough;
  trim_start_short = drop_bytes_short;
  trim_start_at_most = λ n q. drop n q;
  trim_start_at_most_lem = trim_at_most_lem;
  skip = drop_bytes;
  skip_enough = drop_bytes_enough;
  read_int = read_bytes;
  write_int = write_bytes;
  length-write_int = length-write_bytes;
  read_int-write_int = read_bytes-write_bytes;
  read_int_total = read_bytes_total;
  read_int-append = read_bytes-append;
}
