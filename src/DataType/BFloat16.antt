-- ===== src/DataType/BFloat16.antt =====
-- `BFloat16` of src/data_type.h. A `float` is its 32-bit pattern, as `std::memcpy` gives it.
use infini_ops.Prelude.{ℕ, ◌+◌, ◌*◌, ◌/◌, ◌%◌, ◌^◌, ◌<◌, ◌≤◌, ◌≡◌, ◌↔◌, arith, bit_and}
use infini_ops.Prelude.Bits.{◌<<<◌, ◌>>>◌, and_ones}

pub from_float : ℕ → ℕ
from_float bits32 =
    let rounding_bias = (0x7fff + bit_and (bits32 >>> 16) 1) % 2 ^ 32 in
    (((bits32 + rounding_bias) % 2 ^ 32) >>> 16) % 2 ^ 16

pub to_float : ℕ → ℕ
to_float bits = (bits <<< 16) % 2 ^ 32

from_float_sum : (x : ℕ) → from_float x ≡ (x + (0x7fff + x / 2 ^ 16 % 2)) % 2 ^ 32 / 2 ^ 16
unfolding from_float
from_float_sum x = omega (arith, and_ones 1 (x / 2 ^ 16))

-- Widening loses nothing: every 16-bit pattern is narrowed back to itself.
pub narrow_widen : (bits : ℕ) → bits < 2 ^ 16 → from_float (to_float bits) ≡ bits
unfolding to_float
narrow_widen bits h = omega (arith, from_float_sum ((bits * 2 ^ 16) % 2 ^ 32))

-- Below the patterns that wrap around, narrowing rounds to a nearest pattern, and to the even one
-- where two are equally near.
pub from_float_nearest :
    (x : ℕ)
    → x < 0xffff_8000
    → (to_float (from_float x) ≤ x + 2 ^ 15)
      × (x ≤ to_float (from_float x) + 2 ^ 15)
      × (x % 2 ^ 16 ≡ 2 ^ 15 → from_float x % 2 ≡ 0)
unfolding to_float
from_float_nearest x h = (
  omega (arith, from_float_sum x),
  omega (arith, from_float_sum x),
  λ tie. omega (arith, from_float_sum x),
)

-- A pattern that is no number, in 32 and in 16 bits: all exponent bits and some other.
abbrev pub IsNan32 : ℕ → Type 0
IsNan32 x = 0x7f80_0000 < x % 2 ^ 31

abbrev pub IsNan16 : ℕ → Type 0
IsNan16 b = 0x7f80 < b % 2 ^ 15

-- Narrowing keeps a NaN only if its payload is neither too small nor too large: the others become
-- an infinity or, by a carry into the sign and beyond, a zero.
pub from_float_nan :
    (x : ℕ)
    → x < 2 ^ 32
    → IsNan32 x
    → (IsNan16 (from_float x) ↔ (0x7f80_8000 < x % 2 ^ 31) × (x % 2 ^ 31 < 0x7fff_8000))
      × (x % 2 ^ 31 ≤ 0x7f80_8000 → from_float x % 2 ^ 15 ≡ 0x7f80)
      × (0x7fff_8000 ≤ x % 2 ^ 31 → from_float x % 2 ^ 15 ≡ 0)
from_float_nan x h nan = (
  (λ k. omega (arith, from_float_sum x), λ k. omega (arith, from_float_sum x)),
  λ k. omega (arith, from_float_sum x),
  λ k. omega (arith, from_float_sum x),
)
