-- ===== src/DataType/Float16/Fields.antt =====
-- The fields that `FromFloat` takes out of a 32-bit pattern.
use infini_ops.Prelude.{ℕ, ◌≡◌, ◌<◌, ◌+◌, ◌*◌, ◌/◌, ◌^◌, bit_and, arith}
use infini_ops.Prelude.Bits.{and_ones, and_bit}
use infini_ops.Prelude.Int.{pos, ◌-ℤ◌}
use infini_ops.DataType.Float16.{encode, from_float}

pub from_float_fields :
    (s E M : ℕ)
    → s < 2
    → E < 256
    → M < 2 ^ 23
    → from_float (s * 2 ^ 31 + E * 2 ^ 23 + M) ≡ encode (s * 2 ^ 15) (pos E -ℤ pos 127) M
unfolding from_float
from_float_fields s E M hs hE hM =
    let x = s * 2 ^ 31 + E * 2 ^ 23 + M in
    let sign : bit_and (x / 2 ^ 16) 0x8000 ≡ s * 2 ^ 15 = omega (arith, and_bit 15 (x / 2 ^ 16)) in
    let exponent : bit_and (x / 2 ^ 23) 0xff ≡ E = omega (arith, and_ones 8 (x / 2 ^ 23)) in
    let mantissa : bit_and x 0x7f_ffff ≡ M = omega (arith, and_ones 23 x) in
    λ i. encode (sign i) (pos (exponent i) -ℤ pos 127) (mantissa i)
