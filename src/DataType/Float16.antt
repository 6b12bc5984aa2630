-- ===== src/DataType/Float16.antt =====
-- `Float16` of src/data_type.h. A `float` is its 32-bit pattern, as `std::memcpy` gives it.
mod Fields
pub mod RoundTrip
pub mod Narrowing
use infini_ops.Prelude.{
  ℕ, zero, suc, ◌+◌, ◌*◌, ◌/◌, ◌%◌, ◌^◌, bit_and, bit_or, ◌&&◌, not, ◌==◌, if◌then◌else◌, Option,
  none, some,
}
use infini_ops.Prelude.Bits.{◌<<<◌, ◌>>>◌}
use infini_ops.Prelude.Int.{ℤ, pos, negsuc, ◌+ℤ◌, ◌-ℤ◌, leb_ℤ, eqb_ℤ, word32}

abbrev u16 : ℕ → ℕ
u16 x = x % 2 ^ 16

-- The branches of `Float16::FromFloat`, by the unbiased exponent.
pub encode : ℕ → ℤ → ℕ → ℕ
unfolding ◌+ℤ◌ ◌-ℤ◌
encode sign exponent mantissa =
    if leb_ℤ (pos 16) exponent
    then (if eqb_ℤ exponent (pos 128) && not (mantissa == 0)
        then u16 (bit_or sign 0x7e00)
        else u16 (bit_or sign 0x7c00))
    else if leb_ℤ (negsuc 13) exponent
    then u16 (bit_or (bit_or sign (word32 (exponent +ℤ pos 15) <<< 10)) (mantissa >>> 13))
    else if leb_ℤ (negsuc 23) exponent
    then u16 (bit_or sign ((bit_or mantissa 0x80_0000 >>> word32 (negsuc 13 -ℤ exponent)) >>> 13))
    else sign

pub from_float : ℕ → ℕ
from_float f32 =
    let sign = bit_and (f32 >>> 16) 0x8000 in
    let exponent = pos (bit_and (f32 >>> 23) 0xff) -ℤ pos 127 in
    let mantissa = bit_and f32 0x7f_ffff in encode sign exponent mantissa

-- `while ((mantissa & 0x400) == 0)`, with fuel; `none` means that the fuel ran out.
normalise : ℕ → ℕ → ℤ → Option (ℕ × ℤ)
unfolding ◌-ℤ◌
normalise zero mantissa exponent = none
normalise (suc fuel) mantissa exponent =
    let rest = normalise fuel ((mantissa <<< 1) % 2 ^ 32) (exponent -ℤ pos 1) in
    if bit_and mantissa 0x400 == 0 then rest else some (mantissa, exponent)

pack_float : ℕ → ℤ → ℕ → ℕ
unfolding ◌+ℤ◌
pack_float sign exponent mantissa = bit_or (bit_or sign (word32 exponent <<< 23)) (mantissa <<< 13)

pub to_float : ℕ → Option ℕ
unfolding normalise
to_float bits =
    let sign = (bit_and bits 0x8000 <<< 16) % 2 ^ 32 in
    let exponent = bit_and (bits >>> 10) 0x1f in
    let mantissa = bit_and bits 0x3ff in
    if exponent == 31
    then some (bit_or (bit_or sign 0x7f80_0000) (mantissa <<< 13))
    else if exponent == 0
    then (if mantissa == 0 then some sign else elim (normalise 11 mantissa (negsuc 13)) [
      | none ↦ none
      | some (m, e) ↦ some (pack_float sign (e +ℤ pos 127) (bit_and m 0x3ff))
    ])
    else some (pack_float sign (pos exponent +ℤ pos 112) mantissa)
