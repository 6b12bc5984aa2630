-- ===== src/DataType/Float16/Narrowing.antt =====
-- What `FromFloat` does on each range of exponents.
use native.Mathlib.Nat.{div-le_self}
use infini_ops.Prelude.{
  ℕ, refl, ◌≡◌, ◌<◌, ◌≤◌, true, false, dec_lt, ap, sym, ◌∙◌, ◌-◌, leb, ◌&&◌, ◌==◌, ◌+◌, ◌*◌, ◌/◌,
  ◌%◌, ◌^◌, bit_or, arith, ltb, if◌then◌else◌,
}
use infini_ops.Prelude.Bits.{or_sum, or_sum_low}
use infini_ops.Prelude.Int.{pos, negsuc, word32, leb_ℤ, ◌-ℤ◌, ◌+ℤ◌}
use infini_ops.DataType.Float16.{encode, from_float}
use infini_ops.DataType.Float16.Fields.{from_float_fields}

-- What a 32-bit pattern is narrowed to, by its exponent field: too large ones overflow to an
-- infinity, or stay NaN; normal ones lose the low 13 bits of the mantissa; smaller ones lose as
-- many more as their exponent is below the least normal one; the rest become a signed zero.
abbrev pub narrowed : ℕ → ℕ → ℕ → ℕ
narrowed s E M =
    if leb 143 E
    then s * 2 ^ 15 + (if E == 255 && ltb 0 M then 0x7e00 else 0x7c00)
    else if leb 113 E
    then s * 2 ^ 15 + (E - 112) * 2 ^ 10 + M / 2 ^ 13
    else if leb 103 E
    then s * 2 ^ 15 + (2 ^ 23 + M) / 2 ^ (113 - E) / 2 ^ 13
    else s * 2 ^ 15

module _ (s E M : ℕ) (hs : s < 2) (hE : E < 256) (hM : M < 2 ^ 23) where
  encode_high : 143 ≤ E → encode (s * 2 ^ 15) (pos E -ℤ pos 127) M ≡ narrowed s E M
  unfolding encode ◌-ℤ◌
  encode_high h = ground (arith, or_sum 15 (s * 2 ^ 15) 0x7e00, or_sum 15 (s * 2 ^ 15) 0x7c00)

  encode_middle : 113 ≤ E → E < 143 → encode (s * 2 ^ 15) (pos E -ℤ pos 127) M ≡ narrowed s E M
  unfolding encode ◌-ℤ◌ ◌+ℤ◌
  encode_middle lo hi = ground (
    arith,
    or_sum 15 (s * 2 ^ 15) ((E - 112) * 2 ^ 10),
    or_sum 10 (s * 2 ^ 15 + (E - 112) * 2 ^ 10) (M / 2 ^ 13),
  )

  exponent_tests :
      103 ≤ E
      → E < 113
      → (leb_ℤ (pos 16) (pos E -ℤ pos 127) ≡ false)
        × (leb_ℤ (negsuc 13) (pos E -ℤ pos 127) ≡ false)
        × (leb_ℤ (negsuc 23) (pos E -ℤ pos 127) ≡ true)
  unfolding ◌-ℤ◌
  exponent_tests lo hi = (ground arith, ground arith, ground arith)

  shift_count : 103 ≤ E → E < 113 → word32 (negsuc 13 -ℤ (pos E -ℤ pos 127)) ≡ 113 - E
  unfolding ◌-ℤ◌
  shift_count lo hi = ground arith

  shifted_below : (k : ℕ) → (2 ^ 23 + M) / 2 ^ k / 2 ^ 13 < 2 ^ 11
  shifted_below k = omega (arith, div-le_self (2 ^ 23 + M) (2 ^ k))

  encode_low : 103 ≤ E → E < 113 → encode (s * 2 ^ 15) (pos E -ℤ pos 127) M ≡ narrowed s E M
  unfolding encode
  encode_low lo hi =
      let tests = exponent_tests lo hi in
      let mantissa = (2 ^ 23 + M) / 2 ^ (113 - E) / 2 ^ 13 in
      let implicit_one : bit_or M 0x80_0000 ≡ 2 ^ 23 + M = or_sum_low 23 0x80_0000 M refl hM in
      let packed : bit_or (s * 2 ^ 15) mantissa ≡ s * 2 ^ 15 + mantissa =
        or_sum 15 (s * 2 ^ 15) mantissa (omega arith) (omega (arith, shifted_below (113 - E))) in
      rw (tests.0, tests.1, tests.2, implicit_one, shift_count lo hi, packed)
        (ground (arith, shifted_below (113 - E)))

  encode_tiny : E < 103 → encode (s * 2 ^ 15) (pos E -ℤ pos 127) M ≡ narrowed s E M
  unfolding encode ◌-ℤ◌
  encode_tiny h = ground arith

  encode-narrowed : encode (s * 2 ^ 15) (pos E -ℤ pos 127) M ≡ narrowed s E M
  encode-narrowed = elim (dec_lt E 103) [
    | yes tiny ↦ encode_tiny tiny
    | no a ↦ elim (dec_lt E 113) [
      | yes low ↦ encode_low (omega arith) low
      | no b ↦ elim (dec_lt E 143) [
        | yes middle ↦ encode_middle (omega arith) middle
        | no high ↦ encode_high (omega arith)
      ]
    ]
  ]

-- Narrowing depends on the sign, exponent and mantissa fields as `narrowed` says, for every 32-bit
-- pattern.
pub from_float-narrowed :
    (x : ℕ) → x < 2 ^ 32 → from_float x ≡ narrowed (x / 2 ^ 31) (x / 2 ^ 23 % 2 ^ 8) (x % 2 ^ 23)
from_float-narrowed x h =
    let s = x / 2 ^ 31 in
    let E = x / 2 ^ 23 % 2 ^ 8 in
    let M = x % 2 ^ 23 in
    let whole : s * 2 ^ 31 + E * 2 ^ 23 + M ≡ x = omega arith in
    ap from_float (sym whole)
    ∙ from_float_fields s E M (omega arith) (omega arith) (omega arith)
    ∙ encode-narrowed s E M (omega arith) (omega arith) (omega arith)
