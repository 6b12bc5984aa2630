-- ===== src/DataType/Float16/RoundTrip.antt =====
-- Reading a half float back.
use infini_ops.Prelude.{
  ℕ, refl, ◌≡◌, ◌<◌, ◌≤◌, Bool, true, false, none, some, all_below, all_below_sound, ==_iff,
  Option-cases, dec_lt, subst, ap, sym, ◌∙◌, ◌-◌, inl, inr, ◌==◌, ◌+◌, ◌*◌, ◌/◌, ◌%◌, ◌^◌, arith,
  ltb, if◌then◌else◌,
}
use infini_ops.Prelude.Bits.{and_ones, and_bit, or_sum}
use infini_ops.Prelude.Int.{pos, ◌-ℤ◌, ◌+ℤ◌}
use infini_ops.DataType.Float16.{encode, from_float, to_float, pack_float}
use infini_ops.DataType.Float16.Fields.{from_float_fields}

reads_back : ℕ → Bool
unfolding from_float to_float encode pack_float ◌+ℤ◌ ◌-ℤ◌
reads_back bits = elim (to_float bits) [ none ↦ false | some x ↦ from_float x == bits ]

-- The subnormal patterns and the zeros, of either sign, by evaluation.
subnormal_table : all_below 1024 reads_back ≡ true
unfolding all_below reads_back
subnormal_table = refl

negative_subnormal_table : all_below 1024 (λ m. reads_back (2 ^ 15 + m)) ≡ true
unfolding all_below reads_back
negative_subnormal_table = refl

-- A pattern of the 5-bit exponents that are neither 0 nor 31.
encode_normal :
    (s e m : ℕ)
    → s < 2
    → 0 < e
    → e < 31
    → m < 2 ^ 10
    → encode (s * 2 ^ 15) (pos (e + 112) -ℤ pos 127) (m * 2 ^ 13) ≡ s * 2 ^ 15 + e * 2 ^ 10 + m
unfolding encode ◌-ℤ◌ ◌+ℤ◌
encode_normal s e m hs h0 he hm =
    ground (arith, or_sum 15 (s * 2 ^ 15) (e * 2 ^ 10), or_sum 10 (s * 2 ^ 15 + e * 2 ^ 10) m)

encode_special :
    (s m : ℕ)
    → s < 2
    → m < 2 ^ 10
    → encode (s * 2 ^ 15) (pos 255 -ℤ pos 127) (m * 2 ^ 13)
      ≡ s * 2 ^ 15 + (if m == 0 then 0x7c00 else 0x7e00)
unfolding encode ◌-ℤ◌
encode_special s m hs hm =
    ground (arith, or_sum 15 (s * 2 ^ 15) 0x7e00, or_sum 15 (s * 2 ^ 15) 0x7c00)

pack_float_sum :
    (s E m : ℕ)
    → s < 2
    → E < 256
    → m < 2 ^ 10
    → pack_float (s * 2 ^ 31) (pos E) m ≡ s * 2 ^ 31 + E * 2 ^ 23 + m * 2 ^ 13
unfolding pack_float
pack_float_sum s E m hs hE hm =
    ground
      (arith, or_sum 31 (s * 2 ^ 31) (E * 2 ^ 23), or_sum 23 (s * 2 ^ 31 + E * 2 ^ 23) (m * 2 ^ 13))

to_float_normal :
    (s e m : ℕ)
    → s < 2
    → 0 < e
    → e < 31
    → m < 2 ^ 10
    → to_float (s * 2 ^ 15 + e * 2 ^ 10 + m) ≡ some (s * 2 ^ 31 + (e + 112) * 2 ^ 23 + m * 2 ^ 13)
unfolding to_float ◌+ℤ◌
to_float_normal s e m hs h0 he hm =
    let x = s * 2 ^ 15 + e * 2 ^ 10 + m in
    ground
      (arith, and_bit 15 x, and_ones 5 (x / 2 ^ 10), and_ones 10 x, pack_float_sum s (e + 112) m)

to_float_special :
    (s m : ℕ)
    → s < 2
    → m < 2 ^ 10
    → to_float (s * 2 ^ 15 + 31 * 2 ^ 10 + m) ≡ some (s * 2 ^ 31 + 255 * 2 ^ 23 + m * 2 ^ 13)
unfolding to_float
to_float_special s m hs hm =
    let x = s * 2 ^ 15 + 31 * 2 ^ 10 + m in
    ground (
      arith,
      and_bit 15 x,
      and_ones 5 (x / 2 ^ 10),
      and_ones 10 x,
      or_sum 31 (s * 2 ^ 31) 0x7f80_0000,
      or_sum 23 (s * 2 ^ 31 + 0x7f80_0000) (m * 2 ^ 13),
    )

-- `bits` is widened to a pattern that is narrowed to `result`.
abbrev pub ReadsBackAs : ℕ → ℕ → Type 0
ReadsBackAs bits result = (x : ℕ) × (to_float bits ≡ some x) × (from_float x ≡ result)

reads_back_sound : (bits : ℕ) → reads_back bits ≡ true → ReadsBackAs bits bits
unfolding reads_back
reads_back_sound bits h = elim (Option-cases (to_float bits)) [
  | inl e ↦ absurd (cc (rw (e, reads_back) at h))
  | inr (x, e) ↦ (x, e, (==_iff _ _).0 (rw (e, reads_back) at h))
]

subnormal_reads_back : (bits : ℕ) → bits < 2 ^ 16 → bits % 2 ^ 15 < 2 ^ 10 → ReadsBackAs bits bits
subnormal_reads_back bits h low = elim (dec_lt bits 1024) [
  | yes small ↦ reads_back_sound bits (all_below_sound 1024 reads_back bits small subnormal_table)
  | no large ↦
      let m = bits - 2 ^ 15 in
      let whole : 2 ^ 15 + m ≡ bits = omega arith in
      subst (λ b. ReadsBackAs b b) whole
        (reads_back_sound (2 ^ 15 + m) (
          all_below_sound 1024 (λ k. reads_back (2 ^ 15 + k)) m (omega arith)
            negative_subnormal_table))
]

-- The sign, exponent and mantissa of a pattern.
fields : (bits : ℕ) → bits / 2 ^ 15 * 2 ^ 15 + bits / 2 ^ 10 % 2 ^ 5 * 2 ^ 10 + bits % 2 ^ 10 ≡ bits
fields bits = omega arith

abbrev pub canonical : ℕ → ℕ
canonical bits = if ltb 0x7c00 (bits % 2 ^ 15) then bits / 2 ^ 15 * 2 ^ 15 + 0x7e00 else bits

normal_reads_back :
    (bits : ℕ)
    → bits < 2 ^ 16
    → 2 ^ 10 ≤ bits % 2 ^ 15
    → bits % 2 ^ 15 < 0x7c00
    → ReadsBackAs bits bits
normal_reads_back bits h lo hi =
    let s = bits / 2 ^ 15 in
    let e = bits / 2 ^ 10 % 2 ^ 5 in
    let m = bits % 2 ^ 10 in
    (
      s * 2 ^ 31 + (e + 112) * 2 ^ 23 + m * 2 ^ 13,
      ap to_float (sym (fields bits))
          ∙ to_float_normal s e m (omega arith) (omega arith) (omega arith) (omega arith),
      from_float_fields s (e + 112) (m * 2 ^ 13) (omega arith) (omega arith) (omega arith)
          ∙ encode_normal s e m (omega arith) (omega arith) (omega arith) (omega arith)
          ∙ fields bits,
    )

special_reads_back :
    (bits : ℕ) → bits < 2 ^ 16 → 0x7c00 ≤ bits % 2 ^ 15 → ReadsBackAs bits (canonical bits)
special_reads_back bits h hi =
    let s = bits / 2 ^ 15 in
    let m = bits % 2 ^ 10 in
    let whole : s * 2 ^ 15 + 31 * 2 ^ 10 + m ≡ bits = omega arith in
    (
      s * 2 ^ 31 + 255 * 2 ^ 23 + m * 2 ^ 13,
      ap to_float (sym whole) ∙ to_float_special s m (omega arith) (omega arith),
      from_float_fields s 255 (m * 2 ^ 13) (omega arith) (omega arith) (omega arith)
          ∙ encode_special s m (omega arith) (omega arith)
          ∙ ground arith,
    )

-- Widening ends for every 16-bit pattern, and narrowing gives the pattern back, but for the NaNs:
-- each of these becomes the one quiet NaN of its sign.
pub from_float-to_float : (bits : ℕ) → bits < 2 ^ 16 → ReadsBackAs bits (canonical bits)
from_float-to_float bits h = elim (dec_lt (bits % 2 ^ 15) 0x7c00) [
  | yes finite ↦ subst (ReadsBackAs bits) (ground arith) (elim (dec_lt (bits % 2 ^ 15) (2 ^ 10)) [
    | yes low ↦ subnormal_reads_back bits h low
    | no high ↦ normal_reads_back bits h (omega arith) finite
  ])
  | no special ↦ special_reads_back bits h (omega arith)
]
