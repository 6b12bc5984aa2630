-- ===== src/Prelude/Bits.antt =====
-- `&`, `|` and shifts as arithmetic, for masks and fields of any width.
use Prim.Native.Nat.{min, digits, bit_and-bitwise, bit_or-bitwise}
use native.Mathlib.Nat.{
  pow-suc, one-le-pow, mul-one, div-one, div-div-eq-div-mul, mul_comm, div-add-mod,
}
use infini_ops.Prelude.{
  ℕ, zero, suc, ◌+◌, ◌-◌, ◌*◌, ◌/◌, ◌%◌, ◌^◌, ◌≤◌, ◌<◌, ◌≡◌, refl, ap, arith, bit_and, bit_or, max,
  sym, ◌∙◌,
}

infixl 75 ◌<<<◌ ◌>>>◌
abbrev pub ◌<<<◌ : ℕ → ℕ → ℕ
x <<< k = x * 2 ^ k

abbrev pub ◌>>>◌ : ℕ → ℕ → ℕ
x >>> k = x / 2 ^ k

-- The recursion on digits that the native operations stand for takes any fuel that is enough.
module _ (z : ℕ → ℕ) (f : ℕ → ℕ → ℕ) where
  digits_any : (k a l b : ℕ) → a ≤ l → a ≤ k → digits z f l a b ≡ digits z f k a b
  digits_any (suc k) (suc a) (suc l) b low high =
      omega (arith, digits_any k (suc a / 2) l (b / 2) (omega arith) (omega arith))
  digits_any (suc k) (suc a) zero b low high = elim low [ ]
  digits_any zero (suc a) l b low high = elim high [ ]
  digits_any (suc k) zero (suc l) b low high = refl
  digits_any (suc k) zero zero b low high = refl
  digits_any zero zero (suc l) b low high = refl
  digits_any zero zero zero b low high = refl

-- One equation for the lowest digit.
or_digit : (a b : ℕ) → bit_or a b ≡ max (a % 2) (b % 2) + 2 * bit_or (a / 2) (b / 2)
or_digit (suc a) b =
    let fuel =
      digits_any (λ y. y) max a (suc a / 2) (suc a / 2) (b / 2) (omega arith) (omega arith) in
    omega (fuel, bit_or-bitwise (suc a / 2) (b / 2), bit_or-bitwise (suc a) b, arith)
or_digit zero b = omega (bit_or-bitwise 0 (b / 2), bit_or-bitwise 0 b, arith)

and_digit : (a b : ℕ) → bit_and a b ≡ min (a % 2) (b % 2) + 2 * bit_and (a / 2) (b / 2)
and_digit (suc a) b =
    let fuel =
      digits_any (λ y. 0) min a (suc a / 2) (suc a / 2) (b / 2) (omega arith) (omega arith) in
    omega (fuel, bit_and-bitwise (suc a / 2) (b / 2), bit_and-bitwise (suc a) b, arith)
and_digit zero b = omega (bit_and-bitwise 0 (b / 2), bit_and-bitwise 0 b, arith)

-- The second argument 0, up to a bound on the first.
or_zero_within : (bound a : ℕ) → a ≤ bound → bit_or a 0 ≡ a
or_zero_within (suc bound) (suc a) low =
    omega (or_zero_within bound (suc a / 2) (omega arith), or_digit (suc a) 0, arith)
or_zero_within zero (suc a) low = elim low [ ]
or_zero_within bound zero low = refl

and_zero_within : (bound a : ℕ) → a ≤ bound → bit_and a 0 ≡ 0
and_zero_within (suc bound) (suc a) low =
    omega (and_zero_within bound (suc a / 2) (omega arith), and_digit (suc a) 0, arith)
and_zero_within zero (suc a) low = elim low [ ]
and_zero_within bound zero low = refl

shift_suc : (q k : ℕ) → q * 2 ^ suc k ≡ 2 * (q * 2 ^ k)
shift_suc q k = omega (arith, ap (λ (t : ℕ). q * t) (pow-suc 2 k))

-- `(q << k) | r` and `r | (q << k)` are a sum where `r` fits in `k` bits.
pub or_high_low : (k q r : ℕ) → r < 2 ^ k → bit_or (q * 2 ^ k) r ≡ q * 2 ^ k + r
or_high_low zero q r h = ground (arith, or_zero_within q q)
or_high_low (suc k) q r h = ground (
  arith,
  or_digit (q * 2 ^ suc k) r,
  shift_suc q k,
  or_high_low k q (r / 2) (omega (arith, pow-suc 2 k)),
)

pub or_low_high : (k q r : ℕ) → r < 2 ^ k → bit_or r (q * 2 ^ k) ≡ q * 2 ^ k + r
or_low_high zero q r h = ground (arith, bit_or-bitwise 0 q)
or_low_high (suc k) q r h = ground (
  arith,
  or_digit r (q * 2 ^ suc k),
  shift_suc q k,
  or_low_high k q (r / 2) (omega (arith, pow-suc 2 k)),
)

and_high_low : (k q r : ℕ) → r < 2 ^ k → bit_and (q * 2 ^ k + r) (2 ^ k - 1) ≡ r
and_high_low zero q r h =
    rw (and_zero_within (q * 2 ^ 0 + r) (q * 2 ^ 0 + r) (omega arith)) (omega arith)
and_high_low (suc k) q r h = ground (
  arith,
  and_digit (q * 2 ^ suc k + r) (2 ^ suc k - 1),
  shift_suc q k,
  pow-suc 2 k,
  one-le-pow k 2,
  and_high_low k q (r / 2) (omega (arith, pow-suc 2 k)),
)

-- A mask of `k` ones keeps the remainder.
pub and_ones : (k a : ℕ) → bit_and a (2 ^ k - 1) ≡ a % 2 ^ k
and_ones k a = ground (arith, one-le-pow k 2, and_high_low k (a / 2 ^ k) (a % 2 ^ k))

-- A mask shifted by `s` keeps the field above the low `s` bits.
pub and_shifted : (s m a : ℕ) → bit_and a (m * 2 ^ s) ≡ bit_and (a / 2 ^ s) m * 2 ^ s
and_shifted zero m a = rw (mul-one m, div-one a, mul-one (bit_and a m))
and_shifted (suc s) m a = ground (
  arith,
  and_digit a (m * 2 ^ suc s),
  shift_suc m s,
  shift_suc (bit_and (a / 2 / 2 ^ s) m) s,
  pow-suc 2 s,
  and_shifted s m (a / 2),
  div-div-eq-div-mul a 2 (2 ^ s),
  mul_comm 2 (2 ^ s),
)

-- The same for a number whose low bits are clear.
pub or_sum : (k a r : ℕ) → a % 2 ^ k ≡ 0 → r < 2 ^ k → bit_or a r ≡ a + r
or_sum k a r clear h =
    let whole : a / 2 ^ k * 2 ^ k ≡ a = grind (arith, div-add-mod, clear) in
    ap (λ x. bit_or x r) (sym whole) ∙ or_high_low k (a / 2 ^ k) r h ∙ ap (λ x. x + r) whole

pub or_sum_low : (k a r : ℕ) → a % 2 ^ k ≡ 0 → r < 2 ^ k → bit_or r a ≡ a + r
or_sum_low k a r clear h =
    let whole : a / 2 ^ k * 2 ^ k ≡ a = grind (arith, div-add-mod, clear) in
    ap (bit_or r) (sym whole) ∙ or_low_high k (a / 2 ^ k) r h ∙ ap (λ x. x + r) whole

-- A single-bit mask.
pub and_bit : (k a : ℕ) → bit_and a (1 * 2 ^ k) ≡ a / 2 ^ k % 2 * 2 ^ k
and_bit k a = rw (and_shifted k 1 a) (ap (λ x. x * 2 ^ k) (and_ones 1 (a / 2 ^ k)))
