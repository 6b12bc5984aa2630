-- ===== src/Prelude/Word.antt =====
-- 64-bit words: `std::size_t` as a number below 2 ^ 64, and `std::ptrdiff_t` and `std::int64_t` by
-- their two's complement bit pattern, which is what mixed arithmetic converts them to.
use Prim.Native.Nat.{ℕ, ◌+◌, ◌-◌, ◌*◌, ◌%◌, ◌^◌}
use mathlib.Core.Bool.{Bool, true, false}
use infini_ops.Prelude.Tests.{leb, ltb}

abbrev pub add64 : ℕ → ℕ → ℕ
add64 a b = (a + b) % 2 ^ 64

abbrev pub sub64 : ℕ → ℕ → ℕ
sub64 a b = (a + 2 ^ 64 - b) % 2 ^ 64

abbrev pub mul64 : ℕ → ℕ → ℕ
mul64 a b = (a * b) % 2 ^ 64

-- The sign bit of a pattern.
abbrev pub negative : ℕ → Bool
negative w = leb (2 ^ 63) w

-- The pattern of -n.
abbrev pub minus : ℕ → ℕ
minus n = sub64 0 n

-- `w > 0` for a signed word.
abbrev pub positive : ℕ → Bool
positive w = elim (negative w) [ true ↦ false | false ↦ ltb 0 w ]
