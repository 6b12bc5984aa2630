-- ===== src/Base/Checks.antt =====
-- The tests that the constructors of src/base share. An `assert` of a conjunction is the sequence of
-- the asserts of its parts: they are evaluated from the left, up to the first that fails.
pub mod Laws
use infini_ops.Prelude.{
  ℕ, ◌-◌, ◌%◌, ◌^◌, Bool, true, false, ◌&&◌, ◌||◌, Option, none, some, ◌==◌, if◌then◌else◌, Outcome,
  Fault, ok, fail, ◌>>=◌, assert, negative, ◌/◌, minus, ltb, add64,
}
use infini_ops.Prelude.Equality.{same, list_same, nat_eq}
use infini_ops.DataType.{DataType, data_type_eq, int32, int64, float16, bfloat16, float32, float64}
use infini_ops.Tensor.{Tensor, ndim, size, stride}

-- The index -n of a dimension.
abbrev pub from_end : ℕ → ℕ
from_end n = 2 ^ 64 - n

abbrev pub has_ndim : Tensor → ℕ → Outcome (Unit {0})
has_ndim t n = assert (ndim t == n)

abbrev pub same_shape : Tensor → Tensor → Outcome (Unit {0})
same_shape a b = assert (list_same a.shape b.shape)

abbrev pub has_dtype : Tensor → DataType → Outcome (Unit {0})
has_dtype t dtype = assert (same t.dtype dtype)

-- `static_cast<Tensor::Size>` leaves a 64-bit pattern as it is.
abbrev pub has_size : Tensor → ℕ → ℕ → Outcome (Unit {0})
has_size t index n = size t index >>= λ s. assert (s == n)

-- `t.stride(-1) == 1`.
abbrev pub has_unit_stride : Tensor → Outcome (Unit {0})
has_unit_stride t = stride t (from_end 1) >>= λ d. assert (d == 1)

abbrev pub when_given {ℓ} : {A : Type ℓ} → Option A → (A → Outcome (Unit {0})) → Outcome (Unit {0})
when_given none check = ok tt
when_given (some a) check = check a

abbrev pub is_given {ℓ} : {A : Type ℓ} → Option A → Bool
is_given none = false
is_given (some a) = true

-- The magnitude of a 64-bit signed number.
abbrev pub magnitude : ℕ → ℕ
magnitude a = if negative a then 2 ^ 64 - a else a

-- `a % b == 0` on `int64_t`. The division of the least number by -1 overflows and traps.
unfoldable pub is_multiple : ℕ → ℕ → Outcome Bool
is_multiple a b =
    if (b == 0) || ((a == 2 ^ 63) && (b == from_end 1))
    then fail Fault.divided_by_zero
    else ok (magnitude a % magnitude b == 0)

-- `a % b == 0` on `size_t`.
unfoldable pub is_size_multiple : ℕ → ℕ → Outcome Bool
is_size_multiple a b = if b == 0 then fail Fault.divided_by_zero else ok (a % b == 0)

-- `a / b` on `int64_t`, which rounds towards zero.
unfoldable pub divide : ℕ → ℕ → Outcome ℕ
divide a b =
    if (b == 0) || ((a == 2 ^ 63) && (b == from_end 1))
    then fail Fault.divided_by_zero
    else ok (
        let quotient = magnitude a / magnitude b in
        elim (negative a) [
          | true ↦ if negative b then quotient else minus quotient
          | false ↦ if negative b then minus quotient else quotient
        ])

-- `std::max` on `int64_t`.
unfoldable pub signed_max : ℕ → ℕ → ℕ
signed_max a b = if ltb (add64 a (2 ^ 63)) (add64 b (2 ^ 63)) then b else a

abbrev pub is_float : DataType → Bool
is_float float16 = true
is_float bfloat16 = true
is_float float32 = true
is_float float64 = true
is_float _ = false

-- `dtype == kInt32 || dtype == kInt64`.
abbrev pub is_index_type : DataType → Bool
is_index_type int32 = true
is_index_type int64 = true
is_index_type _ = false
