-- ===== src/Common/GenericUtils.antt =====
-- src/common/generic_utils.h.
pub mod Offsets
pub mod Places
use infini_ops.Prelude.{
  ℕ, zero, suc, ◌+◌, ◌-◌, ◌/◌, ◌%◌, ◌==◌, if◌then◌else◌, List, get_elem?, Outcome, ok, fail, Fault,
  ◌>>=◌, access, add64, sub64, mul64,
}

-- The loop of `IndexToOffset`; `i` counts down to 0.
unfoldable pub offset_loop : List ℕ → List ℕ → ℕ → ℕ → ℕ → Outcome ℕ
offset_loop shape strides zero flat_index res = ok res
offset_loop shape strides (suc i) flat_index res = do
  s ← access (get_elem? shape i)
  d ← access (get_elem? strides i)
  let rest = offset_loop shape strides i (flat_index / s) (add64 res (mul64 (flat_index % s) d))
  if s == 0 then fail Fault.divided_by_zero else rest

unfoldable pub index_to_offset : ℕ → ℕ → List ℕ → List ℕ → Outcome ℕ
unfolding offset_loop
index_to_offset flat_index ndim shape strides = offset_loop shape strides ndim flat_index 0

-- `CeilDiv` on `std::size_t`.
unfoldable pub ceil_div : ℕ → ℕ → Outcome ℕ
ceil_div x y = if y == 0 then fail Fault.divided_by_zero else ok (sub64 (add64 x y) 1 / y)
