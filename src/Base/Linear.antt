-- ===== src/Base/Linear.antt =====
-- The constructors of src/base/linear.h. Their fields copy the arguments' metadata and flags, so what
-- is modelled is what they accept.
pub mod Laws
use infini_ops.Prelude.{
  ℕ, Bool, true, false, Option, ◌==◌, leb, if◌then◌else◌, Outcome, ok, ◌>>=◌, ◌>>◌, assert,
}
use infini_ops.Prelude.Equality.{same}
use infini_ops.DataType.{DataType, data_type_eq}
use infini_ops.Tensor.{Tensor, ndim, size}
use infini_ops.Base.Checks.{from_end, has_ndim, has_dtype, has_size, when_given}

-- The checks of a bias.
abbrev pub is_bias : Tensor → Tensor → Outcome (Unit {0})
is_bias out bias = do
  has_dtype bias out.dtype
  has_ndim bias 1
  features ← size bias 0
  has_size out (from_end 1) features

-- The constructor with transpose flags.
unfoldable pub linear_flags :
    (a b : Tensor) (bias : Option Tensor) (trans_a trans_b : Bool) (out : Tensor)
    → Outcome (Unit {0})
linear_flags a b bias trans_a trans_b out = do
  has_dtype b a.dtype
  has_dtype out a.dtype
  a_rows ← (if trans_a then size a (from_end 1) else size a (from_end 2))
  a_cols ← (if trans_a then size a (from_end 2) else size a (from_end 1))
  b_rows ← (if trans_b then size b (from_end 1) else size b (from_end 2))
  b_cols ← (if trans_b then size b (from_end 2) else size b (from_end 1))
  assert (a_cols == b_rows)
  has_size out (from_end 2) a_rows
  has_size out (from_end 1) b_cols
  when_given bias (is_bias out)

-- The constructor that delegates to it, and checks again.
unfoldable pub linear :
    (input weight : Tensor) (bias : Option Tensor) (out : Tensor) → Outcome (Unit {0})
unfolding linear_flags
linear input weight bias out = do
  linear_flags input weight bias false true out
  assert (leb 2 (ndim weight))
  features ← size input (from_end 1)
  has_size weight (from_end 1) features
  out_features ← size out (from_end 1)
  has_size weight (from_end 2) out_features
  rows ← size input (from_end 2)
  has_size out (from_end 2) rows
