-- ===== src/Base/FlashAttention.antt =====
-- The constructor of src/base/flash_attention.h. Integers of type `int64_t` are 64-bit patterns;
-- `is_finite` stands for the test of `scale`, a floating-point number that the constructor only
-- stores. The fields that copy an argument's metadata are not repeated.
pub mod Windows
use infini_ops.Prelude.{
  ℕ, ◌||◌, Bool, Option, none, some, ◌==◌, Outcome, ok, ◌>>=◌, ◌>>◌, assert, sub64,
}
use infini_ops.Prelude.Equality.{same}
use infini_ops.DataType.{DataType, data_type_eq}
use infini_ops.Tensor.{Tensor, size}
use infini_ops.Base.Checks.{
  from_end, has_ndim, same_shape, has_dtype, has_size, has_unit_stride, when_given, is_multiple,
}

-- `resolveWindowLeft`.
unfoldable pub resolve_window_left : ℕ → Option ℕ → Outcome ℕ
resolve_window_left window_left none = ok window_left
resolve_window_left window_left (some sliding_window) = do
  let derived = sub64 sliding_window 1
  assert ((window_left == from_end 1) || (window_left == derived))
  ok derived

-- `resolveWindowRight`.
unfoldable pub resolve_window_right : ℕ → Option ℕ → Outcome ℕ
resolve_window_right window_right none = ok window_right
resolve_window_right window_right (some sliding_window) = do
  assert ((window_right == from_end 1) || (window_right == 0))
  ok 0

pub record FlashAttention : Type 0 where
  pub num_tokens : ℕ
  pub num_heads : ℕ
  pub num_kv_heads : ℕ
  pub head_size : ℕ
  pub causal : Bool
  pub window_left : ℕ
  pub window_right : ℕ
  pub block_size : ℕ

abbrev pub is_sequence : Tensor → Outcome (Unit {0})
is_sequence t = has_ndim t 1 >> assert (same t.dtype DataType.int32 || same t.dtype DataType.int64)

-- The part of the constructor that depends on whether the cache is paged.
unfoldable pub check_cache : Tensor → Tensor → Option Tensor → ℕ → ℕ → ℕ → Outcome (Unit {0})
check_cache key value none num_kv_heads head_size block_size = do
  has_ndim key 3
  has_ndim value 3
  same_shape key value
  has_size key 1 num_kv_heads
  has_size key 2 head_size
check_cache key value (some block_table) num_kv_heads head_size block_size = do
  has_ndim key 4
  has_ndim value 4
  same_shape key value
  has_size key 1 block_size
  has_size key 2 num_kv_heads
  has_size key 3 head_size
  has_ndim block_table 2
  has_dtype block_table DataType.int32

-- The checks before those.
unfoldable pub check_heads :
    Tensor → Tensor → Tensor → Tensor → ℕ → ℕ → ℕ → Bool → Outcome (Unit {0})
check_heads query key value output num_heads num_kv_heads head_size is_finite = do
  divides ← is_multiple num_heads num_kv_heads
  assert divides
  has_ndim query 3
  has_size query 1 num_heads
  has_size query 2 head_size
  has_dtype key query.dtype
  has_dtype value query.dtype
  has_dtype output query.dtype
  same_shape output query
  has_unit_stride query
  has_unit_stride key
  has_unit_stride value
  has_unit_stride output
  assert is_finite

-- The constructor.
unfoldable pub flash_attention :
    (query key value : Tensor) (cu_seqlens_q cu_seqlens_kv block_table : Option Tensor)
    (num_heads num_kv_heads head_size : ℕ) (is_finite causal : Bool)
    (window_left window_right block_size : ℕ) (output : Tensor) (sliding_window : Option ℕ)
    → Outcome FlashAttention
unfolding resolve_window_left resolve_window_right check_cache check_heads
flash_attention query key value cu_seqlens_q cu_seqlens_kv block_table num_heads num_kv_heads
      head_size is_finite causal window_left window_right block_size output sliding_window =
    do
      num_tokens ← size query 0
      left ← resolve_window_left window_left sliding_window
      right ← resolve_window_right window_right sliding_window
      check_heads query key value output num_heads num_kv_heads head_size is_finite
      check_cache key value block_table num_kv_heads head_size block_size
      when_given cu_seqlens_q is_sequence
      when_given cu_seqlens_kv is_sequence
      ok (record {
        num_tokens = num_tokens;
        num_heads = num_heads;
        num_kv_heads = num_kv_heads;
        head_size = head_size;
        causal = causal;
        window_left = left;
        window_right = right;
        block_size = block_size;
      })
