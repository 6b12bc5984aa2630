-- ===== src/Base/Gemm.antt =====
-- The constructors of src/base/gemm.h and src/base/matmul.h. `F` is `float`, and `one` its 1.
use infini_ops.Prelude.{
  ℕ, Bool, false, Option, none, some, ◌==◌, ltb, not, if◌then◌else◌, List, length, Outcome, ok,
  ◌>>=◌, ◌>>◌,
}
use infini_ops.DataType.{DataType, data_type_eq}
use infini_ops.Tensor.{Tensor, size, stride}
use infini_ops.Base.Checks.{from_end, has_dtype, signed_max}

pub record Gemm (F : Type 0) : Type 0 where
  pub alpha : F
  pub beta : F
  pub trans_a : Bool
  pub trans_b : Bool
  pub m : ℕ
  pub n : ℕ
  pub k : ℕ
  pub a_type : DataType
  pub b_type : DataType
  pub c_type : DataType
  pub a_strides : List ℕ
  pub b_strides : List ℕ
  pub c_strides : List ℕ
  pub lda : ℕ
  pub ldb : ℕ
  pub ldc : ℕ
  pub batch_count : ℕ
  pub batch_stride_a : ℕ
  pub batch_stride_b : ℕ
  pub batch_stride_c : ℕ

-- `value_or`.
abbrev pub value_or {ℓ} : {A : Type ℓ} → Option A → A → A
value_or none default = default
value_or (some a) default = a

-- An `int` read as a flag.
abbrev pub is_set : Option ℕ → Bool
is_set none = false
is_set (some n) = not (n == 0)

-- `std::max(t.stride(-2), t.stride(-1))`.
unfoldable pub leading : Tensor → Outcome ℕ
leading t = do d2 ← stride t (from_end 2); d1 ← stride t (from_end 1); ok (signed_max d2 d1)

-- `t.strides().size() > 2 ? t.stride(-3) : 0`.
unfoldable pub batch_stride : Tensor → Outcome ℕ
batch_stride t = if ltb 2 (length t.strides) then stride t (from_end 3) else ok 0

unfoldable pub gemm :
    {F : Type 0} (one : F) (a b : Tensor) (alpha beta : Option F) (trans_a trans_b : Option ℕ)
    (c : Tensor)
    → Outcome (Gemm F)
unfolding leading batch_stride
gemm one a b alpha beta trans_a trans_b c = do
  m ← size c (from_end 2)
  n ← size c (from_end 1)
  k ← (if is_set trans_a then size a (from_end 2) else size a (from_end 1))
  lda ← leading a
  ldb ← leading b
  ldc ← leading c
  batch_count ← (if ltb 2 (length c.strides) then size c (from_end 3) else ok 1)
  batch_stride_a ← batch_stride a
  batch_stride_b ← batch_stride b
  batch_stride_c ← batch_stride c
  ok (record {
    alpha = value_or alpha one;
    beta = value_or beta one;
    trans_a = is_set trans_a;
    trans_b = is_set trans_b;
    m = m;
    n = n;
    k = k;
    a_type = a.dtype;
    b_type = b.dtype;
    c_type = c.dtype;
    a_strides = a.strides;
    b_strides = b.strides;
    c_strides = c.strides;
    lda = lda;
    ldb = ldb;
    ldc = ldc;
    batch_count = batch_count;
    batch_stride_a = batch_stride_a;
    batch_stride_b = batch_stride_b;
    batch_stride_c = batch_stride_c;
  })

-- The constructor without scalars and flags.
unfoldable pub gemm_default : {F : Type 0} (one : F) (a b c : Tensor) → Outcome (Gemm F)
unfolding gemm
gemm_default one a b c = gemm one a b none none none none c

pub record Matmul : Type 0 where
  pub a_shape : List ℕ
  pub b_shape : List ℕ
  pub c_shape : List ℕ
  pub trans_a : Bool
  pub trans_b : Bool

unfoldable pub matmul : (a b c : Tensor) (trans_a trans_b : Bool) → Outcome Matmul
matmul a b c trans_a trans_b = do
  has_dtype b a.dtype
  ok (record {
    a_shape = a.shape;
    b_shape = b.shape;
    c_shape = c.shape;
    trans_a = trans_a;
    trans_b = trans_b;
  })
