-- ===== src/Cuda/Gemm.antt =====
-- `BlasGemm` of src/native/cuda/ops/gemm/blas.h, up to the call of the vendor's library: the arguments of
-- `BlasGemmStridedBatchedEx`. `F` is `float`; the handle, the stream and the compute type are left out.
pub mod Laws
pub mod Product
use infini_ops.Prelude.{
  ℕ, ◌==◌, not, if◌then◌else◌, Bool, true, false, Option, none, some, Outcome, ok, ◌>>=◌,
}
use infini_ops.DataType.{DataType}
use infini_ops.Tensor.{Tensor, stride}
use infini_ops.Base.Checks.{from_end}
use infini_ops.Base.Gemm.{Gemm, gemm, value_or}

pub record BlasGemm (F : Type 0) : Type 0 where
  pub gemm : Gemm F
  pub a_is_col_major : Bool
  pub b_is_col_major : Bool
  pub swap_a_and_b : Bool

-- `t.stride(-1) == 1`.
abbrev pub unit_last : Tensor → Outcome Bool
unit_last t = stride t (from_end 1) >>= λ d. ok (d == 1)

unfoldable pub blas_gemm :
    {F : Type 0} (one : F) (a b : Tensor) (alpha beta : Option F) (trans_a trans_b : Option ℕ)
    (c : Tensor)
    → Outcome (BlasGemm F)
blas_gemm one a b alpha beta trans_a trans_b c = do
  base ← gemm one a b alpha beta trans_a trans_b c
  a_is_col_major ← unit_last a
  b_is_col_major ← unit_last b
  swap_a_and_b ← unit_last c
  ok (record {
    gemm = base;
    a_is_col_major = a_is_col_major;
    b_is_col_major = b_is_col_major;
    swap_a_and_b = swap_a_and_b;
  })

-- A `bool` as an `int`.
abbrev pub as_int : Bool → ℕ
as_int true = 1
as_int false = 0

-- `GetOpA` and `GetOpB`; `true` is `BLAS_OP_T`.
unfoldable pub get_op_a : {F : Type 0} → BlasGemm F → (trans_a trans_b : ℕ) → Bool
get_op_a op trans_a trans_b =
    if op.swap_a_and_b
    then as_int op.b_is_col_major == trans_b
    else not (as_int op.a_is_col_major == trans_a)

unfoldable pub get_op_b : {F : Type 0} → BlasGemm F → (trans_a trans_b : ℕ) → Bool
get_op_b op trans_a trans_b =
    if op.swap_a_and_b
    then as_int op.a_is_col_major == trans_a
    else not (as_int op.b_is_col_major == trans_b)

-- A matrix of the call.
pub record Operand : Type 0 where
  pub data_ : ℕ
  pub dtype : DataType
  pub ld : ℕ
  pub batch_stride : ℕ

pub record BlasCall (F : Type 0) : Type 0 where
  pub op_a : Bool
  pub op_b : Bool
  pub m : ℕ
  pub n : ℕ
  pub k : ℕ
  pub alpha : F
  pub a : Operand
  pub b : Operand
  pub beta : F
  pub c : Operand
  pub batch_count : ℕ

-- `operator()`.
unfoldable pub blas_call :
    {F : Type 0}
    → BlasGemm F
    → (a b : Tensor) (alpha beta : Option F) (trans_a trans_b : Option ℕ) (c : Tensor) → BlasCall F
unfolding get_op_a get_op_b
blas_call op a b alpha beta trans_a trans_b c =
    let g = op.gemm in
    let trans_a_value = value_or trans_a (as_int g.trans_a) in
    let trans_b_value = value_or trans_b (as_int g.trans_b) in
    let operand_a : Operand = record {
      data_ = a.data_;
      dtype = a.dtype;
      ld = g.lda;
      batch_stride = g.batch_stride_a;
    } in
    let operand_b : Operand = record {
      data_ = b.data_;
      dtype = b.dtype;
      ld = g.ldb;
      batch_stride = g.batch_stride_b;
    } in
    record {
      op_a = get_op_a op trans_a_value trans_b_value;
      op_b = get_op_b op trans_a_value trans_b_value;
      m = if op.swap_a_and_b then g.n else g.m;
      n = if op.swap_a_and_b then g.m else g.n;
      k = g.k;
      alpha = value_or alpha g.alpha;
      a = if op.swap_a_and_b then operand_b else operand_a;
      b = if op.swap_a_and_b then operand_a else operand_b;
      beta = value_or beta g.beta;
      c = record { data_ = c.data_; dtype = c.dtype; ld = g.ldc; batch_stride = g.batch_stride_c };
      batch_count = g.batch_count;
    }
