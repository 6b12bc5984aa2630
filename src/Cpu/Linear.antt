-- ===== src/Cpu/Linear.antt =====
-- `Compute` of src/native/cpu/ops/linear/linear.h, on the shapes and strides of the operator's
-- tensors. `T` is the type of the elements and `F` is `float`.
pub mod Product
use infini_ops.Prelude.{
  ℕ, ◌-◌, ltb, if◌then◌else◌, Bool, Option, none, some, length, Outcome, ok, ◌>>=◌, mul64, take,
}
use infini_ops.Tensor.{Tensor}
use infini_ops.Cpu.Gemm.{nth_back}
use infini_ops.Cpu.Cat.{multiply}
use infini_ops.Cpu.MatrixLoops.{Arithmetic, MatrixLayout, multiply_matrices}

-- `ndim > 2 ? strides[ndim - 3] : 0`, where `ndim` is the number of sizes.
abbrev pub outer_stride : Tensor → Outcome ℕ
outer_stride t = if ltb 2 (length t.shape) then nth_back t.strides (length t.shape) 3 else ok 0

-- `strides[ndim - k]` and `shape[ndim - k]`.
abbrev pub inner_stride : Tensor → ℕ → Outcome ℕ
inner_stride t k = nth_back t.strides (length t.shape) k

abbrev pub inner_size : Tensor → ℕ → Outcome ℕ
inner_size t k = nth_back t.shape (length t.shape) k

-- The sizes and strides. The loop over the batch dimensions multiplies all but the last two.
unfoldable pub linear_layout : (a b out : Tensor) (trans_a trans_b : Bool) → Outcome MatrixLayout
linear_layout a b out trans_a trans_b = do
  m ← inner_size out 2
  n ← inner_size out 1
  k ← inner_size a (if trans_a then 2 else 1)
  stride_a_m ← inner_stride a (if trans_a then 1 else 2)
  stride_a_k ← inner_stride a (if trans_a then 2 else 1)
  stride_b_k ← inner_stride b (if trans_b then 1 else 2)
  stride_b_n ← inner_stride b (if trans_b then 2 else 1)
  stride_out_m ← inner_stride out 2
  stride_out_n ← inner_stride out 1
  batch_stride_a ← outer_stride a
  batch_stride_b ← outer_stride b
  batch_stride_out ← outer_stride out
  ok (record {
    m = m;
    n = n;
    k = k;
    batch_count = multiply 1 (take (length out.shape - 2) out.shape);
    stride_a_m = stride_a_m;
    stride_a_k = stride_a_k;
    stride_b_k = stride_b_k;
    stride_b_n = stride_b_n;
    stride_c_m = stride_out_m;
    stride_c_n = stride_out_n;
    batch_stride_a = batch_stride_a;
    batch_stride_b = batch_stride_b;
    batch_stride_c = batch_stride_out;
  })

-- The stride of a bias that is given, and its elements.
unfoldable pub bias_of : {T : Type 0} → Option (Tensor × (ℕ → T)) → Outcome (Option (ℕ × (ℕ → T)))
bias_of none = ok none
bias_of (some (bias, elements)) = do
  bias_stride ← inner_stride bias 1
  ok (some (bias_stride, elements))

module _ {T F : Type 0} (f : Arithmetic T F) where
  -- What the body stores.
  unfoldable pub linear_finish : Option (ℕ × (ℕ → T)) → ℕ → F → T → T
  linear_finish none j sum old = f.of_float sum
  linear_finish (some (bias_stride, bias)) j sum old =
      f.of_float (f.plus sum (f.to_float (bias (mul64 j bias_stride))))

  unfoldable pub run_linear :
      (a b : Tensor) (bias : Option (Tensor × (ℕ → T))) (trans_a trans_b : Bool) (out : Tensor)
      (a_data b_data : ℕ → T)
      → (ℕ → T)
      → Outcome (ℕ → T)
  unfolding linear_finish bias_of
  run_linear a b bias trans_a trans_b out a_data b_data c = do
    layout ← linear_layout a b out trans_a trans_b
    given ← bias_of bias
    ok (multiply_matrices f layout a_data b_data (linear_finish given) c)
