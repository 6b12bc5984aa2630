-- ===== src/Cpu/Gemm.antt =====
-- `Compute` of src/native/cpu/ops/gemm/gemm.h. `T` is the type of the elements and `F` is `float`.
pub mod Laws
pub mod Product
use infini_ops.Prelude.{
  ℕ, ◌-◌, ◌==◌, not, if◌then◌else◌, Bool, Option, none, some, List, length, get_elem?, Outcome, ok,
  ◌>>=◌, access, sub64,
}
use infini_ops.Base.Gemm.{Gemm, value_or}
use infini_ops.Cpu.MatrixLoops.{Arithmetic, MatrixLayout, multiply_matrices}

-- `xs[count - k]`.
abbrev pub nth_back : List ℕ → ℕ → ℕ → Outcome ℕ
nth_back xs count k = access (get_elem? xs (sub64 count k))

-- `strides[strides.size() - k]`.
abbrev pub stride_back : List ℕ → ℕ → Outcome ℕ
stride_back strides k = nth_back strides (length strides) k

-- `trans.value_or(flag)`, as a condition.
abbrev pub trans_or : Option ℕ → Bool → Bool
trans_or none flag = flag
trans_or (some n) flag = not (n == 0)

-- The sizes of the operator, and the strides of the call.
unfoldable pub gemm_layout : {F : Type 0} → Gemm F → Option ℕ → Option ℕ → Outcome MatrixLayout
gemm_layout op trans_a trans_b = do
  stride_a_m ← stride_back op.a_strides (if trans_or trans_a op.trans_a then 1 else 2)
  stride_a_k ← stride_back op.a_strides (if trans_or trans_a op.trans_a then 2 else 1)
  stride_b_k ← stride_back op.b_strides (if trans_or trans_b op.trans_b then 1 else 2)
  stride_b_n ← stride_back op.b_strides (if trans_or trans_b op.trans_b then 2 else 1)
  stride_c_m ← stride_back op.c_strides 2
  stride_c_n ← stride_back op.c_strides 1
  ok (record {
    m = op.m;
    n = op.n;
    k = op.k;
    batch_count = op.batch_count;
    stride_a_m = stride_a_m;
    stride_a_k = stride_a_k;
    stride_b_k = stride_b_k;
    stride_b_n = stride_b_n;
    stride_c_m = stride_c_m;
    stride_c_n = stride_c_n;
    batch_stride_a = op.batch_stride_a;
    batch_stride_b = op.batch_stride_b;
    batch_stride_c = op.batch_stride_c;
  })

module _ {T F : Type 0} (f : Arithmetic T F) where
  -- What the body stores.
  unfoldable pub gemm_finish : F → F → F → T → T
  gemm_finish alpha beta sum old =
      let c_val = if f.is_nothing beta then f.nothing else f.to_float old in
      f.of_float (f.plus (f.times alpha sum) (f.times beta c_val))

  unfoldable pub run_gemm :
      Gemm F
      → (a b : ℕ → T) (alpha beta : Option F) (trans_a trans_b : Option ℕ) → (ℕ → T)
      → Outcome (ℕ → T)
  unfolding gemm_finish
  run_gemm op a b alpha beta trans_a trans_b c = do
    layout ← gemm_layout op trans_a trans_b
    ok (
        multiply_matrices f layout a b
          (λ j. gemm_finish (value_or alpha op.alpha) (value_or beta op.beta)) c)
