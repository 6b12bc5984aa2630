-- ===== src/Cpu/CausalSoftmax.antt =====
-- `Compute` of src/native/cpu/ops/causal_softmax/causal_softmax.h. The buffers are apart, and hold
-- elements of a type `T` under element offsets, which are 64-bit patterns; `F` is `float`.
pub mod Laws
use infini_ops.Prelude.{
  ℕ, zero, suc, ◌+◌, ◌-◌, ◌==◌, if◌then◌else◌, Bool, true, false, List, length, get_elem?, Outcome,
  ok, ◌>>=◌, access, add64, sub64, mul64,
}
use infini_ops.Base.Softmax.{CausalSoftmax}
use infini_ops.Cpu.MatrixLoops.{for_from, write_at}

-- `Cast` both ways, and the functions on `float`.
pub record SoftmaxArithmetic (T F : Type 0) : Type 0 where
  pub to_float : T → F
  pub of_float : F → T
  pub nothing : F
  pub plus : F → F → F
  pub minus : F → F → F
  pub over : F → F → F
  pub exp : F → F
  pub greater : F → F → Bool

pub record RowStrides : Type 0 where
  pub out_stride_b : ℕ
  pub out_stride_i : ℕ
  pub out_stride_j : ℕ
  pub input_stride_b : ℕ
  pub input_stride_i : ℕ
  pub input_stride_j : ℕ

-- `ndim_ == 3 ? strides[0] : 0`.
abbrev pub stride_of_batch : ℕ → List ℕ → Outcome ℕ
stride_of_batch dims strides = if dims == 3 then access (get_elem? strides 0) else ok 0

unfoldable pub row_strides : CausalSoftmax → Outcome RowStrides
row_strides op = do
  out_stride_b ← stride_of_batch op.dims op.out_strides
  out_stride_i ← access (get_elem? op.out_strides (sub64 op.dims 2))
  out_stride_j ← access (get_elem? op.out_strides (sub64 op.dims 1))
  input_stride_b ← stride_of_batch op.dims op.input_strides
  input_stride_i ← access (get_elem? op.input_strides (sub64 op.dims 2))
  input_stride_j ← access (get_elem? op.input_strides (sub64 op.dims 1))
  ok (record {
    out_stride_b = out_stride_b;
    out_stride_i = out_stride_i;
    out_stride_j = out_stride_j;
    input_stride_b = input_stride_b;
    input_stride_i = input_stride_i;
    input_stride_j = input_stride_j;
  })

module _ {T F : Type 0} (f : SoftmaxArithmetic T F) (op : CausalSoftmax) (s : RowStrides)
    (input : ℕ → T) where
  -- `valid_len`.
  unfoldable pub valid_len : ℕ → ℕ
  valid_len i = add64 (add64 (sub64 op.total_seq_len op.seq_len) i) 1

  abbrev pub out_place : (bi i j : ℕ) → ℕ
  out_place bi i j =
      add64 (add64 (mul64 bi s.out_stride_b) (mul64 i s.out_stride_i)) (mul64 j s.out_stride_j)

  abbrev pub input_place : (bi i j : ℕ) → ℕ
  input_place bi i j =
      add64 (add64 (mul64 bi s.input_stride_b) (mul64 i s.input_stride_i))
        (mul64 j s.input_stride_j)

  abbrev pub input_value : (bi i j : ℕ) → F
  input_value bi i j = f.to_float (input (input_place bi i j))

  -- The loop for the maximum, from `j` on.
  unfoldable pub max_from : (bi i rounds j : ℕ) → F → F
  max_from bi i zero j max_val = max_val
  max_from bi i (suc rounds) j max_val =
      let v = input_value bi i j in
      max_from bi i rounds (j + 1) (if f.greater v max_val then v else max_val)

  unfoldable pub max_of : (bi i : ℕ) → F
  unfolding max_from
  max_of bi i = max_from bi i (valid_len i - 1) 1 (input_value bi i 0)

  abbrev pub exponential : (bi i j : ℕ) → F
  exponential bi i j = f.exp (f.minus (input_value bi i j) (max_of bi i))

  -- The loop that stores the exponentials and adds them up.
  unfoldable pub exponentials_from : (bi i rounds j : ℕ) → (ℕ → T) → F → (ℕ → T) × F
  exponentials_from bi i zero j out sum = (out, sum)
  exponentials_from bi i (suc rounds) j out sum =
      let v = exponential bi i j in
      exponentials_from bi i rounds (j + 1) (write_at out (out_place bi i j) (f.of_float v))
        (f.plus sum v)

  -- The loop over the masked elements of a row.
  unfoldable pub mask_row : (bi i : ℕ) → (ℕ → T) → ℕ → T
  unfolding for_from
  mask_row bi i out =
      for_from (op.total_seq_len - valid_len i) (valid_len i)
        (λ j out. write_at out (out_place bi i j) (f.of_float f.nothing)) out

  -- The loop that divides.
  unfoldable pub divide_row : (bi i : ℕ) → F → (ℕ → T) → ℕ → T
  unfolding for_from
  divide_row bi i sum out =
      for_from (valid_len i) 0
        (λ j out.
          write_at out (out_place bi i j)
            (f.of_float (f.over (f.to_float (out (out_place bi i j))) sum)))
        out

  unfoldable pub softmax_row : (bi i : ℕ) → (ℕ → T) → ℕ → T
  unfolding exponentials_from mask_row divide_row
  softmax_row bi i out =
      let (out, sum) = exponentials_from bi i (valid_len i) 0 (mask_row bi i out) f.nothing in
      divide_row bi i sum out

  unfoldable pub softmax_rows : ℕ → (ℕ → T) → ℕ → T
  unfolding for_from softmax_row
  softmax_rows bi out = for_from op.seq_len 0 (softmax_row bi) out

  unfoldable pub softmax_batches : (ℕ → T) → ℕ → T
  unfolding for_from softmax_rows
  softmax_batches out = for_from op.batch_size 0 softmax_rows out

unfoldable pub run_causal_softmax :
    {T F : Type 0} → SoftmaxArithmetic T F → CausalSoftmax → (ℕ → T) → (ℕ → T) → Outcome (ℕ → T)
run_causal_softmax f op input out = do s ← row_strides op; ok (softmax_batches f op s input out)
