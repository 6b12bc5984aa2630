-- ===== src/Cpu/RmsNorm.antt =====
-- `Compute` of src/native/cpu/ops/rms_norm/rms_norm.h. The buffers are apart, and hold elements of a
-- type `T` under element offsets, which are 64-bit patterns; `F` is `float`.
pub mod Laws
use infini_ops.Prelude.{
  ℕ, zero, suc, ◌+◌, ltb, if◌then◌else◌, List, length, get_elem?, Outcome, ok, ◌>>=◌, access, add64,
  mul64,
}
use infini_ops.Base.Normalization.{RmsNorm}
use infini_ops.Cpu.MatrixLoops.{for_from, write_at}

-- `Cast` both ways, the arithmetic of `float`, and `1.f / std::sqrt(ss / dim + eps)`.
pub record NormArithmetic (T F : Type 0) : Type 0 where
  pub to_float : T → F
  pub of_float : F → T
  pub nothing : F
  pub plus : F → F → F
  pub times : F → F → F
  pub inverse_root : F → ℕ → F → F

pub record HeadStrides : Type 0 where
  pub stride_input_batch : ℕ
  pub stride_input_nhead : ℕ
  pub stride_out_batch : ℕ
  pub stride_out_nhead : ℕ

-- The strides of the batch and of the heads.
abbrev pub batch_and_head : List ℕ → Outcome (ℕ × ℕ)
batch_and_head strides =
    if ltb 1 (length strides)
    then (access (get_elem? strides 0) >>= λ a. access (get_elem? strides 1) >>= λ b. ok (a, b))
    else (access (get_elem? strides 0) >>= λ b. ok (0, b))

unfoldable pub head_strides : {F : Type 0} → RmsNorm F → Outcome HeadStrides
head_strides op = do
  i ← batch_and_head op.input_strides
  o ← batch_and_head op.out_strides
  ok (record {
    stride_input_batch = i.0;
    stride_input_nhead = i.1;
    stride_out_batch = o.0;
    stride_out_nhead = o.1;
  })

module _ {T F : Type 0} (f : NormArithmetic T F) (op : RmsNorm F) (s : HeadStrides) (eps : F)
    (input weight : ℕ → T) where
  abbrev pub norm_input_place : (bi hi k : ℕ) → ℕ
  norm_input_place bi hi k =
      add64 (add64 (mul64 bi s.stride_input_batch) (mul64 hi s.stride_input_nhead)) k

  abbrev pub norm_out_place : (bi hi k : ℕ) → ℕ
  norm_out_place bi hi k =
      add64 (add64 (mul64 bi s.stride_out_batch) (mul64 hi s.stride_out_nhead)) k

  abbrev pub element : (bi hi k : ℕ) → F
  element bi hi k = f.to_float (input (norm_input_place bi hi k))

  -- The loop that adds up the squares.
  unfoldable pub squares_from : (bi hi rounds k : ℕ) → F → F
  squares_from bi hi zero k ss = ss
  squares_from bi hi (suc rounds) k ss =
      let v = element bi hi k in squares_from bi hi rounds (k + 1) (f.plus ss (f.times v v))

  -- `rms`.
  unfoldable pub rms_of : (bi hi : ℕ) → F
  unfolding squares_from
  rms_of bi hi = f.inverse_root (squares_from bi hi op.dim 0 f.nothing) op.dim eps

  abbrev pub normalized : (bi hi k : ℕ) → T
  normalized bi hi k =
      f.of_float (f.times (f.times (element bi hi k) (f.to_float (weight k))) (rms_of bi hi))

  -- The loops over the batch, the heads and the elements of a row.
  unfoldable pub normalize_rows : (ℕ → T) → ℕ → T
  unfolding for_from
  normalize_rows = for_from op.batch_size 0 λ bi.
      for_from op.nhead 0
        λ hi. for_from op.dim 0 λ k out. write_at out (norm_out_place bi hi k) (normalized bi hi k)

unfoldable pub run_rms_norm :
    {T F : Type 0}
    → NormArithmetic T F
    → RmsNorm F
    → F
    → (input weight : ℕ → T) → (ℕ → T)
    → Outcome (ℕ → T)
run_rms_norm f op eps input weight out = do
  s ← head_strides op
  ok (normalize_rows f op s eps input weight out)
