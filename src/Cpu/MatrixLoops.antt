-- ===== src/Cpu/MatrixLoops.antt =====
-- The loops that src/native/cpu/ops/gemm/gemm.h and src/native/cpu/ops/linear/linear.h share: a
-- product of matrices for each index of a batch. The buffers are apart, and hold elements of a type
-- `T` under element offsets, which are 64-bit patterns; sums are of a type `F`, which is `float`.
pub mod Laws
pub mod RowMajor
pub mod Nest
use infini_ops.Prelude.{ℕ, zero, suc, ◌+◌, ◌==◌, if◌then◌else◌, Bool, add64, mul64}

-- `Cast` both ways, and the arithmetic of `float`.
pub record Arithmetic (T F : Type 0) : Type 0 where
  pub to_float : T → F
  pub of_float : F → T
  pub nothing : F
  pub plus : F → F → F
  pub times : F → F → F
  pub is_nothing : F → Bool

-- The sizes and strides that the loops use.
pub record MatrixLayout : Type 0 where
  pub m : ℕ
  pub n : ℕ
  pub k : ℕ
  pub batch_count : ℕ
  pub stride_a_m : ℕ
  pub stride_a_k : ℕ
  pub stride_b_k : ℕ
  pub stride_b_n : ℕ
  pub stride_c_m : ℕ
  pub stride_c_n : ℕ
  pub batch_stride_a : ℕ
  pub batch_stride_b : ℕ
  pub batch_stride_c : ℕ

-- The offset of an element.
abbrev pub offset : (batch batch_stride i stride_i j stride_j : ℕ) → ℕ
offset batch batch_stride i stride_i j stride_j =
    add64 (mul64 batch batch_stride) (add64 (mul64 i stride_i) (mul64 j stride_j))

abbrev pub write_at : {T : Type 0} → (ℕ → T) → ℕ → T → ℕ → T
write_at c at v x = if x == at then v else c x

-- `for (i = ...; i < ...; ++i)` over the output, from `i` on, with `rounds` to go.
unfoldable pub for_from : {T : Type 0} (rounds i : ℕ) (body : ℕ → (ℕ → T) → ℕ → T) → (ℕ → T) → ℕ → T
for_from zero i body c = c
for_from (suc rounds) i body c = for_from rounds (i + 1) body (body i c)

module _ {T F : Type 0} (f : Arithmetic T F) (s : MatrixLayout) (a b : ℕ → T) where
  abbrev pub offset_a : (batch i l : ℕ) → ℕ
  offset_a batch i l = offset batch s.batch_stride_a i s.stride_a_m l s.stride_a_k

  abbrev pub offset_b : (batch l j : ℕ) → ℕ
  offset_b batch l j = offset batch s.batch_stride_b l s.stride_b_k j s.stride_b_n

  abbrev pub offset_c : (batch i j : ℕ) → ℕ
  offset_c batch i j = offset batch s.batch_stride_c i s.stride_c_m j s.stride_c_n

  -- The loop over `l`, with `rounds` to go.
  unfoldable pub sum_from : (batch i j rounds l : ℕ) → F → F
  sum_from batch i j zero l sum = sum
  sum_from batch i j (suc rounds) l sum = sum_from batch i j rounds (l + 1) (
      f.plus sum
        (f.times (f.to_float (a (offset_a batch i l))) (f.to_float (b (offset_b batch l j)))))

  unfoldable pub sum_of : (batch i j : ℕ) → F
  unfolding sum_from
  sum_of batch i j = sum_from batch i j s.k 0 f.nothing

  -- What the body stores, from the column, the sum, and the element that was there.
  module _ (finish : ℕ → F → T → T) where
    abbrev pub store_entry : (batch i j : ℕ) → (ℕ → T) → ℕ → T
    store_entry batch i j c =
        write_at c (offset_c batch i j) (finish j (sum_of batch i j) (c (offset_c batch i j)))

    -- The loop over `j`.
    unfoldable pub columns : (batch i : ℕ) → (ℕ → T) → ℕ → T
    unfolding for_from
    columns batch i c = for_from s.n 0 (store_entry batch i) c

    -- The loop over `i`.
    unfoldable pub rows : ℕ → (ℕ → T) → ℕ → T
    unfolding for_from columns
    rows batch c = for_from s.m 0 (columns batch) c

    -- The loop over the batch.
    unfoldable pub multiply_matrices : (ℕ → T) → ℕ → T
    unfolding for_from rows
    multiply_matrices c = for_from s.batch_count 0 rows c
