-- ===== src/Ascend/Custom/Tiling.antt =====
-- How the hosts and the kernels of the normalisations under src/native/ascend/custom distribute rows
-- over the cores of the device; the same lines stand in both kernels, their two hosts, and the two
-- operators that launch the kernels. Numbers are 64-bit patterns, none of them negative.
pub mod Laws
pub mod Partition
use infini_ops.Prelude.{
  ℕ, ◌+◌, ◌-◌, ◌*◌, ◌/◌, ◌%◌, ◌==◌, ltb, if◌then◌else◌, Outcome, ok, fail, Fault, add64, sub64,
  mul64,
}

abbrev pub min : ℕ → ℕ → ℕ
min a b = if ltb b a then b else a

-- The arguments of a launch that the rows are distributed by.
pub record Tiling : Type 0 where
  pub used_cores : ℕ
  pub former_length : ℕ
  pub tail_length : ℕ
  pub former_num : ℕ

-- `Block-level tiling` of the hosts, for as many cores as there are.
unfoldable pub tile_rows : (total_rows core_num : ℕ) → Outcome Tiling
tile_rows total_rows core_num =
    let used_cores = min total_rows core_num in
    let former_length = sub64 (add64 total_rows used_cores) 1 / used_cores in
    let tail_length = sub64 former_length 1 in
    if used_cores == 0
    then fail Fault.divided_by_zero
    else ok (record {
      used_cores = used_cores;
      former_length = former_length;
      tail_length = tail_length;
      former_num = sub64 total_rows (mul64 tail_length used_cores);
    })

-- `block_rows_` and `row_offset`, which a kernel's `Init` computes from the number of its core.
unfoldable pub block_rows : Tiling → ℕ → ℕ
block_rows t block_idx = if ltb block_idx t.former_num then t.former_length else t.tail_length

unfoldable pub row_offset : Tiling → ℕ → ℕ
row_offset t block_idx =
    if ltb block_idx t.former_num
    then mul64 t.former_length block_idx
    else add64 (mul64 t.former_length t.former_num)
        (mul64 t.tail_length (sub64 block_idx t.former_num))

-- The elements that fill a row up to 32 bytes; `align_elements` is not 0.
unfoldable pub align_row : (dim_length dtype_size : ℕ) → Outcome ℕ
align_row dim_length dtype_size =
    if dtype_size == 0
    then fail Fault.divided_by_zero
    else (let align_elements = 32 / dtype_size in
        if align_elements == 0
        then fail Fault.divided_by_zero
        else ok (mul64 (sub64 (add64 dim_length align_elements) 1 / align_elements) align_elements))
