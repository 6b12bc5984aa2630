-- ===== src/Ascend/RotaryTables.antt =====
-- `UploadCosSinCache` of src/native/ascend/ops/rotary_embedding/kernel.h: on the host, the halves of
-- each row of the cache become rows of two tables, each half twice. Memory is modelled by elements
-- `V` of `elem_sz_` bytes, and the copies from and to the device are left out. The two tables are
-- apart, so each has a loop of its own here.
pub mod Laws
use infini_ops.Prelude.{ℕ, ◌/◌, add64, mul64}
use infini_ops.Cpu.MatrixLoops.{for_from, write_at}

module _ {V : Type 0} (head_dim : ℕ) (cache_host : ℕ → V) where
  abbrev pub half_head_dim : ℕ
  half_head_dim = head_dim / 2

  abbrev pub low_place : (p j : ℕ) → ℕ
  low_place p j = add64 (mul64 p head_dim) j

  abbrev pub high_place : (p j : ℕ) → ℕ
  high_place p j = add64 (add64 (mul64 p head_dim) half_head_dim) j

  -- `c_src` and `s_src`.
  abbrev pub cos_source : (p j : ℕ) → V
  cos_source p j = cache_host (low_place p j)

  abbrev pub sin_source : (p j : ℕ) → V
  sin_source p j = cache_host (high_place p j)

  -- The loop over `j`, which copies an element to both halves of a row.
  unfoldable pub expand_row : (ℕ → ℕ → V) → ℕ → (ℕ → V) → ℕ → V
  unfolding for_from
  expand_row source p table =
      for_from half_head_dim 0
        (λ j t. write_at (write_at t (low_place p j) (source p j)) (high_place p j) (source p j))
        table

  -- The loop over `p`.
  unfoldable pub expand_rows : (ℕ → ℕ → V) → ℕ → (ℕ → V) → ℕ → V
  unfolding for_from expand_row
  expand_rows source max_seq_len table = for_from max_seq_len 0 (expand_row source) table

  -- The cosine and the sine table, which start with zeros.
  unfoldable pub upload_cos_sin : V → ℕ → (ℕ → V) × (ℕ → V)
  unfolding expand_rows
  upload_cos_sin nothing max_seq_len = (
    expand_rows cos_source max_seq_len (λ x. nothing),
    expand_rows sin_source max_seq_len (λ x. nothing),
  )
