-- ===== src/Cpu/Cat.antt =====
-- `operator()` of src/native/cpu/ops/cat/cat.h. What it does to memory is its calls of `memcpy`, which
-- the model lists in their order. The sizes that the loops read are read before them.
pub mod Tiles
use infini_ops.Prelude.{
  ℕ, zero, suc, ◌+◌, ◌-◌, List, [], ◌∷◌, ◌++◌, map, length, get_elem?, Outcome, ok, ◌>>=◌, access,
  add64, mul64, take, drop,
}
use infini_ops.Tensor.{Tensor, element_size}
use infini_ops.Base.Cat.{Cat}

-- A call of `memcpy`: the input that is read, and the offsets and the size in bytes.
pub record Copy : Type 0 where
  pub input : ℕ
  pub dst_offset : ℕ
  pub src_offset : ℕ
  pub copy_size : ℕ

-- The loops that multiply the sizes before and after the concatenated dimension.
unfoldable pub multiply : ℕ → List ℕ → ℕ
multiply acc [] = acc
multiply acc (s ∷ shape) = multiply (mul64 acc s) shape

module _ (out_dim_size inner elem_size : ℕ) where
  -- The loop over the inputs, of which `in_dims` are the sizes of the concatenated dimension, from
  -- input `t` on.
  unfoldable pub copy_slices : (o offset_in_dim t : ℕ) (in_dims : List ℕ) → List Copy
  copy_slices o offset_in_dim t [] = []
  copy_slices o offset_in_dim t (in_dim ∷ in_dims) =
      record {
        input = t;
        dst_offset = mul64 (mul64 (add64 (mul64 o out_dim_size) offset_in_dim) inner) elem_size;
        src_offset = mul64 (mul64 (mul64 o in_dim) inner) elem_size;
        copy_size = mul64 (mul64 in_dim inner) elem_size;
      }
      ∷ copy_slices o (add64 offset_in_dim in_dim) (suc t) in_dims

  -- The loop over the outer indices, from `o` on, with `rounds` to go.
  unfoldable pub copy_rows : (rounds o : ℕ) (in_dims : List ℕ) → List Copy
  unfolding copy_slices
  copy_rows zero o in_dims = []
  copy_rows (suc rounds) o in_dims = copy_slices o 0 0 in_dims ++ copy_rows rounds (suc o) in_dims

-- The sizes of the inputs in one dimension.
unfoldable pub dims_of : ℕ → List Tensor → Outcome (List ℕ)
dims_of dim [] = ok []
dims_of dim (t ∷ ts) = do s ← access (get_elem? t.shape dim); rest ← dims_of dim ts; ok (s ∷ rest)

-- `operator()`.
unfoldable pub run_cat : Cat → Tensor → List Tensor → Tensor → Outcome (List Copy)
unfolding multiply copy_rows dims_of
run_cat op first_input rest_inputs out = do
  elem_size ← element_size out
  let outer = multiply 1 (take op.dim out.shape)
  let inner = multiply 1 (drop (suc op.dim) out.shape)
  out_dim_size ← access (get_elem? out.shape op.dim)
  in_dims ← dims_of op.dim (first_input ∷ rest_inputs)
  ok (copy_rows out_dim_size inner elem_size outer 0 in_dims)
