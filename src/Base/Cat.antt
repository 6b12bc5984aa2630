-- ===== src/Base/Cat.antt =====
-- The constructor of src/base/cat.h. `dim` is the 64-bit pattern of a signed number.
use infini_ops.Prelude.{
  ℕ, suc, ◌+◌, not, ◌&&◌, List, [], ◌∷◌, ◌==◌, ltb, leb, if◌then◌else◌, length, get_elem?, set,
  Outcome, ok, ◌>>=◌, ◌>>◌, assert, access, add64, negative,
}
use infini_ops.Prelude.Equality.{list_same, nat_eq}
use infini_ops.Device.{device_same}
use infini_ops.Tensor.{Tensor, ndim, size}
use infini_ops.Base.Checks.{has_ndim, has_dtype, has_size}

pub record Cat : Type 0 where
  pub dim : ℕ
  pub input_count : ℕ

-- The loop over the dimensions, from dimension `i` on: all but the concatenated one match.
unfoldable pub others_match : Tensor → ℕ → ℕ → List ℕ → Outcome (Unit {0})
others_match input dim i [] = ok tt
others_match input dim i (s ∷ rest) = do
  (if i == dim then ok tt else has_size input i s)
  others_match input dim (suc i) rest

-- The loop over the other inputs, which grows the expected shape.
unfoldable pub expect : Tensor → ℕ → List ℕ → List Tensor → Outcome (List ℕ)
unfolding others_match
expect out dim expected [] = ok expected
expect out dim expected (input ∷ inputs) = do
  has_ndim input (ndim out)
  has_dtype input out.dtype
  assert (device_same input.device out.device)
  others_match input dim 0 expected
  old ← access (get_elem? expected dim)
  more ← size input dim
  expect out dim (set expected dim (add64 old more)) inputs

-- The normalised dimension.
unfoldable pub normalize_dim : ℕ → ℕ → ℕ
normalize_dim dim dims = if negative dim then add64 dim dims else dim

-- The constructor.
unfoldable pub cat : Tensor → List Tensor → ℕ → Tensor → Outcome Cat
unfolding expect normalize_dim
cat first_input rest_inputs dim out = do
  let input_count = 1 + length rest_inputs
  assert (leb 2 input_count)
  let dim = normalize_dim dim (ndim out)
  assert (not (negative dim) && ltb dim (ndim out))
  has_ndim first_input (ndim out)
  has_dtype first_input out.dtype
  assert (device_same first_input.device out.device)
  expected_shape ← expect out dim first_input.shape rest_inputs
  assert (list_same out.shape expected_shape)
  ok (record { dim = dim; input_count = input_count })
