-- ===== src/Ascend/AclTensor.antt =====
-- What src/native/ascend/common.h computes for a descriptor `aclTensor`, in `BuildAclTensor` and in
-- the constructors of `AclTensorCache`. Shapes and strides are lists of 64-bit patterns, and signed.
pub mod Storage
pub mod Transpose
pub mod Cache
use infini_ops.Prelude.{
  ℕ, zero, suc, ◌==◌, ltb, leb, if◌then◌else◌, Bool, true, false, ◌&&◌, not, List, [], ◌∷◌, length,
  Outcome, Fault, ok, fail, ◌>>=◌, add64, sub64, mul64, positive, negative,
}
use infini_ops.Tensor.{Tensor}
use infini_ops.Ascend.AclDtype.{AclDtype, to_acl_dtype}

-- The metadata that `aclCreateTensor` is given, and that `AclTensorCache` keeps.
pub record TensorMeta : Type 0 where
  pub shape : List ℕ
  pub strides : List ℕ
  pub storage_shape : List ℕ
  pub dtype : AclDtype

-- `std::swap` of the last two entries.
unfoldable pub swap_last : List ℕ → List ℕ
swap_last [] = []
swap_last (a ∷ []) = a ∷ []
swap_last (a ∷ b ∷ []) = b ∷ a ∷ []
swap_last (a ∷ b ∷ c ∷ xs) = a ∷ swap_last (b ∷ c ∷ xs)

-- The test and the swap of the shape and of the strides.
unfoldable pub transposed : Bool → List ℕ → List ℕ → List ℕ × List ℕ
unfolding swap_last
transposed transpose_last2 shape strides =
    if transpose_last2 && leb 2 (length shape)
    then (swap_last shape, swap_last strides)
    else (shape, strides)

-- A dimension's part of the storage.
unfoldable pub grow_storage : ℕ → ℕ → ℕ → ℕ
grow_storage acc s d =
    if positive d && (not (negative s) && ltb 1 s) then add64 acc (mul64 (sub64 s 1) d) else acc

-- The loop over the dimensions.
unfoldable pub storage_from : ℕ → List ℕ → List ℕ → Outcome ℕ
unfolding grow_storage
storage_from acc [] strides = ok acc
storage_from acc (s ∷ shape) [] = if s == 0 then ok 0 else fail Fault.out_of_range
storage_from acc (s ∷ shape) (d ∷ strides) =
    let rest = storage_from (grow_storage acc s d) shape strides in if s == 0 then ok 0 else rest

-- `storage_elems`.
unfoldable pub storage_elems : List ℕ → List ℕ → Outcome ℕ
unfolding storage_from
storage_elems shape strides = storage_from 1 shape strides

-- What `BuildAclTensor` passes on, and what the constructor from a tensor keeps.
unfoldable pub meta_of : Tensor → Bool → Outcome TensorMeta
unfolding transposed
meta_of t transpose_last2 = do
  let view = transposed transpose_last2 t.shape t.strides
  storage ← storage_elems (view.0) (view.1)
  dtype ← to_acl_dtype t.dtype
  ok (record { shape = view.0; strides = view.1; storage_shape = storage ∷ []; dtype = dtype })

-- The loop of the constructor from explicit metadata, which runs from the last dimension to the
-- first: the strides, and the last value of `stride`.
unfoldable pub contiguous : List ℕ → List ℕ × ℕ
contiguous [] = ([], 1)
contiguous (s ∷ shape) =
    let (strides, stride) = contiguous shape in (stride ∷ strides, mul64 stride s)

-- What that constructor keeps.
unfoldable pub meta_of_shape : List ℕ → AclDtype → TensorMeta
meta_of_shape shape dtype =
    let (strides, stride) = contiguous shape in
    record { shape = shape; strides = strides; storage_shape = stride ∷ []; dtype = dtype }
