-- ===== src/Ascend/Fia.antt =====
-- src/native/ascend/ops/fia_common_.h: the host-side metadata of fused attention. Integers are
-- 64-bit patterns.
pub mod Laws
use infini_ops.Prelude.{
  ℕ, ◌*◌, Bool, true, false, not, List, [], ◌∷◌, ◌==◌, ltb, if◌then◌else◌, length, Outcome, ok,
  ◌>>=◌, ◌>>◌, assert, sub64, negative,
}
use infini_ops.Prelude.Equality.{same}
use infini_ops.Device.{DeviceType, device_type_eq}
use infini_ops.DataType.{DataType, data_type_eq}
use infini_ops.Tensor.{Tensor, numel}
use infini_ops.Base.Checks.{has_ndim}

-- Memory and the runtime: the numbers of a type that memory holds from an address on, sign-extended,
-- and whether a copy of so many bytes to the host and the wait for the stream succeed.
pub record Memory : Type 0 where
  pub numbers : DataType → ℕ → ℕ → List ℕ
  pub copies : ℕ → ℕ → Bool
  pub synchronizes : Bool

module _ (memory : Memory) where
  -- Fetch `n` numbers of `bytes` bytes each, from the host's memory or the device's.
  unfoldable pub fetch : Tensor → ℕ → ℕ → Outcome (List ℕ)
  fetch t n bytes =
      if same t.device.type DeviceType.cpu then ok (memory.numbers t.dtype t.data_ n) else do
        assert (memory.copies t.data_ (n * bytes))
        assert memory.synchronizes
        ok (memory.numbers t.dtype t.data_ n)

  -- `ReadIntTensor`.
  unfoldable pub read_int_tensor : Tensor → Outcome (List ℕ)
  unfolding fetch
  read_int_tensor t = do
    has_ndim t 1
    let n = numel t
    if same t.dtype DataType.int32
        then fetch t n 4
        else if same t.dtype DataType.int64
        then fetch t n 8
        else (assert false >> ok [])

  -- `values.data() + 1` and the differences, of a vector with an element at least.
  abbrev pub without_first : List ℕ → List ℕ
  without_first [] = []
  without_first (x ∷ xs) = xs

  abbrev pub differences : List ℕ → List ℕ
  differences (x ∷ y ∷ ys) = sub64 y x ∷ differences (y ∷ ys)
  differences _ = []

  -- `CreateCumSeqLengths`: the array's numbers.
  unfoldable pub create_cum_seq_lengths : Tensor → Outcome (List ℕ)
  create_cum_seq_lengths cu_seqlens = do
    values ← read_int_tensor cu_seqlens
    assert (ltb 1 (length values))
    ok (without_first values)

  -- `CreateDiffSeqLengths`.
  unfoldable pub create_diff_seq_lengths : Tensor → Outcome (List ℕ)
  create_diff_seq_lengths cu_seqlens = do
    values ← read_int_tensor cu_seqlens
    assert (ltb 1 (length values))
    ok (differences values)

-- `sparse_mode`, `pre_tokens` and `next_tokens`.
pub record SparseMode : Type 0 where
  pub sparse_mode : ℕ
  pub pre_tokens : ℕ
  pub next_tokens : ℕ

abbrev pub all_tokens : ℕ
all_tokens = 2147483647

-- `ResolveSparseMode`.
unfoldable pub resolve_sparse_mode : Bool → ℕ → ℕ → SparseMode
resolve_sparse_mode true window_left window_right =
    if not (negative window_left)
    then record { sparse_mode = 4; pre_tokens = window_left; next_tokens = 0 }
    else record { sparse_mode = 3; pre_tokens = all_tokens; next_tokens = 0 }
resolve_sparse_mode false window_left window_right = record {
  sparse_mode = 0;
  pre_tokens = if not (negative window_left) then window_left else all_tokens;
  next_tokens = if not (negative window_right) then window_right else all_tokens;
}
