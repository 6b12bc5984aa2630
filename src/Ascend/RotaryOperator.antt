-- ===== src/Ascend/RotaryOperator.antt =====
-- The operator of src/native/ascend/ops/rotary_embedding/kernel.h: the tables that it keeps on the device,
-- and what it gives to the library. `contents` is what the caches at addresses hold, by elements `V`.
-- The executors, the workspace and the caches of descriptors are left out.
pub mod Laws
use infini_ops.Prelude.{
  ℕ, Bool, true, false, List, [], ◌∷◌, ◌++◌, Option, none, some, ◌==◌, if◌then◌else◌, Outcome, ok,
  ◌>>=◌, ◌>>◌, assert, access, add64, mul64,
}
use infini_ops.Tensor.{Tensor, size, element_size}
use infini_ops.Base.Gemm.{value_or}
use infini_ops.Base.RotaryEmbedding.{RotaryEmbedding}
use infini_ops.Ascend.AclDtype.{AclDtype, to_acl_dtype}
use infini_ops.Ascend.RotaryTables.{upload_cos_sin}

-- The tables on the device, and `cos_sin_cache_data_`, the address of the cache that they are from.
pub record Upload (V : Type 0) : Type 0 where
  pub cos_sin_cache_data : ℕ
  pub cos_table : ℕ → V
  pub sin_table : ℕ → V

-- The fields of the operator: without `uploaded` it has no tables.
pub record RotaryOperator (V : Type 0) : Type 0 where
  pub base : RotaryEmbedding
  pub max_seq_len : ℕ
  pub elem_sz : ℕ
  pub acl_dt : AclDtype
  pub uploaded : Option (Upload V)

-- What the cosines or sines of a call are: the rows of a table by the numbers at the address of the
-- positions, which `aclnnIndexSelect` gathers, or the rows at an address.
pub data RotaryOperand (V : Type 0) : Type 0 where
  gathered : (ℕ → V) → ℕ → RotaryOperand V
  given : ℕ → RotaryOperand V

-- A copy on the device.
pub record DeviceCopy : Type 0 where
  pub to : ℕ
  pub from : ℕ
  pub bytes : ℕ

-- The copies before the call of `aclnnApplyRotaryPosEmbV2`, and its arguments.
pub record RotaryCall (V : Type 0) : Type 0 where
  pub copies : List DeviceCopy
  pub query : ℕ
  pub key : ℕ
  pub cos : RotaryOperand V
  pub sin : RotaryOperand V

-- The copy to an output that is not the input itself.
abbrev pub copy_to : (from to : Tensor) → ℕ → List DeviceCopy
copy_to from to bytes =
    if from.data_ == to.data_
    then []
    else (record { to = to.data_; from = from.data_; bytes = bytes } ∷ [])

module _ {V : Type 0} (contents : ℕ → ℕ → V) (nothing : V) where
  -- `UploadCosSinCache`, and the address that is noted after it.
  unfoldable pub upload : (head_size max_seq_len : ℕ) → Tensor → Upload V
  upload head_size max_seq_len cos_sin_cache =
      let tables = upload_cos_sin head_size (contents cos_sin_cache.data_) nothing max_seq_len in
      record {
        cos_sin_cache_data = cos_sin_cache.data_;
        cos_table = tables.0;
        sin_table = tables.1;
      }

  -- The constructor, after that of the base class.
  unfoldable pub rotary_operator :
      RotaryEmbedding → (query cos_sin_cache : Tensor) → Outcome (RotaryOperator V)
  unfolding upload
  rotary_operator base query cos_sin_cache = do
    max_seq_len ← size cos_sin_cache 0
    elem_sz ← element_size cos_sin_cache
    assert (base.rotary_dim == base.head_size)
    assert base.is_neox_style
    assert base.has_key
    acl_dt ← to_acl_dtype query.dtype
    ok (record {
      base = base;
      max_seq_len = max_seq_len;
      elem_sz = elem_sz;
      acl_dt = acl_dt;
      uploaded =
          if base.pre_gathered
          then none
          else some (upload base.head_size max_seq_len cos_sin_cache);
    })

  -- The tables are made again for another address.
  unfoldable pub refresh_tables : RotaryOperator V → Upload V → Tensor → Upload V
  unfolding upload
  refresh_tables op kept cos_sin_cache =
      if cos_sin_cache.data_ == kept.cos_sin_cache_data
      then kept
      else upload op.base.head_size op.max_seq_len cos_sin_cache

  -- `cos_sin_for_v2` and `sin_for_v2`. An upload without tables writes through a null pointer.
  unfoldable pub operands :
      RotaryOperator V
      → (num_tokens head_size : ℕ) (positions cos_sin_cache : Tensor) (pre_gathered : Bool)
      → Outcome (RotaryOperator V × RotaryOperand V × RotaryOperand V)
  unfolding refresh_tables
  operands op num_tokens head_size positions cos_sin_cache true = ok (
    op,
    given cos_sin_cache.data_,
    given (add64 cos_sin_cache.data_ (mul64 (mul64 num_tokens head_size) op.elem_sz)),
  )
  operands op num_tokens head_size positions cos_sin_cache false = do
    kept ← access op.uploaded
    let now = refresh_tables op kept cos_sin_cache
    ok (
      record op { uploaded = some now },
      gathered now.cos_table positions.data_,
      gathered now.sin_table positions.data_,
    )

  -- `operator()`; reading a missing key is the fault of a read out of range.
  unfoldable pub rotary_call :
      RotaryOperator V
      → (positions query : Tensor) (key : Option Tensor) (head_size : ℕ) (cos_sin_cache : Tensor)
        (query_out key_out : Option Tensor) (pre_gathered : Bool)
      → Outcome (RotaryOperator V × RotaryCall V)
  unfolding operands
  rotary_call op positions query key head_size cos_sin_cache query_out key_out pre_gathered = do
    key_in ← access key
    let q_out = value_or query_out query
    let k_out = value_or key_out key_in
    num_tokens ← size query 0
    found ← operands op num_tokens head_size positions cos_sin_cache pre_gathered
    elem_sz ← element_size query
    let q_bytes = mul64 (mul64 (mul64 num_tokens op.base.num_heads) head_size) elem_sz
    let k_bytes = mul64 (mul64 (mul64 num_tokens op.base.num_kv_heads) head_size) elem_sz
    ok (
      found.0,
      record {
        copies = copy_to query q_out q_bytes ++ copy_to key_in k_out k_bytes;
        query = q_out.data_;
        key = k_out.data_;
        cos = found.1;
        sin = found.2;
      },
    )
