-- ===== src/Examples/Attention.antt =====
-- The constructors of the attention operators, and the metadata of their lengths, at concrete inputs.
use infini_ops.Prelude.{
  ℕ, ◌+◌, ◌/◌, ◌%◌, ◌<◌, ◌≤◌, ◌≡◌, refl, true, List, [], ◌∷◌, none, arith, ok, ok-inj, subst, sym,
  ◌∙◌,
}
use infini_ops.DataType.{DataType, float16, int32}
use infini_ops.Device.{default_device}
use infini_ops.Tensor.{
  Tensor, strided, numel, size, stride, ndim, get_effective_index, product_from,
}
use infini_ops.Base.Checks.{is_multiple, is_size_multiple}
use infini_ops.Base.PagedAttention.{PagedAttention, paged_attention, check_caches}
use infini_ops.Base.MhaVarlenFwd.{
  MhaVarlenFwd, mha_varlen_fwd, varlen_fields, check_paged, check_varlen,
}
use infini_ops.Base.MhaVarlenFwd.Accepted.{mha_varlen_fwd-accepts}
use infini_ops.Ascend.Fia.{Memory, read_int_tensor, create_cum_seq_lengths, fetch}
use infini_ops.Ascend.Fia.Laws.{AllWords}

abbrev tensor_of : List ℕ → List ℕ → DataType → Tensor
tensor_of shape strides dtype = strided 4096 shape dtype default_device strides

abbrev pub query : Tensor
query = tensor_of (1 ∷ 4 ∷ 8 ∷ []) (32 ∷ 8 ∷ 1 ∷ []) float16

abbrev pub keys : Tensor
keys = tensor_of (5 ∷ 16 ∷ 2 ∷ 8 ∷ []) (256 ∷ 16 ∷ 8 ∷ 1 ∷ []) float16

abbrev pub lens : Tensor
lens = tensor_of (1 ∷ []) (1 ∷ []) int32

abbrev pub table : Tensor
table = tensor_of (1 ∷ 5 ∷ []) (5 ∷ 1 ∷ []) int32

abbrev pub paged : PagedAttention
paged = record { batch_size = 1; num_heads = 4; num_kv_heads = 2; head_size = 8; block_size = 16 }

pub paged_runs : paged_attention query keys keys lens table 4 2 8 16 query none none ≡ ok paged
unfolding paged_attention check_caches size stride ndim get_effective_index is_multiple
paged_runs = refl

abbrev packed_keys : Tensor
packed_keys = tensor_of (7 ∷ 2 ∷ 8 ∷ []) (16 ∷ 8 ∷ 1 ∷ []) float16

abbrev bounds : Tensor
bounds = tensor_of (2 ∷ []) (1 ∷ []) int32

abbrev varlen : MhaVarlenFwd
varlen = record { batch_size = 1; total_q = 1; num_heads = 4; head_size = 8; num_kv_heads = 2 }

varlen_runs :
    mha_varlen_fwd query packed_keys packed_keys query bounds bounds none none none none 1 7 true
      true
    ≡ ok varlen
unfolding mha_varlen_fwd varlen_fields check_paged check_varlen size stride ndim numel product_from
    get_effective_index is_size_multiple
varlen_runs = refl

mha_varlen_fwd-accepts_example :
    (query.shape ≡ 1 ∷ 4 ∷ 8 ∷ [])
    × (query.shape ≡ query.shape)
    × ((tokens : ℕ) × (packed_keys.shape ≡ tokens ∷ 2 ∷ 8 ∷ []))
    × (packed_keys.shape ≡ packed_keys.shape)
    × ((head : ℕ) → head < 4 → head / (4 / 2) < 2)
    × (8 ≤ 256)
    × (8 % 8 ≡ 0)
    × (numel bounds ≡ numel bounds)
    × (0 < 1)
    × (1 + 1 ≡ numel bounds)
mha_varlen_fwd-accepts_example =
    mha_varlen_fwd-accepts query packed_keys packed_keys query bounds bounds none none none none 1 7
      true true varlen varlen_runs

abbrev input : Tensor
input = tensor_of (2 ∷ 3 ∷ []) (3 ∷ 1 ∷ []) float16

abbrev weight : Tensor
weight = tensor_of (4 ∷ 3 ∷ []) (3 ∷ 1 ∷ []) float16

abbrev output : Tensor
output = tensor_of (2 ∷ 4 ∷ []) (4 ∷ 1 ∷ []) float16

-- Memory with the numbers 0, 2 and 5 everywhere.
abbrev three_bounds : Memory
three_bounds = record {
  numbers = λ dtype address n. 0 ∷ 2 ∷ 5 ∷ [];
  copies = λ address bytes. true;
  synchronizes = true;
}

abbrev sequences : Tensor
sequences = tensor_of (3 ∷ []) (1 ∷ []) int32

sequences_read : read_int_tensor three_bounds sequences ≡ ok (0 ∷ 2 ∷ 5 ∷ [])
unfolding read_int_tensor fetch ndim
sequences_read = refl

sequences_words :
    (values : List ℕ) → read_int_tensor three_bounds sequences ≡ ok values → AllWords values
sequences_words values h =
    subst AllWords (ok-inj (sym sequences_read ∙ h)) (omega arith, (omega arith, (omega arith, tt)))

cum_runs : create_cum_seq_lengths three_bounds sequences ≡ ok (2 ∷ 5 ∷ [])
unfolding create_cum_seq_lengths
cum_runs = rw sequences_read refl
