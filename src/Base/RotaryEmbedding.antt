-- ===== src/Base/RotaryEmbedding.antt =====
-- The constructor of src/base/rotary_embedding.h. `int64_t` values are 64-bit patterns.
pub mod Heads
use infini_ops.Prelude.{
  ℕ, ◌==◌, if◌then◌else◌, Bool, true, false, ◌||◌, ◌^◌, not, ltb, Option, none, some, Outcome,
  Fault, ok, fail, ◌>>=◌, ◌>>◌, assert, mul64, add64,
}
use infini_ops.DataType.{data_type_eq, int64}
use infini_ops.Tensor.{Tensor, ndim, size, numel}
use infini_ops.Base.Checks.{has_dtype, divide, is_given, signed_max}

pub record RotaryEmbedding : Type 0 where
  pub num_tokens : ℕ
  pub num_heads : ℕ
  pub num_kv_heads : ℕ
  pub head_size : ℕ
  pub rotary_dim : ℕ
  pub is_neox_style : Bool
  pub has_key : Bool
  pub pre_gathered : Bool

-- The elements of a token over the size of a head.
unfoldable pub heads_of : Tensor → ℕ → Outcome ℕ
heads_of t head_size = do tokens ← size t 0; divide (numel t) (mul64 tokens head_size)

abbrev pub key_heads : Option Tensor → ℕ → Outcome ℕ
key_heads none head_size = ok 0
key_heads (some key) head_size = heads_of key head_size

-- `ndim() == 2 || ndim() == 3`.
abbrev pub is_packed_or_split : Tensor → Outcome (Unit {0})
is_packed_or_split t = assert ((ndim t == 2) || (ndim t == 3))

-- The asserts on the key, which has to be there.
abbrev pub accepts_key : Option Tensor → Outcome (Unit {0})
accepts_key none = fail Fault.aborted
accepts_key (some key) = is_packed_or_split key

-- `a <= b` on `int64_t`.
abbrev pub signed_leb : ℕ → ℕ → Bool
signed_leb a b = not (ltb (add64 b (2 ^ 63)) (add64 a (2 ^ 63)))

-- The outputs are optional and no field depends on them.
unfoldable pub rotary_embedding :
    (positions query : Tensor) (key : Option Tensor) (head_size : ℕ) (cos_sin_cache : Tensor)
    (is_neox_style : Bool) (rotary_dim : ℕ) (query_out key_out : Option Tensor)
    (pre_gathered : Bool)
    → Outcome RotaryEmbedding
rotary_embedding positions query key head_size cos_sin_cache is_neox_style rotary_dim query_out
      key_out pre_gathered =
    do
      num_tokens ← size query 0
      num_heads ← heads_of query head_size
      num_kv_heads ← key_heads key head_size
      has_dtype positions int64
      is_packed_or_split query
      accepts_key key
      assert (signed_leb rotary_dim head_size)
      ok (record {
        num_tokens = num_tokens;
        num_heads = num_heads;
        num_kv_heads = num_kv_heads;
        head_size = head_size;
        rotary_dim = rotary_dim;
        is_neox_style = is_neox_style;
        has_key = is_given key;
        pre_gathered = pre_gathered;
      })
