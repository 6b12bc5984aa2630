-- ===== src/Ascend/PagedAttentionAtb/Descriptors.antt =====
-- `ToAtbTensor` of a shape against `ToAtbTensor` of a tensor.
use infini_ops.Prelude.{
  ℕ, ◌*◌, ◌%◌, ◌^◌, ◌≡◌, sym, ap, ◌∙◌, arith, List, [], ◌∷◌, some, leb, length, Outcome, ok, ok-inj,
  ◌>>=◌, assert, mul64,
}
use infini_ops.DataType.{data_type_eq}
use infini_ops.Tensor.{Tensor, ndim, numel, element_size, product_from}
use infini_ops.Tensor.Numel.{mul-mod}
use infini_ops.Base.Checks.Laws.{then_ok}
use infini_ops.Ascend.AclDtype.{AclDtype, to_acl_dtype}
use infini_ops.Ascend.PagedAttentionAtb.{
  AtbTensor, PagedAttentionAtb, to_atb_tensor, to_atb_tensor_of,
}

-- A tensor of the same view at another address.
abbrev pub at_address : ℕ → Tensor → Tensor
at_address a t = record t { data_ = a }

mul64-one : (a b : ℕ) → mul64 (mul64 1 a) b ≡ mul64 a b
mul64-one a b = ap (λ (t : ℕ). (t * b) % 2 ^ 64) (omega arith) ∙ mul-mod a b

pub product-two : (a b : ℕ) → product_from 1 (a ∷ b ∷ []) ≡ mul64 a b
unfolding product_from
product-two a b = mul64-one a b

product-three : (a b c : ℕ) → product_from 1 (a ∷ b ∷ c ∷ []) ≡ mul64 (mul64 a b) c
unfolding product_from
product-three a b c = ap (λ n. mul64 n c) (mul64-one a b)

product-four : (a b c d : ℕ) → product_from 1 (a ∷ b ∷ c ∷ d ∷ []) ≡ mul64 (mul64 (mul64 a b) c) d
unfolding product_from
product-four a b c d = ap (λ n. mul64 (mul64 n c) d) (mul64-one a b)

pub product-one : (a e : ℕ) → mul64 (product_from 1 (a ∷ [])) e ≡ mul64 a e
unfolding product_from
product-one a e = mul64-one a e

-- The tensor with a copy of its numbers on the host.
abbrev pub with_host : ℕ → AtbTensor → AtbTensor
with_host host x = record x { host_data = some host }

module _ (max_dim : ℕ) where
  -- A descriptor by shape is the one of a tensor that has this shape, type and size.
  pub to_atb_tensor-to_atb_tensor_of :
      (t : Tensor) (dims : List ℕ) (dtype : AclDtype) (bytes data_size a : ℕ) (x : AtbTensor)
      → t.shape ≡ dims
      → to_acl_dtype t.dtype ≡ ok dtype
      → element_size t ≡ ok bytes
      → mul64 (product_from 1 dims) bytes ≡ data_size
      → to_atb_tensor_of max_dim dims dtype a data_size ≡ ok x
      → to_atb_tensor max_dim (at_address a t) ≡ ok x
  unfolding to_atb_tensor to_atb_tensor_of ndim numel element_size
  to_atb_tensor-to_atb_tensor_of t dims dtype bytes data_size a x shaped typed sized total h =
      let (room, h1) = then_ok (assert (leb (length dims) max_dim)) h in
      rw (typed, shaped, room, sized, total) h1

  pub told_size :
      (dims : List ℕ) (dtype : AclDtype) (a data_size : ℕ) (x : AtbTensor)
      → to_atb_tensor_of max_dim dims dtype a data_size ≡ ok x
      → data_size ≡ x.data_size
  unfolding to_atb_tensor_of
  told_size dims dtype a data_size x h =
      let (room, h1) = then_ok (assert (leb (length dims) max_dim)) h in
      ap (λ (t : AtbTensor). t.data_size) (ok-inj h1)

  abbrev pub told_query : PagedAttentionAtb → (b n d a : ℕ) → Outcome AtbTensor
  told_query p b n d a =
      to_atb_tensor_of max_dim (b ∷ n ∷ d ∷ []) p.acl_dt a (mul64 (mul64 (mul64 b n) d) p.elem_size)

  abbrev pub told_cache : PagedAttentionAtb → (nb bs nkv d a : ℕ) → Outcome AtbTensor
  told_cache p nb bs nkv d a =
      to_atb_tensor_of max_dim (nb ∷ bs ∷ nkv ∷ d ∷ []) p.acl_dt a
        (mul64 (mul64 (mul64 (mul64 nb bs) nkv) d) p.elem_size)

  pub flat_tensor :
      (p : PagedAttentionAtb) (t : Tensor) (b n d a : ℕ) (x : AtbTensor)
      → t.shape ≡ b ∷ n ∷ d ∷ []
      → to_acl_dtype t.dtype ≡ ok p.acl_dt
      → element_size t ≡ ok p.elem_size
      → told_query p b n d a ≡ ok x
      → to_atb_tensor max_dim (at_address a t) ≡ ok x
  flat_tensor p t b n d a x shaped typed sized =
      to_atb_tensor-to_atb_tensor_of t (b ∷ n ∷ d ∷ []) p.acl_dt p.elem_size _ a x shaped typed
        sized (ap (λ e. mul64 e p.elem_size) (product-three b n d))

  pub cache_tensor :
      (p : PagedAttentionAtb) (t : Tensor) (nb bs nkv d a : ℕ) (x : AtbTensor)
      → t.shape ≡ nb ∷ bs ∷ nkv ∷ d ∷ []
      → to_acl_dtype t.dtype ≡ ok p.acl_dt
      → element_size t ≡ ok p.elem_size
      → told_cache p nb bs nkv d a ≡ ok x
      → to_atb_tensor max_dim (at_address a t) ≡ ok x
  cache_tensor p t nb bs nkv d a x shaped typed sized =
      to_atb_tensor-to_atb_tensor_of t (nb ∷ bs ∷ nkv ∷ d ∷ []) p.acl_dt p.elem_size _ a x shaped
        typed sized (ap (λ e. mul64 e p.elem_size) (product-four nb bs nkv d))

  pub hosted_tensor :
      (t : Tensor) (x y : AtbTensor) (host host' : ℕ)
      → to_atb_tensor max_dim t ≡ ok x
      → y ≡ with_host host x
      → host ≡ host'
      → (to_atb_tensor max_dim t >>= λ x. ok (with_host host' x)) ≡ ok y
  hosted_tensor t x y host host' whole hosted same_host =
      rw whole (ap ok (sym (hosted ∙ ap (λ a. with_host a x) same_host)))
