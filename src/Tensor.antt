-- ===== src/Tensor.antt =====
-- src/tensor.h and src/tensor.cc: a view of memory by shape and strides. `Size` is a number below
-- 2 ^ 64 and `Stride` and `Index` are 64-bit patterns, so that mixed arithmetic is that of words.
-- `data` is an address.
pub mod Laws
pub mod Numel
pub mod Strides
pub mod Contiguous
pub mod RowMajor
pub mod Broadcast
use infini_ops.Prelude.{
  ℕ, zero, suc, ◌+◌, ◌-◌, ◌^◌, ◌≡◌, Bool, true, false, ◌&&◌, not, List, [], ◌∷◌, map, ◌==◌,
  if◌then◌else◌, length, get_elem?, set, Outcome, ok, fail, ◌>>=◌, access, add64, mul64, negative,
}
use infini_ops.Prelude.Equality.{list_same, nat_eq}
use infini_ops.Device.{Device, default_device, device_same}
use infini_ops.DataType.{DataType, float32, data_type_code, size_of}

pub record Tensor : Type 0 where
  pub data_ : ℕ
  pub shape : List ℕ
  pub dtype : DataType
  pub device : Device
  pub strides : List ℕ

-- `GetEffectiveIndex`.
unfoldable pub get_effective_index : ℕ → ℕ → ℕ
get_effective_index index size = if negative index then add64 index size else index

unfoldable pub ndim : Tensor → ℕ
ndim t = length t.shape

unfoldable pub size : Tensor → ℕ → Outcome ℕ
unfolding get_effective_index
size t index = access (get_elem? t.shape (get_effective_index index (length t.shape)))

unfoldable pub stride : Tensor → ℕ → Outcome ℕ
unfolding get_effective_index
stride t index = access (get_elem? t.strides (get_effective_index index (length t.strides)))

unfoldable pub element_size : Tensor → Outcome ℕ
unfolding size_of
element_size t = size_of t.dtype

-- The accumulation of `Tensor::numel`.
unfoldable pub product_from : ℕ → List ℕ → ℕ
product_from acc [] = acc
product_from acc (s ∷ shape) = product_from (mul64 acc s) shape

unfoldable pub numel : Tensor → ℕ
unfolding product_from
numel t = product_from 1 t.shape

-- The loop of `DefaultStrides`; `i` counts down from `shape.size() - 2` to 0.
unfoldable pub fill_strides : List ℕ → ℕ → List ℕ → Outcome (List ℕ)
fill_strides shape zero strides = ok strides
fill_strides shape (suc i) strides = do
  inner ← access (get_elem? strides (suc i))
  size ← access (get_elem? shape (suc i))
  fill_strides shape i (set strides i (mul64 inner size))

unfoldable pub default_strides : List ℕ → Outcome (List ℕ)
unfolding fill_strides
default_strides [] = ok []
default_strides (s ∷ shape) =
    let n = length shape in fill_strides (s ∷ shape) n (set (map (λ _. 0) (s ∷ shape)) n 1)

-- The constructors: with strides, and without, by the dtype and device given or the defaults.
abbrev pub strided : ℕ → List ℕ → DataType → Device → List ℕ → Tensor
strided data_ shape dtype device strides = record {
  data_ = data_;
  shape = shape;
  dtype = dtype;
  device = device;
  strides = strides;
}

unfoldable pub make_tensor : ℕ → List ℕ → DataType → Device → Outcome Tensor
unfolding default_strides
make_tensor data_ shape dtype device = do
  strides ← default_strides shape
  ok (strided data_ shape dtype device strides)

pub make_default_tensor : ℕ → List ℕ → Outcome Tensor
unfolding make_tensor
make_default_tensor data_ shape = make_tensor data_ shape float32 default_device

-- `begin() + 1` to `end()`, for vectors that are not empty.
abbrev pub tail : List ℕ → List ℕ
tail [] = []
tail (x ∷ xs) = xs

-- `Tensor::operator[]`.
unfoldable pub subscript : Tensor → ℕ → Outcome Tensor
unfolding get_effective_index size_of
subscript t index = do
  first ← access (get_elem? t.shape 0)
  step ← access (get_elem? t.strides 0)
  bytes ← size_of t.dtype
  ok (
      strided (add64 t.data_ (mul64 (mul64 (get_effective_index index first) step) bytes))
        (tail t.shape) t.dtype t.device (tail t.strides))

-- `Tensor::T`.
unfoldable pub transpose : Tensor → Outcome Tensor
transpose t = do
  s1 ← access (get_elem? t.shape 1)
  s0 ← access (get_elem? t.shape 0)
  d1 ← access (get_elem? t.strides 1)
  d0 ← access (get_elem? t.strides 0)
  ok (strided t.data_ (s1 ∷ s0 ∷ []) t.dtype t.device (d1 ∷ d0 ∷ []))

-- `std::any_of` in `HasBroadcastDim`: one round for each size. The captured `i` moves on only where
-- the right side of `&&` is evaluated.
unfoldable pub any_broadcast : Tensor → ℕ → ℕ → Outcome Bool
any_broadcast t zero i = ok false
any_broadcast t (suc rounds) i = do
  s ← access (get_elem? t.shape i)
  let stays = any_broadcast t rounds i
  let moves = any_broadcast t rounds (i + 1)
  if s == 1
      then stays
      else (access (get_elem? t.strides i) >>= λ d. if d == 0 then ok true else moves)

unfoldable pub has_broadcast_dim : Tensor → Outcome Bool
unfolding any_broadcast
has_broadcast_dim t = any_broadcast t (length t.shape) 0

-- The loop of `IsMergeable` from dimension `i`, with `rounds` dimensions to go.
unfoldable pub merges : Tensor → ℕ → ℕ → Outcome Bool
merges t zero i = ok true
merges t (suc rounds) i = do
  s ← size t i
  d ← stride t i
  let rest = merges t rounds (i + 1)
  if s == 1 && d == 0 then ok false else do
    s' ← size t (i + 1)
    d' ← stride t (i + 1)
    if d == mul64 s' d' then rest else ok false

unfoldable pub is_mergeable : Tensor → ℕ → ℕ → Outcome Bool
unfolding merges
is_mergeable t dim_start dim_end =
    if dim_start == dim_end then ok true else merges t (dim_end - dim_start) dim_start

unfoldable pub is_contiguous : Tensor → Outcome Bool
unfolding ndim is_mergeable
is_contiguous t = if ndim t == 0 then ok true else do
  merged ← is_mergeable t 0 (ndim t - 1)
  if not merged then ok false else do d ← stride t (ndim t - 1); ok (d == 1)

-- `std::equal_to<Tensor>`: everything but the data.
unfoldable pub same_tensor : Tensor → Tensor → Bool
same_tensor a b =
    (data_type_code a.dtype == data_type_code b.dtype)
    && device_same a.device b.device
    && list_same a.shape b.shape
    && list_same a.strides b.strides
