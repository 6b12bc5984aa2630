-- ===== src/Operator/Key.antt =====
-- src/hash.h and `CacheKey` of src/operator.h. `std::hash` of the types that are combined is a
-- parameter; so are the scalar arguments, among them `std::optional<Tensor>`, and their hash.
use infini_ops.Prelude.{
  ℕ, ◌+◌, ◌*◌, ◌/◌, ◌%◌, ◌^◌, bit_xor, Bool, true, ◌&&◌, List, [], ◌∷◌, ◌++◌, ◌==◌, length,
}
use infini_ops.Device.{Device, device_code}
use infini_ops.DataType.{data_type_code}
use infini_ops.Tensor.{Tensor, same_tensor}

pub record StdHash (S : Type 0) : Type 0 where
  pub of_size : ℕ → ℕ
  pub of_stride : ℕ → ℕ
  pub of_enum : ℕ → ℕ
  pub of_int : ℕ → ℕ
  pub of_scalar : S → ℕ

-- `HashCombine`, for a value whose hash is `hash`.
unfoldable pub hash_combine : ℕ → ℕ → ℕ
hash_combine seed hash =
    bit_xor seed ((hash + 0x9e37_79b9 + (seed * 2 ^ 6) % 2 ^ 64 + seed / 2 ^ 2) % 2 ^ 64)

-- An argument of `Call`.
pub data Arg (S : Type 0) : Type 0 where
  tensor : Tensor → Arg S
  tensors : List Tensor → Arg S
  scalar : S → Arg S

pub record CacheKey : Type 0 where
  pub hash : ℕ
  pub held : List Tensor
  pub scalar_hash : ℕ

-- `std::equal_to<CacheKey>`: the scalar hashes, the number of tensors, and each pair of tensors.
unfoldable pub all_same : List Tensor → List Tensor → Bool
all_same (a ∷ rest) (b ∷ others) = same_tensor a b && all_same rest others
all_same _ _ = true

unfoldable pub same_key : CacheKey → CacheKey → Bool
unfolding all_same
same_key a b =
    (a.scalar_hash == b.scalar_hash) && (length a.held == length b.held) && all_same a.held b.held

module _ {S : Type 0} (std : StdHash S) where
  unfoldable pub hash_sizes : ℕ → List ℕ → ℕ
  unfolding hash_combine
  hash_sizes seed [] = seed
  hash_sizes seed (size ∷ sizes) = hash_sizes (hash_combine seed (std.of_size size)) sizes

  unfoldable pub hash_strides : ℕ → List ℕ → ℕ
  unfolding hash_combine
  hash_strides seed [] = seed
  hash_strides seed (stride ∷ strides) =
      hash_strides (hash_combine seed (std.of_stride stride)) strides

  -- `std::hash<Device>`.
  unfoldable pub hash_device : Device → ℕ
  unfolding hash_combine
  hash_device device =
      hash_combine (hash_combine 0 (std.of_enum (device_code device.type)))
        (std.of_int device.index)

  -- `std::hash<Tensor>`.
  unfoldable pub hash_tensor : Tensor → ℕ
  unfolding hash_combine hash_sizes hash_strides hash_device
  hash_tensor t =
      let seed = hash_sizes 0 t.shape in
      let seed = hash_combine seed (std.of_enum (data_type_code t.dtype)) in
      let seed = hash_combine seed (hash_device t.device) in hash_strides seed t.strides

  unfoldable pub absorb_tensor : CacheKey → Tensor → CacheKey
  unfolding hash_combine hash_tensor
  absorb_tensor key t = record key {
    hash = hash_combine key.hash (hash_tensor t);
    held = key.held ++ t ∷ [];
  }

  unfoldable pub absorb_each : CacheKey → List Tensor → CacheKey
  unfolding absorb_tensor
  absorb_each key [] = key
  absorb_each key (t ∷ ts) = absorb_each (absorb_tensor key t) ts

  -- The three overloads of `CacheKey::Absorb`.
  unfoldable pub absorb : CacheKey → Arg S → CacheKey
  unfolding hash_combine absorb_tensor absorb_each
  absorb key (tensor t) = absorb_tensor key t
  absorb key (tensors ts) =
      absorb_each (record key { hash = hash_combine key.hash (std.of_size (length ts)) }) ts
  absorb key (scalar v) = record key {
    hash = hash_combine key.hash (std.of_scalar v);
    scalar_hash = hash_combine key.scalar_hash (std.of_scalar v);
  }

  unfoldable pub absorb_all : CacheKey → List (Arg S) → CacheKey
  unfolding absorb
  absorb_all key [] = key
  absorb_all key (arg ∷ args) = absorb_all (absorb key arg) args

  -- `CacheKey::Build(config.implementation_index(), args...)`. The index is a scalar.
  unfoldable pub build_key : ℕ → List (Arg S) → CacheKey
  unfolding hash_combine absorb_all
  build_key implementation_index args =
      let index_hash = std.of_size implementation_index in
      absorb_all
        (record {
          hash = hash_combine 0 index_hash;
          held = [];
          scalar_hash = hash_combine 0 index_hash;
        })
        args
