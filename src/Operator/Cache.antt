-- ===== src/Operator/Cache.antt =====
-- The operator cache of `Operator::Call` in src/operator.h. The cache and its generation belong to
-- one thread; `cache_generation` is shared by all, and `clear_cache` of any of them bumps it.
use infini_ops.Prelude.{
  ℕ, ◌&&◌, List, [], ◌∷◌, Option, none, some, ◌==◌, if◌then◌else◌, Outcome, ok, ◌>>=◌, add64,
}
use infini_ops.Tensor.{Tensor}
use infini_ops.Operator.Key.{StdHash, Arg, tensor, CacheKey, same_key, build_key}
use infini_ops.Operator.Make.{Handle, Config, Kernels, Op, make, with_handle}

pub record CallState (O : Type 0) : Type 0 where
  pub cache : List (CacheKey × Op O)
  pub generation : ℕ
  pub cache_generation : ℕ

module _ {O : Type 0} where
  -- `cache.find(key)` of the hash table: the entry of equal hash whose key is equal.
  unfoldable pub find : List (CacheKey × Op O) → CacheKey → Option (Op O)
  unfolding same_key
  find [] key = none
  find ((k, op) ∷ cache) key =
      if (k.hash == key.hash) && same_key k key then some op else find cache key

  -- The entry of a key is found and changed in place.
  unfoldable pub replace : List (CacheKey × Op O) → CacheKey → Op O → List (CacheKey × Op O)
  unfolding same_key
  replace [] key new = []
  replace ((k, op) ∷ cache) key new =
      if (k.hash == key.hash) && same_key k key
      then (k, new) ∷ cache
      else (k, op) ∷ replace cache key new

  unfoldable pub clear_cache : CallState O → CallState O
  clear_cache s = record s { cache_generation = add64 s.cache_generation 1 }

  -- The check at the start of `Call`.
  unfoldable pub refresh : CallState O → CallState O
  refresh s =
      if s.generation == s.cache_generation
      then s
      else record s { cache = []; generation = s.cache_generation }

module _ {S O R : Type 0} (std : StdHash S) (kernels : Kernels S O R) where
  -- Look the operator up, or make it and put it into the cache.
  unfoldable pub obtain :
      CallState O → CacheKey → Config → Tensor → List (Arg S) → Outcome (Op O × CallState O)
  unfolding find
  obtain s key config input args = elim (find s.cache key) [
    | some op ↦ ok (op, s)
    | none ↦
        make kernels config input args >>= λ op. ok (op, record s { cache = (key, op) ∷ s.cache })
  ]

  -- `Operator::Call(handle, config, tensor, args...)`.
  unfoldable pub call :
      CallState O → Handle → Config → Tensor → List (Arg S) → Outcome (R × CallState O)
  call s handle config input args = do
    let s = refresh s
    let key = build_key std config.implementation_index (tensor input ∷ args)
    (op, s) ← obtain s key config input args
    let op = with_handle kernels op handle
    result ← kernels.run op (tensor input ∷ args)
    ok (result, record s { cache = replace s.cache key op })
