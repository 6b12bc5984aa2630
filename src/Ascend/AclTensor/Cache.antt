-- ===== src/Ascend/AclTensor/Cache.antt =====
-- Who owns a descriptor: the methods of `AclTensorCache` in src/native/ascend/common.h. The caches of
-- a run stand in a store, by their addresses; an object whose life has ended holds no descriptor.
pub mod Ownership
pub mod Safety
use infini_ops.Prelude.{
  ℕ, zero, suc, ◌==◌, if◌then◌else◌, Bool, true, false, ◌&&◌, not, List, [], ◌∷◌, Outcome, ok, fail,
  ◌>>=◌,
}
use infini_ops.Tensor.{Tensor}
use infini_ops.Ascend.AclTensor.{TensorMeta, meta_of}

-- The runtime's descriptors, with its state `W` as a parameter: `aclCreateTensor`, whose result 0 is
-- the null pointer, `aclSetRawTensorAddr` and `aclDestroyTensor`, which fail on a descriptor that is
-- not there, and whether `aclrtGetDevice` succeeds.
pub record AclTensors (W : Type 0) : Type 0 where
  pub create_tensor : W → TensorMeta → ℕ → ℕ × W
  pub set_raw_tensor_addr : W → ℕ → ℕ → Outcome W
  pub destroy_tensor : W → ℕ → Outcome W
  pub is_runtime_alive : W → Bool

-- `tensor` is the pointer `tensor_`, and 0 the null pointer.
pub record AclTensorCache : Type 0 where
  pub kept : TensorMeta
  pub tensor : ℕ

pub record Objects (W : Type 0) : Type 0 where
  pub caches : ℕ → AclTensorCache
  pub runtime : W

abbrev pub write : (ℕ → AclTensorCache) → ℕ → AclTensorCache → ℕ → AclTensorCache
write caches i c j = if j == i then c else caches j

-- `tensor_ = nullptr`.
abbrev pub without_tensor : AclTensorCache → AclTensorCache
without_tensor c = record c { tensor = 0 }

module _ {W : Type 0} (acl : AclTensors W) where
  -- `BuildAclTensor`.
  unfoldable pub build_acl_tensor : W → Tensor → Bool → Outcome (ℕ × W)
  build_acl_tensor runtime t transpose_last2 = do
    meta ← meta_of t transpose_last2
    ok (acl.create_tensor runtime meta t.data_)

  -- `if (tensor_) aclDestroyTensor(tensor_)`.
  unfoldable pub destroy_held : W → ℕ → Outcome W
  destroy_held runtime tensor =
      if tensor == 0 then ok runtime else acl.destroy_tensor runtime tensor

  -- The constructors, at the address `i` of a new object. `address` is 0 for the constructor from a
  -- tensor, which makes no descriptor.
  unfoldable pub construct : Objects W → ℕ → TensorMeta → ℕ → Outcome (Objects W)
  construct s i meta address =
      if address == 0
      then ok (record s { caches = write s.caches i (record { kept = meta; tensor = 0 }) })
      else (let (tensor, runtime) = acl.create_tensor s.runtime meta address in
          ok (record {
            caches = write s.caches i (record { kept = meta; tensor = tensor });
            runtime = runtime;
          }))

  -- `get`: the state after it, and the descriptor.
  unfoldable pub get : Objects W → ℕ → ℕ → Outcome (Objects W × ℕ)
  get s i address =
      let c = s.caches i in
      if c.tensor == 0
      then (let (tensor, runtime) = acl.create_tensor s.runtime c.kept address in
          ok (
            record { caches = write s.caches i (record c { tensor = tensor }); runtime = runtime },
            tensor,
          ))
      else do
        runtime ← acl.set_raw_tensor_addr s.runtime c.tensor address
        ok (record s { runtime = runtime }, c.tensor)

  unfoldable pub release : Objects W → ℕ → Outcome (Objects W)
  release s i = ok (record s { caches = write s.caches i (without_tensor (s.caches i)) })

  unfoldable pub destroy : Objects W → ℕ → Outcome (Objects W)
  unfolding destroy_held
  destroy s i = do
    runtime ← destroy_held s.runtime ((s.caches i).tensor)
    ok (record { caches = write s.caches i (without_tensor (s.caches i)); runtime = runtime })

  -- The destructor, after which the object is gone.
  unfoldable pub destruct : Objects W → ℕ → Outcome (Objects W)
  unfolding destroy_held
  destruct s i = do
    runtime ←
        (if not ((s.caches i).tensor == 0) && acl.is_runtime_alive s.runtime
          then destroy_held s.runtime ((s.caches i).tensor)
          else ok s.runtime)
    ok (record { caches = write s.caches i (without_tensor (s.caches i)); runtime = runtime })

  -- The move constructor of a new object `i` from the object `o`.
  unfoldable pub move_construct : Objects W → ℕ → ℕ → Outcome (Objects W)
  move_construct s i o =
      let moved = s.caches o in
      ok (record s { caches = write (write s.caches i moved) o (without_tensor moved) })

  -- The move assignment to the object `i` from the object `o`.
  unfoldable pub move_assign : Objects W → ℕ → ℕ → Outcome (Objects W)
  unfolding destroy_held
  move_assign s i o = if i == o then ok s else do
    runtime ← destroy_held s.runtime ((s.caches i).tensor)
    let moved = s.caches o
    ok (record {
      caches = write (write s.caches i moved) o (without_tensor moved);
      runtime = runtime;
    })

-- The calls that a run makes. The addresses of the constructors are those of new objects.
pub data CacheCall : Type 0 where
  construct_at : ℕ → TensorMeta → ℕ → CacheCall
  get_from : ℕ → ℕ → CacheCall
  release_of destroy_of destruct_of : ℕ → CacheCall
  move_construct_at move_assign_to : ℕ → ℕ → CacheCall

module _ {W : Type 0} (acl : AclTensors W) where
  unfoldable pub step : Objects W → CacheCall → Outcome (Objects W)
  step s (construct_at i meta address) = construct acl s i meta address
  step s (get_from i address) = get acl s i address >>= λ r. ok (r.0)
  step s (release_of i) = release acl s i
  step s (destroy_of i) = destroy acl s i
  step s (destruct_of i) = destruct acl s i
  step s (move_construct_at i o) = move_construct acl s i o
  step s (move_assign_to i o) = move_assign acl s i o

  unfoldable pub run : Objects W → List CacheCall → Outcome (Objects W)
  unfolding step
  run s [] = ok s
  run s (c ∷ calls) = step s c >>= λ s'. run s' calls
