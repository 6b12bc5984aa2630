-- ===== src/Operator/Make.antt =====
-- `ActiveImplementations` and `Operator::Make` of src/operator.h, with src/config.h and src/handle.h.
-- What the specialisations of `Operator<Key, kDev, N>` are is a parameter.
use infini_ops.Prelude.{
  ℕ, zero, suc, ◌-◌, Bool, true, List, [], ◌∷◌, map, if◌then◌else◌, Outcome, ok, fail, Fault, ◌>>=◌,
}
use infini_ops.Prelude.Equality.{nat_eq}
use infini_ops.Common.Traits.{flatten}
use infini_ops.Common.Dispatcher.{dispatch_func}
use infini_ops.Device.{DeviceType, device_type_eq, active_devices}
use infini_ops.Tensor.{Tensor}
use infini_ops.Operator.Key.{Arg}

-- `Handle`: what a caller lends to an operator. Addresses are numbers; 0 is the null pointer.
pub record Handle : Type 0 where
  pub stream : ℕ
  pub workspace : ℕ
  pub workspace_size_in_bytes : ℕ

pub record Config : Type 0 where
  pub implementation_index : ℕ

abbrev pub default_handle : Handle
default_handle = record { stream = 0; workspace = 0; workspace_size_in_bytes = 0 }

abbrev pub default_config : Config
default_config = record { implementation_index = 0 }

-- An operator object with the fields of `OperatorBase`.
pub record Op (O : Type 0) : Type 0 where
  pub object : O
  pub device : DeviceType
  pub implementation : ℕ
  pub handle : Handle
  pub config : Config
  pub stream : ℕ
  pub workspace : ℕ
  pub workspace_size_in_bytes : ℕ

-- The program's specialisations, for one operator class: which devices are enabled, which slots
-- derive from the class, which of these have a constructor for the arguments, and their code. `O` is
-- a constructed object, and `R` what a run leaves.
pub record Kernels (S O R : Type 0) : Type 0 where
  pub enabled : DeviceType → Bool
  pub is_base_of : DeviceType → ℕ → Bool
  pub is_constructible : DeviceType → ℕ → Bool
  pub construct : DeviceType → ℕ → Tensor → List (Arg S) → Outcome O
  pub run : Op O → List (Arg S) → Outcome R

abbrev pub max_implementations : ℕ
max_implementations = 16

-- `std::make_index_sequence<n>`, from `from` on.
abbrev pub indices_from : ℕ → ℕ → List ℕ
indices_from from zero = []
indices_from from (suc n) = from ∷ indices_from (suc from) n

module _ {S O R : Type 0} (kernels : Kernels S O R) where
  -- `ActiveImplementationsImpl<Key, kDev, N>::type`.
  unfoldable pub active_slot : DeviceType → ℕ → List ℕ
  active_slot dev n = if kernels.is_base_of dev n then n ∷ [] else []

  -- `ActiveImplementations<Key, kDev>::type`.
  unfoldable pub active_implementations : DeviceType → List ℕ
  unfolding active_slot flatten
  active_implementations dev =
      flatten (active_slot dev 0) (map (active_slot dev) (indices_from 1 (max_implementations - 1)))

  -- `Operator::active_implementation_indices`.
  unfoldable pub active_implementation_indices : DeviceType → Outcome (List ℕ)
  unfolding active_devices active_implementations dispatch_func
  active_implementation_indices dev_type =
      dispatch_func (λ _. true) (active_devices kernels.enabled) dev_type
        (λ dev. ok (active_implementations dev))

  -- The body that is instantiated for a device and an implementation.
  unfoldable pub instantiate : Config → Tensor → List (Arg S) → DeviceType → ℕ → Outcome (Op O)
  instantiate config input args dev index =
      if kernels.is_constructible dev index
      then (kernels.construct dev index input args >>= λ object. ok (record {
        object = object;
        device = dev;
        implementation = index;
        handle = default_handle;
        config = config;
        stream = 0;
        workspace = 0;
        workspace_size_in_bytes = 0;
      }))
      else fail Fault.aborted

  -- `Operator::Make(config, tensor, args...)`.
  unfoldable pub make : Config → Tensor → List (Arg S) → Outcome (Op O)
  make config input args =
      dispatch_func (λ _. true) (active_devices kernels.enabled) input.device.type
        (λ dev.
          dispatch_func (λ _. true) (active_implementations dev) config.implementation_index
            (instantiate config input args dev))

  -- `op(handle, args...)`: the handle is copied into the operator before it runs.
  unfoldable pub with_handle : Op O → Handle → Op O
  with_handle op handle = record op {
    handle = handle;
    stream = handle.stream;
    workspace = handle.workspace;
    workspace_size_in_bytes = handle.workspace_size_in_bytes;
  }
