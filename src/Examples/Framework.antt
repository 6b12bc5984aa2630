-- ===== src/Examples/Framework.antt =====
-- Dispatch and the operator cache at concrete inputs.
use infini_ops.Prelude.{
  ℕ, ◌+◌, ◌≡◌, refl, true, ◌&&◌, [], ◌∷◌, ◌==◌, if◌then◌else◌, ok, fail, Fault,
}
use infini_ops.Prelude.Equality.{nat_eq, string_eq}
use infini_ops.Common.Traits.{contains}
use infini_ops.Common.Dispatcher.{dispatch_func}
use infini_ops.Common.Dispatcher.Laws.{dispatch_func_calls}
use infini_ops.Device.{
  active_devices, all_device_types, cpu, ascend, device_code, device_type_eq, default_device,
}
use infini_ops.DataType.{data_type_code, float16, float32, int32, int64}
use infini_ops.DataType.Dispatch.{dispatch_data_types, dispatch_data_types_calls}
use infini_ops.Tensor.{Tensor, strided, same_tensor}
use infini_ops.Operator.Key.{StdHash, tensor, scalar, build_key}
use infini_ops.Operator.KeyLaws.{hit, build_key-hit}
use infini_ops.Operator.Make.{
  Handle, Kernels, Op, make, with_handle, default_config, instantiate, active_implementations,
}
use infini_ops.Operator.MakeLaws.{make_selects}
use infini_ops.Operator.Cache.{CallState, call, obtain, refresh, find, replace}
use infini_ops.Operator.CacheLaws.{call-Ran, Ran}

dispatch_func_calls_example :
    dispatch_func (λ d. true) (cpu ∷ ascend ∷ []) ascend (λ d. ok (device_code d)) ≡ ok 3
unfolding contains
dispatch_func_calls_example =
    dispatch_func_calls (λ d. true) (cpu ∷ ascend ∷ []) ascend (λ d. ok (device_code d))

-- Element types as the C++ types of a device, here their codes.
dispatch_data_types_calls_example :
    dispatch_data_types
      (λ dev d. data_type_code d)
      ascend
      ((float16 ∷ float32 ∷ []) ∷ (int32 ∷ int64 ∷ []) ∷ [])
      (float32 ∷ int64 ∷ [])
      (λ cs. ok cs)
    ≡ ok (10 ∷ 3 ∷ [])
unfolding contains
dispatch_data_types_calls_example =
    dispatch_data_types_calls (λ dev d. data_type_code d) ascend
      ((float16 ∷ float32 ∷ []) ∷ (int32 ∷ int64 ∷ []) ∷ []) (float32 ∷ int64 ∷ []) (λ cs. ok cs)
      refl

-- Hashes that keep the value.
abbrev plain_hash : StdHash ℕ
plain_hash = record {
  of_size = λ n. n;
  of_stride = λ n. n;
  of_enum = λ n. n;
  of_int = λ n. n;
  of_scalar = λ n. n;
}

-- One implementation, for the CPU.
abbrev one_kernel : Kernels ℕ ℕ ℕ
one_kernel = record {
  enabled = λ dev. device_code dev == 0;
  is_base_of = λ dev n. n == 0;
  is_constructible = λ dev n. true;
  construct = λ dev n input args. ok 7;
  run = λ op args. ok (op.object + op.stream);
}

abbrev row_at : ℕ → Tensor
row_at data_ = strided data_ (3 ∷ []) float32 default_device (1 ∷ [])

build_key-hit_example :
    hit
      (build_key plain_hash 0 (tensor (row_at 64) ∷ scalar 5 ∷ []))
      (build_key plain_hash 0 (tensor (row_at 128) ∷ scalar 5 ∷ []))
    ≡ true
build_key-hit_example =
    build_key-hit plain_hash 0 (tensor (row_at 64) ∷ scalar 5 ∷ [])
      (tensor (row_at 128) ∷ scalar 5 ∷ []) (unfold same_tensor in (refl, (refl, tt)))

abbrev lent : Handle
lent = record { stream = 9; workspace = 0; workspace_size_in_bytes = 0 }

abbrev fresh : CallState ℕ
fresh = record { cache = []; generation = 0; cache_generation = 0 }

abbrev made : Op ℕ
made = record {
  object = 7;
  device = cpu;
  implementation = 0;
  handle = lent;
  config = default_config;
  stream = 9;
  workspace = 0;
  workspace_size_in_bytes = 0;
}

abbrev filled : CallState ℕ
filled = record fresh { cache = (build_key plain_hash 0 (tensor (row_at 64) ∷ []), made) ∷ [] }

call_runs : call plain_hash one_kernel fresh lent default_config (row_at 64) [] ≡ ok (16, filled)
unfolding call obtain refresh find replace make with_handle build_key contains same_tensor
    active_devices active_implementations dispatch_func instantiate
call_runs = refl

call-Ran_example : Ran plain_hash one_kernel filled lent default_config (row_at 64) [] 16
call-Ran_example =
    call-Ran plain_hash one_kernel fresh filled lent default_config (row_at 64) [] 16 tt call_runs

make_selects_example : make one_kernel default_config (row_at 64) [] ≡ (
    if (one_kernel.enabled cpu && contains all_device_types cpu)
      && contains (active_implementations one_kernel cpu) 0
    then instantiate one_kernel default_config (row_at 64) [] cpu 0
    else fail Fault.aborted)
make_selects_example = make_selects one_kernel default_config (row_at 64) []
