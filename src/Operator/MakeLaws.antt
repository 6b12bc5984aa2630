-- ===== src/Operator/MakeLaws.antt =====
-- Which implementation `Operator::Make` constructs.
use infini_ops.Prelude.{
  ◌≡◌, refl, ◌∙◌, Bool, true, false, ◌&&◌, List, if◌then◌else◌, Outcome, fail, Fault,
}
use infini_ops.Prelude.Equality.{nat_eq}
use infini_ops.Common.Traits.{contains}
use infini_ops.Common.Dispatcher.{dispatch_func}
use infini_ops.Common.Dispatcher.Laws.{dispatch_func_calls, filter_list_keeps}
use infini_ops.Device.{DeviceType, device_type_eq, active_devices, all_device_types}
use infini_ops.Tensor.{Tensor}
use infini_ops.Operator.Key.{Arg}
use infini_ops.Operator.Make.{Config, Kernels, Op, active_implementations, instantiate, make}

active_devices-contains :
    (enabled : DeviceType → Bool) (dev : DeviceType)
    → contains (active_devices enabled) dev ≡ (enabled dev && contains all_device_types dev)
unfolding active_devices
active_devices-contains enabled dev = (filter_list_keeps enabled all_device_types).1 dev

if-and {ℓ} :
    {A : Type ℓ} (a b : Bool) (x y : A)
    → (if a then (if b then x else y) else y) ≡ (if a && b then x else y)
if-and true b x y = refl
if-and false b x y = refl

module _ {S O R : Type 0} (kernels : Kernels S O R) where
  -- `Make` instantiates the implementation that the configuration asks for, on the device of the
  -- first tensor, if that device is one of all device types and enabled, and the implementation is one
  -- of the active ones of that device; otherwise it aborts.
  pub make_selects :
      (config : Config) (input : Tensor) (args : List (Arg S))
      → let dev = input.device.type in
        make kernels config input args ≡ (
          if (kernels.enabled dev && contains all_device_types dev)
            && contains (active_implementations kernels dev) config.implementation_index
          then instantiate kernels config input args dev config.implementation_index
          else fail Fault.aborted)
  unfolding make
  make_selects config input args =
      let dev : DeviceType = input.device.type in
      let index = config.implementation_index in
      let build : DeviceType → Outcome (Op O) = λ d.
        dispatch_func (λ _. true) (active_implementations kernels d) index
          (instantiate kernels config input args d) in
      let outer = dispatch_func_calls (λ _. true) (active_devices kernels.enabled) dev build in
      let inner =
        dispatch_func_calls (λ _. true) (active_implementations kernels dev) index
          (instantiate kernels config input args dev) in
      outer
      ∙ rw (active_devices-contains kernels.enabled dev, inner)
          (if-and (kernels.enabled dev && contains all_device_types dev)
            (contains (active_implementations kernels dev) index)
            (instantiate kernels config input args dev index) (fail Fault.aborted))
