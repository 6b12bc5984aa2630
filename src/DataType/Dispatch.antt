-- ===== src/DataType/Dispatch.antt =====
-- The element-type dispatchers of src/dispatcher.h, from line 189 on: they map the values that the
-- general dispatch finds to the C++ types of the device, which `type_map` gives.
use infini_ops.Prelude.{
  ℕ, zero, suc, ◌≡◌, refl, ap, ◌∙◌, Bool, List, [], ◌∷◌, map, if◌then◌else◌, length, length-map,
  Outcome, Fault, fail,
}
use infini_ops.Common.Dispatcher.{dispatch_func, dispatch_multi}
use infini_ops.Common.Dispatcher.Laws.{dispatch_multi_calls, all_allowed}
use infini_ops.Device.{DeviceType}
use infini_ops.DataType.{
  DataType, data_type_code, data_type_eq, int8, int16, int32, int64, uint8, uint16, uint32, uint64,
  float16, bfloat16, float32, float64,
}

-- `static_cast<DataType>` of an enumerator's value; no other value is cast.
unfoldable pub data_type_at : ℕ → DataType
data_type_at zero = int8
data_type_at (suc zero) = int16
data_type_at (suc (suc zero)) = int32
data_type_at (suc (suc (suc zero))) = int64
data_type_at (suc (suc (suc (suc zero)))) = uint8
data_type_at (suc (suc (suc (suc (suc zero))))) = uint16
data_type_at (suc (suc (suc (suc (suc (suc zero)))))) = uint32
data_type_at (suc (suc (suc (suc (suc (suc (suc zero))))))) = uint64
data_type_at (suc (suc (suc (suc (suc (suc (suc (suc zero)))))))) = float16
data_type_at (suc (suc (suc (suc (suc (suc (suc (suc (suc zero))))))))) = bfloat16
data_type_at (suc (suc (suc (suc (suc (suc (suc (suc (suc (suc zero)))))))))) = float32
data_type_at _ = float64

module _ {C R : Type 0} (type_map : DeviceType → DataType → C) (dev : DeviceType) where
  -- `DataTypeAdapter` and `DataTypeMultiAdapter`.
  abbrev pub data_type_adapter : (C → Outcome R) → DataType → Outcome R
  data_type_adapter func dtype = func (type_map dev dtype)

  abbrev pub data_type_multi_adapter : (List C → Outcome R) → List DataType → Outcome R
  data_type_multi_adapter func dtypes = func (map (type_map dev) dtypes)

  -- `DispatchFunc<kDev, allowed_dtypes...>(dtype, func)`.
  unfoldable pub dispatch_data_type :
      (DataType → Bool) → List DataType → DataType → (C → Outcome R) → Outcome R
  dispatch_data_type invocable allowed dtype func =
      dispatch_func invocable allowed dtype (data_type_adapter func)

  -- `DispatchFunc<kDev, Lists...>({dtypes...}, func)`.
  unfoldable pub dispatch_data_types :
      List (List DataType) → List DataType → (List C → Outcome R) → Outcome R
  dispatch_data_types lists dtypes func =
      dispatch_multi data_type_at lists (map data_type_code dtypes) 0 (data_type_multi_adapter func)
        []

data_type_at-code : (d : DataType) → data_type_at (data_type_code d) ≡ d
unfolding data_type_at
data_type_at-code int8 = refl
data_type_at-code int16 = refl
data_type_at-code int32 = refl
data_type_at-code int64 = refl
data_type_at-code uint8 = refl
data_type_at-code uint16 = refl
data_type_at-code uint32 = refl
data_type_at-code uint64 = refl
data_type_at-code float16 = refl
data_type_at-code bfloat16 = refl
data_type_at-code float32 = refl
data_type_at-code float64 = refl

codes_back : (dtypes : List DataType) → map data_type_at (map data_type_code dtypes) ≡ dtypes
codes_back [] = refl
codes_back (d ∷ ds) = λ i. data_type_at-code d i ∷ codes_back ds i

-- With as many element types as lists, a dispatch over element types is one call of the functor at
-- the C++ types of the device for them, in their order, if each is in its list, and an abort
-- otherwise.
pub dispatch_data_types_calls :
    {C R : Type 0} (type_map : DeviceType → DataType → C) (dev : DeviceType)
    (lists : List (List DataType)) (dtypes : List DataType) (func : List C → Outcome R)
    → length dtypes ≡ length lists
    → dispatch_data_types type_map dev lists dtypes func
      ≡ (if all_allowed lists dtypes then func (map (type_map dev) dtypes) else fail Fault.aborted)
unfolding dispatch_data_types
dispatch_data_types_calls type_map dev lists dtypes func same =
    dispatch_multi_calls data_type_at lists (map data_type_code dtypes)
      (λ found. func (map (type_map dev) found)) (length-map data_type_code dtypes ∙ same)
    ∙ ap
        (λ (found : List DataType).
          if all_allowed lists found then func (map (type_map dev) found) else fail Fault.aborted)
        (codes_back dtypes)
