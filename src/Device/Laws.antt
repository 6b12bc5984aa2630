-- ===== src/Device/Laws.antt =====
-- Device names against device types.
use Prim.Native.String.{String}
use infini_ops.Prelude.{◌≡◌, refl, ◌↔◌, ◌⊎◌, inl, inr, arith, ok, fail, Fault}
use infini_ops.Common.ConstexprMap.Laws.{at-inverse, values}
use infini_ops.Common.Dispatcher.Laws.{IsDistinct}
use infini_ops.Common.Traits.{contains}
use infini_ops.Prelude.Equality.{string_eq}
use infini_ops.Device.{
  device_type_eq, DeviceType, cpu, nvidia, cambricon, ascend, metax, moore, iluvatar, kunlun, hygon,
  qy, count, device_to_desc, desc_to_device, type_from_string, string_from_type,
}

types-IsDistinct : IsDistinct (values device_to_desc)
unfolding contains
types-IsDistinct = ground arith

descs-IsDistinct : IsDistinct (values desc_to_device)
unfolding contains
descs-IsDistinct = ground arith

-- The two maps are each other's inverse: a name is read as a type exactly when the type has that
-- name.
pub type_from_string-iff-string_from_type :
    (name : String) (type : DeviceType)
    → (type_from_string name ≡ ok type) ↔ (string_from_type type ≡ ok name)
unfolding type_from_string string_from_type contains
type_from_string-iff-string_from_type name type = (
  at-inverse desc_to_device name type descs-IsDistinct,
  at-inverse device_to_desc type name types-IsDistinct,
)

-- Every type has a name but `kCount`, for which the lookup aborts.
pub string_from_type_total :
    (type : DeviceType)
    → ((name : String) × (string_from_type type ≡ ok name))
      ⊎ ((type ≡ count) × (string_from_type type ≡ fail Fault.aborted))
unfolding string_from_type
string_from_type_total cpu = inl ("cpu", refl)
string_from_type_total nvidia = inl ("nvidia", refl)
string_from_type_total cambricon = inl ("cambricon", refl)
string_from_type_total ascend = inl ("ascend", refl)
string_from_type_total metax = inl ("metax", refl)
string_from_type_total moore = inl ("moore", refl)
string_from_type_total iluvatar = inl ("iluvatar", refl)
string_from_type_total kunlun = inl ("kunlun", refl)
string_from_type_total hygon = inl ("hygon", refl)
string_from_type_total qy = inl ("qy", refl)
string_from_type_total count = inr (refl, refl)
