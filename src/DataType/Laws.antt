-- ===== src/DataType/Laws.antt =====
-- Element types against their names, sizes and type lists.
use Prim.Native.String.{String}
use infini_ops.Prelude.{ℕ, ◌≡◌, refl, ◌↔◌, arith, ok, true, ◌==◌}
use infini_ops.Prelude.Equality.{string_eq}
use infini_ops.Common.ConstexprMap.Laws.{at-inverse, values}
use infini_ops.Common.Dispatcher.Laws.{IsDistinct}
use infini_ops.Common.Traits.{contains}
use infini_ops.DataType.{
  DataType, int8, int16, int32, int64, uint8, uint16, uint32, uint64, float16, bfloat16, float32,
  float64, data_type_eq, data_type_to_desc, string_to_data_type, desc_of, data_type_of, size_of,
  all_types, bit_types8, bit_types16, bit_types32, bit_types64,
}

descs-IsDistinct : IsDistinct (values data_type_to_desc)
unfolding contains
descs-IsDistinct = ground arith

types-IsDistinct : IsDistinct (values string_to_data_type)
unfolding contains
types-IsDistinct = ground arith

-- The two maps of names are each other's inverse: a name is read as a type exactly when the type
-- has that name.
pub data_type_of-iff-desc_of :
    (name : String) (dtype : DataType) → (data_type_of name ≡ ok dtype) ↔ (desc_of dtype ≡ ok name)
unfolding data_type_of desc_of
data_type_of-iff-desc_of name dtype = (
  at-inverse string_to_data_type name dtype types-IsDistinct,
  at-inverse data_type_to_desc dtype name descs-IsDistinct,
)

-- Every element type has a size, it is in the list of its width and in no other, and `AllTypes` has
-- every type.
pub size_of_bit_types :
    (dtype : DataType)
    → (bytes : ℕ) × (size_of dtype ≡ ok bytes)
      × (contains bit_types8 dtype ≡ (bytes == 1))
      × (contains bit_types16 dtype ≡ (bytes == 2))
      × (contains bit_types32 dtype ≡ (bytes == 4))
      × (contains bit_types64 dtype ≡ (bytes == 8))
      × (contains all_types dtype ≡ true)
unfolding size_of contains all_types
size_of_bit_types int8 = (1, refl, refl, refl, refl, refl, refl)
size_of_bit_types int16 = (2, refl, refl, refl, refl, refl, refl)
size_of_bit_types int32 = (4, refl, refl, refl, refl, refl, refl)
size_of_bit_types int64 = (8, refl, refl, refl, refl, refl, refl)
size_of_bit_types uint8 = (1, refl, refl, refl, refl, refl, refl)
size_of_bit_types uint16 = (2, refl, refl, refl, refl, refl, refl)
size_of_bit_types uint32 = (4, refl, refl, refl, refl, refl, refl)
size_of_bit_types uint64 = (8, refl, refl, refl, refl, refl, refl)
size_of_bit_types float16 = (2, refl, refl, refl, refl, refl, refl)
size_of_bit_types bfloat16 = (2, refl, refl, refl, refl, refl, refl)
size_of_bit_types float32 = (4, refl, refl, refl, refl, refl, refl)
size_of_bit_types float64 = (8, refl, refl, refl, refl, refl, refl)
