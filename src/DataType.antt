-- ===== src/DataType.antt =====
-- src/data_type.h: element types, their sizes and names, and the type lists that dispatch uses.
pub mod Laws
pub mod Float16
pub mod BFloat16
pub mod Dispatch
use Prim.Native.String.{String}
use infini_ops.Prelude.{ℕ, ◌≡◌, List, [], ◌∷◌, arith, Outcome}
use infini_ops.Prelude.Equality.{Eq, by_code, string_eq}
use infini_ops.Common.ConstexprMap.{at}
use infini_ops.Common.Traits.{concat}

pub data DataType : Type 0 where
  int8 int16 int32 int64 uint8 uint16 uint32 uint64 float16 bfloat16 float32 float64 : DataType

-- The values that the enumeration assigns.
abbrev pub data_type_code : DataType → ℕ
data_type_code int8 = 0
data_type_code int16 = 1
data_type_code int32 = 2
data_type_code int64 = 3
data_type_code uint8 = 4
data_type_code uint16 = 5
data_type_code uint32 = 6
data_type_code uint64 = 7
data_type_code float16 = 8
data_type_code bfloat16 = 9
data_type_code float32 = 10
data_type_code float64 = 11

pub data_type_code-injective : (a b : DataType) → data_type_code a ≡ data_type_code b → a ≡ b
data_type_code-injective a b h = ground arith

instance abbrev pub data_type_eq : Eq DataType
data_type_eq = by_code data_type_code data_type_code-injective

-- `kDataTypeToSize`.
abbrev pub data_type_to_size : List (DataType × ℕ)
data_type_to_size =
    (int8, 1)
    ∷ (int16, 2)
    ∷ (int32, 4)
    ∷ (int64, 8)
    ∷ (uint8, 1)
    ∷ (uint16, 2)
    ∷ (uint32, 4)
    ∷ (uint64, 8)
    ∷ (float16, 2)
    ∷ (bfloat16, 2)
    ∷ (float32, 4)
    ∷ (float64, 8)
    ∷ []

-- `kDataTypeToDesc`.
abbrev pub data_type_to_desc : List (DataType × String)
data_type_to_desc =
    (int8, "int8")
    ∷ (int16, "int16")
    ∷ (int32, "int32")
    ∷ (int64, "int64")
    ∷ (uint8, "uint8")
    ∷ (uint16, "uint16")
    ∷ (uint32, "uint32")
    ∷ (uint64, "uint64")
    ∷ (float16, "float16")
    ∷ (bfloat16, "bfloat16")
    ∷ (float32, "float32")
    ∷ (float64, "float64")
    ∷ []

-- `kStringToDataType`.
abbrev pub string_to_data_type : List (String × DataType)
string_to_data_type =
    ("int8", int8)
    ∷ ("int16", int16)
    ∷ ("int32", int32)
    ∷ ("int64", int64)
    ∷ ("uint8", uint8)
    ∷ ("uint16", uint16)
    ∷ ("uint32", uint32)
    ∷ ("uint64", uint64)
    ∷ ("float16", float16)
    ∷ ("bfloat16", bfloat16)
    ∷ ("float32", float32)
    ∷ ("float64", float64)
    ∷ []

unfoldable pub size_of : DataType → Outcome ℕ
unfolding at
size_of dtype = at data_type_to_size dtype

pub desc_of : DataType → Outcome String
unfolding at
desc_of dtype = at data_type_to_desc dtype

pub data_type_of : String → Outcome DataType
unfolding at
data_type_of name = at string_to_data_type name

abbrev pub float_types : List DataType
float_types = float32 ∷ float64 ∷ []

abbrev pub reduced_float_types : List DataType
reduced_float_types = float16 ∷ bfloat16 ∷ []

abbrev pub int_types : List DataType
int_types = int8 ∷ int16 ∷ int32 ∷ int64 ∷ []

abbrev pub uint_types : List DataType
uint_types = uint8 ∷ uint16 ∷ uint32 ∷ uint64 ∷ []

abbrev pub bit_types8 : List DataType
bit_types8 = int8 ∷ uint8 ∷ []

abbrev pub bit_types16 : List DataType
bit_types16 = int16 ∷ uint16 ∷ float16 ∷ bfloat16 ∷ []

abbrev pub bit_types32 : List DataType
bit_types32 = int32 ∷ uint32 ∷ float32 ∷ []

abbrev pub bit_types64 : List DataType
bit_types64 = int64 ∷ uint64 ∷ float64 ∷ []

unfoldable pub all_float_types : List DataType
unfolding concat
all_float_types = concat float_types reduced_float_types

unfoldable pub all_int_types : List DataType
unfolding concat
all_int_types = concat int_types uint_types

unfoldable pub all_types : List DataType
unfolding concat all_float_types all_int_types
all_types = concat all_float_types all_int_types
