-- ===== src/Examples/Types.antt =====
-- Element types, devices and constant maps at concrete inputs.
use Prim.Native.String.{String}
use infini_ops.Prelude.{ℕ, ◌+◌, ◌%◌, ◌^◌, ◌<◌, ◌≤◌, ◌≡◌, ◌↔◌, List, [], ◌∷◌, arith}
use infini_ops.Prelude.Equality.{nat_eq, string_eq}
use infini_ops.DataType.{data_type_eq}
use infini_ops.DataType.BFloat16.{
  from_float as bfloat16_from, to_float as bfloat16_to, from_float_nearest, from_float_nan, IsNan16,
}
use infini_ops.DataType.Float16.RoundTrip.{from_float-to_float, ReadsBackAs}

abbrev names : List (ℕ × String)
names = (1, "one") ∷ (2, "two") ∷ []

from_float_nearest_example :
    (bfloat16_to (bfloat16_from 0x3f80_8000) ≤ 0x3f80_8000 + 2 ^ 15)
    × (0x3f80_8000 ≤ bfloat16_to (bfloat16_from 0x3f80_8000) + 2 ^ 15)
    × (0x3f80_8000 % 2 ^ 16 ≡ 2 ^ 15 → bfloat16_from 0x3f80_8000 % 2 ≡ 0)
from_float_nearest_example = from_float_nearest 0x3f80_8000 (omega arith)

from_float_nan_example :
    (IsNan16 (bfloat16_from 0x7f80_0001)
      ↔ (0x7f80_8000 < 0x7f80_0001 % 2 ^ 31) × (0x7f80_0001 % 2 ^ 31 < 0x7fff_8000))
    × (0x7f80_0001 % 2 ^ 31 ≤ 0x7f80_8000 → bfloat16_from 0x7f80_0001 % 2 ^ 15 ≡ 0x7f80)
    × (0x7fff_8000 ≤ 0x7f80_0001 % 2 ^ 31 → bfloat16_from 0x7f80_0001 % 2 ^ 15 ≡ 0)
from_float_nan_example = from_float_nan 0x7f80_0001 (omega arith) (omega arith)

from_float-to_float_example : ReadsBackAs 0x3c00 0x3c00
from_float-to_float_example = from_float-to_float 0x3c00 (omega arith)
