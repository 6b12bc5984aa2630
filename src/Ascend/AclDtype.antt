-- ===== src/Ascend/AclDtype.antt =====
-- src/native/ascend/data_type_.h: the element types of the Ascend runtime.
use infini_ops.Prelude.{Bool, true, false, Outcome, Fault, ok, fail}
use infini_ops.DataType.{
  DataType, int8, int16, int32, int64, uint8, uint16, uint32, uint64, float16, bfloat16, float32,
  float64,
}

-- The enumerators of `aclDataType` that the code names.
pub data AclDtype : Type 0 where
  acl_float16 acl_bf16 acl_float acl_int8 acl_int16 acl_int32 acl_int64 : AclDtype
  acl_uint8 acl_uint16 acl_uint32 acl_uint64 : AclDtype

unfoldable pub to_acl_dtype : DataType → Outcome AclDtype
to_acl_dtype float16 = ok acl_float16
to_acl_dtype bfloat16 = ok acl_bf16
to_acl_dtype float32 = ok acl_float
to_acl_dtype int8 = ok acl_int8
to_acl_dtype int16 = ok acl_int16
to_acl_dtype int32 = ok acl_int32
to_acl_dtype int64 = ok acl_int64
to_acl_dtype uint8 = ok acl_uint8
to_acl_dtype uint16 = ok acl_uint16
to_acl_dtype uint32 = ok acl_uint32
to_acl_dtype uint64 = ok acl_uint64
to_acl_dtype float64 = fail Fault.aborted

unfoldable pub is_integer_dtype : DataType → Bool
is_integer_dtype int8 = true
is_integer_dtype int16 = true
is_integer_dtype int32 = true
is_integer_dtype int64 = true
is_integer_dtype uint8 = true
is_integer_dtype uint16 = true
is_integer_dtype uint32 = true
is_integer_dtype uint64 = true
is_integer_dtype _ = false
