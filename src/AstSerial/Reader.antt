-- ===== src/AstSerial/Reader.antt =====
-- compiler/ast_serial.py, `AstDeserializer`. The recursive method `_read_node` is an argument of
-- the readers below it; `read_node` ties the knot, on fuel.
use nathra.Common.{
  ℕ, zero, suc, not, List, [], ◌∷◌, String, ℤ, pos, negsuc, ◌==◌, ◌||◌, if◌then◌else◌,
}
use nathra.Wire.Result.{ok, bind, unknown_field_kind}
use nathra.Wire.Bytes.{Bytes}
use nathra.Wire.Monad.{
  when◌then◌otherwise◌, Reader, ◌>>=◌, pure, fail, read_u8, read_i32, read_i64, read_f64,
  read_slice,
}
use nathra.Wire.Utf8.{decode}
use nathra.AstSerial.Tags.{
  kind_code, fk_node, fk_node_list, fk_string, fk_int, fk_float, fk_bool, fk_op, fk_none,
}
use nathra.AstSerial.Value.{
  Value, none_value, ellipsis, int, float, str, bool, op, list, Values, nil, cons, Fields, end,
  field,
}

unfoldable pub decode_str : Bytes → Reader Value
decode_str bytes rest = bind (decode bytes) λ s. ok (str s, rest)

unfoldable pub read_str : Reader Value
read_str = do
  n ← read_i32
  elim n [ negsuc _ ↦ pure none_value | pos k ↦ read_slice k >>= decode_str ]

-- `[read() for _ in range(count)]`
unfoldable pub read_times : Reader Value → ℕ → Reader Values
read_times read zero = pure nil
read_times read (suc count) = do v ← read; vs ← read_times read count; pure (cons v vs)

-- `range` of a negative number is empty.
unfoldable pub read_count : Reader Value → ℤ → Reader Value
read_count read (negsuc _) = pure (list nil)
read_count read (pos count) = read_times read count >>= λ vs. pure (list vs)

unfoldable pub read_field_of : Reader Value → ℕ → Reader Value
unfolding read_count
read_field_of read_node kind =
    when kind == kind_code fk_none
    then pure none_value
    otherwise when kind == kind_code fk_node
    then read_node
    otherwise when kind == kind_code fk_node_list
    then read_i32 >>= read_count read_node
    otherwise when kind == kind_code fk_string
    then read_str
    otherwise when kind == kind_code fk_int
    then read_i64 >>= (λ v. pure (int v))
    otherwise when kind == kind_code fk_float
    then read_f64 >>= (λ v. pure (float v))
    otherwise when kind == kind_code fk_bool
    then read_u8 >>= (λ v. pure (bool (not (v == 0))))
    otherwise when kind == kind_code fk_op
    then read_u8 >>= (λ v. pure (op v))
    otherwise fail (unknown_field_kind kind)

unfoldable pub read_field : Reader Value → Reader Value
unfolding read_field_of
read_field read_node = read_u8 >>= read_field_of read_node

-- `node["k₁"] = r₁(); node["k₂"] = r₂(); …`
unfoldable pub set_fields : List (String × Reader Value) → Reader Fields
set_fields [] = pure end
set_fields ((k, r) ∷ steps) = do v ← r; fs ← set_fields steps; pure (field k v fs)

-- The operators of a comparison: a count and that many bytes.
unfoldable pub read_ops : Reader Value
read_ops = do
  op_count ← read_u8
  ops ← read_times (read_u8 >>= λ v. pure (int (pos v))) op_count
  pure (list ops)

-- The fields of a constant, after its kind. An unknown kind sets no value.
unfoldable pub read_constant_of : Reader Value → ℕ → Reader Fields
read_constant_of read kind =
    let const_kind = field "const_kind" (int (pos kind)) end in
    when kind == 0 || kind == 1 || kind == 2 || kind == 3
    then read >>= (λ v. pure (field "value" v const_kind))
    otherwise when kind == 4
    then pure (field "value" none_value const_kind)
    otherwise when kind == 5
    then pure (field "value" ellipsis const_kind)
    otherwise pure const_kind

unfoldable pub read_constant : Reader Value → Reader Fields
unfolding read_constant_of
read_constant read = read_u8 >>= read_constant_of read
