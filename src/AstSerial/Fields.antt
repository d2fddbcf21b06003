-- ===== src/AstSerial/Fields.antt =====
-- compiler/ast_serial.py, `AstSerializer` below the nodes: a method is the bytes that it appends.
use nathra.Common.{
  ℕ, suc, Bool, Option, none, some, List, [], ◌∷◌, ℤ, pos, negsuc, length, if◌then◌else◌,
}
use nathra.Wire.Result.{ok, err, bind, unknown_operator, unsupported_constant}
use nathra.Wire.Monad.{Put, ◌>>◌, write_u8, write_u16, write_i32, write_i64, write_f64, write_bytes}
use nathra.Wire.Utf8.{PyStr, encode}
use nathra.AstSerial.Tags.{
  Tag, code, kind_code, binop_map, unaryop_map, boolop_map, cmpop_map, fk_node, fk_node_list,
  fk_string, fk_int, fk_float, fk_bool, fk_op, fk_none,
}
use nathra.PyAst.{
  Operator, Constant, bool, int, float, str, none_value, ellipsis, other, Node, none_node, Nodes,
  nil, cons,
}

unfoldable pub write_str : Option PyStr → Put
write_str none = write_i32 (negsuc 0)
write_str (some s) = bind (encode s) λ bytes. write_i32 (pos (length bytes)) >> write_bytes bytes

-- `written` is what `self._serialize(node)` appends.
unfoldable pub write_node_field : Node → Put → Put
write_node_field none_node written = write_u8 (kind_code fk_none)
write_node_field node written = write_u8 (kind_code fk_node) >> written

unfoldable pub count : Nodes → ℕ
count nil = 0
count (cons n ns) = suc (count ns)

-- `written` is what the calls of `_serialize` on the nodes append.
unfoldable pub write_node_list_field : Nodes → Put → Put
unfolding count
write_node_list_field nodes written = do
  write_u8 (kind_code fk_node_list)
  write_i32 (pos (count nodes))
  written

unfoldable pub write_string_field : Option PyStr → Put
unfolding write_str
write_string_field s = do write_u8 (kind_code fk_string); write_str s

unfoldable pub write_int_field : ℤ → Put
write_int_field v = do write_u8 (kind_code fk_int); write_i64 v

unfoldable pub write_float_field : ℕ → Put
write_float_field v = do write_u8 (kind_code fk_float); write_f64 v

unfoldable pub write_bool_field : Bool → Put
write_bool_field v = do write_u8 (kind_code fk_bool); write_u8 (if v then 1 else 0)

-- The loop over the four tables.
unfoldable pub write_first : List (Operator → Option ℕ) → Operator → Put
write_first [] op = err unknown_operator
write_first (table ∷ tables) op = elim (table op) [
  | some v ↦ write_u8 v
  | none ↦ write_first tables op
]

unfoldable pub write_op_field : Operator → Put
unfolding write_first
write_op_field op = do
  write_u8 (kind_code fk_op)
  write_first (binop_map ∷ unaryop_map ∷ boolop_map ∷ cmpop_map ∷ []) op

unfoldable pub write_header : Tag → Option ℕ → Put
write_header tag lineno = do write_u8 (code tag); write_u16 (elim lineno [ some l ↦ l | none ↦ 0 ])

-- The operators of a comparison, each a bare byte.
unfoldable pub write_cmpop : Operator → Put
write_cmpop op = elim (cmpop_map op) [ some v ↦ write_u8 v | none ↦ err unknown_operator ]

unfoldable pub write_cmpops : List Operator → Put
unfolding write_cmpop
write_cmpops [] = ok []
write_cmpops (op ∷ ops) = do write_cmpop op; write_cmpops ops

unfoldable pub write_constant : Constant → Put
write_constant (bool v) = do write_u8 3; write_bool_field v
write_constant (int v) = do write_u8 0; write_int_field v
write_constant (float v) = do write_u8 1; write_float_field v
write_constant (str v) = do write_u8 2; write_string_field (some v)
write_constant none_value = write_u8 4
write_constant ellipsis = write_u8 5
write_constant other = err unsupported_constant
