-- ===== src/Tests/Trees.antt =====
-- A module of one function, serialized and read back:
--   def f(x):
--       return x + -3 if x < 10 else "é"
use nathra.Common.{◌≡◌, ◌≢◌, refl, none, some, [], ◌∷◌, ◌++◌, pos, negsuc, arith}
use nathra.Wire.Result.{ok, err, out_of_fuel}
use nathra.Wire.Bytes.{Bytes, le_bytes, to_twos, fits_signed}
use nathra.Wire.Monad.{◌>>◌, write_u8, write_u16, write_i32, write_i64, write_bytes}
use nathra.Wire.Utf8.{encode}
use nathra.AstSerial.ReadNode.{read_node, deserialize, mpya}
use nathra.AstSerial.Describe.{describe}
use nathra.AstSerial.RoundTrip.Trees.{read_node-serialize, deserialize-serialize_tree}
use nathra.AstSerial.Total.{deserialize-ends}
use nathra.AstSerial.Errors.{serialize-dict_unpacking}
use nathra.NativeAst.Fields.{ast_read_str}
use nathra.NativeAst.ReadNode.{deserialize_ast}
use nathra.NativeAst.Describe.{native}
use nathra.NativeAst.RoundTrip.Trees.{deserialize_ast-serialize_tree}
use nathra.NativeAst.RoundTrip.Strings.{ast_read_str-write_str, ast_read_str-embedded_zero}
use nathra.PyAst.{
  Node, none_node, stmt, expr, part, nil, cons, function_def, return_stmt, if_exp, bin_op, add, lt,
  comparison, constant, name, module_root, dict, arguments, arg, int, str,
}
use nathra.AstSerial.Tags.{binop_map, unaryop_map, boolop_map, cmpop_map}
use nathra.AstSerial.Fields.{
  write_str, write_node_field, write_node_list_field, write_string_field, write_int_field,
  write_op_field, write_header, write_cmpop, write_cmpops, write_constant, count,
}
use nathra.AstSerial.Writer.{serialize, serialize_tree}

abbrev x_name : Node
x_name = expr (some 2) (name (b'x' ∷ []))

abbrev body : Node
body = expr (some 2) (
    if_exp
      (expr (some 2)
        (comparison x_name (lt ∷ []) (cons (expr (some 2) (constant (int (pos 10)))) nil)))
      (expr (some 2) (bin_op x_name add (expr (some 2) (constant (int (negsuc 2))))))
      (expr (some 2) (constant (str (0xe9 ∷ [])))))

abbrev pub sample : Node
sample = part none (
    module_root (
      cons
        (stmt (some 1) (
          function_def (b'f' ∷ [])
            (part none
              (arguments (cons (part (some 1) (arg (b'x' ∷ []) none_node)) nil) none_node nil))
            (cons (stmt (some 2) (return_stmt body)) nil) nil none_node))
        nil))

abbrev sample_bytes : Bytes
sample_bytes =
    0 ∷ 0 ∷ 0 ∷ 1 ∷ 1 ∷ 0 ∷ 0 ∷ 0 ∷ 1 ∷ 1 ∷ 0 ∷ 2 ∷ 1 ∷ 0 ∷ 0 ∷ 0 ∷ 102 ∷ 60 ∷ 0 ∷ 0 ∷ 1 ∷ 1 ∷ 0 ∷ 0
    ∷ 0 ∷ 61 ∷ 1 ∷ 0 ∷ 2 ∷ 1 ∷ 0 ∷ 0 ∷ 0 ∷ 120 ∷ 7 ∷ 7 ∷ 1 ∷ 0 ∷ 0 ∷ 0 ∷ 0 ∷ 1 ∷ 1 ∷ 0 ∷ 0 ∷ 0 ∷ 3
    ∷ 2 ∷ 0 ∷ 0 ∷ 39 ∷ 2 ∷ 0 ∷ 0 ∷ 38 ∷ 2 ∷ 0 ∷ 0 ∷ 31 ∷ 2 ∷ 0 ∷ 2 ∷ 1 ∷ 0 ∷ 0 ∷ 0 ∷ 120 ∷ 1 ∷ 42
    ∷ 1 ∷ 1 ∷ 0 ∷ 0 ∷ 0 ∷ 30 ∷ 2 ∷ 0 ∷ 0 ∷ 3 ∷ 10 ∷ 0 ∷ 0 ∷ 0 ∷ 0 ∷ 0 ∷ 0 ∷ 0 ∷ 0 ∷ 35 ∷ 2 ∷ 0 ∷ 0
    ∷ 31 ∷ 2 ∷ 0 ∷ 2 ∷ 1 ∷ 0 ∷ 0 ∷ 0 ∷ 120 ∷ 6 ∷ 0 ∷ 0 ∷ 30 ∷ 2 ∷ 0 ∷ 0 ∷ 3 ∷ 253 ∷ 255 ∷ 255 ∷ 255
    ∷ 255 ∷ 255 ∷ 255 ∷ 255 ∷ 0 ∷ 30 ∷ 2 ∷ 0 ∷ 2 ∷ 2 ∷ 2 ∷ 0 ∷ 0 ∷ 0 ∷ 195 ∷ 169 ∷ 1 ∷ 0 ∷ 0 ∷ 0 ∷ 0
    ∷ 7 ∷ []

writers : Unit {0}
unfolding serialize_tree serialize write_header write_node_field write_node_list_field
    write_string_field write_int_field write_op_field write_cmpop write_cmpops write_constant
    write_str encode write_u8 write_u16 write_i32 write_i64 write_bytes le_bytes to_twos fits_signed
    ◌>>◌ count binop_map unaryop_map boolop_map cmpop_map
writers = tt

serialize_tree-sample : serialize_tree sample ≡ ok (mpya ++ sample_bytes)
unfolding writers
serialize_tree-sample = refl

serialize-sample : serialize sample ≡ ok sample_bytes
unfolding writers
serialize-sample = refl

deserialize-serialize_tree_example : deserialize (mpya ++ sample_bytes) ≡ ok (describe sample)
deserialize-serialize_tree_example =
    deserialize-serialize_tree sample (mpya ++ sample_bytes) serialize_tree-sample

read_node-serialize_example :
    read_node 200 (sample_bytes ++ 99 ∷ []) ≡ ok (describe sample, 99 ∷ [])
read_node-serialize_example =
    read_node-serialize sample sample_bytes (99 ∷ []) 200 serialize-sample (omega arith)

-- A node list that promises 16777216 nodes and holds none.
deserialize-ends_example :
    deserialize (mpya ++ 0 ∷ 0 ∷ 0 ∷ 1 ∷ 0 ∷ 0 ∷ 0 ∷ 1 ∷ []) ≢ err out_of_fuel
deserialize-ends_example = deserialize-ends (mpya ++ 0 ∷ 0 ∷ 0 ∷ 1 ∷ 0 ∷ 0 ∷ 0 ∷ 1 ∷ [])

deserialize_ast-serialize_tree_example : deserialize_ast (mpya ++ sample_bytes) ≡ ok (native sample)
deserialize_ast-serialize_tree_example =
    deserialize_ast-serialize_tree sample (mpya ++ sample_bytes) serialize_tree-sample

-- {**x, 10: x}
serialize-dict_unpacking_example :
    serialize
      (expr (some 1) (dict (cons none_node (cons x_name nil)) (cons x_name (cons x_name nil))))
    ≢ ok sample_bytes
serialize-dict_unpacking_example =
    serialize-dict_unpacking (some 1) (cons none_node (cons x_name nil))
      (cons x_name (cons x_name nil)) sample_bytes tt

-- "hé"
ast_read_str-write_str_example :
    ast_read_str (3 ∷ 0 ∷ 0 ∷ 0 ∷ 104 ∷ 0xc3 ∷ 0xa9 ∷ 7 ∷ [])
    ≡ ok (some (104 ∷ 0xc3 ∷ 0xa9 ∷ []), 7 ∷ [])
unfolding writers
ast_read_str-write_str_example =
    ast_read_str-write_str (104 ∷ 0xe9 ∷ []) (104 ∷ 0xc3 ∷ 0xa9 ∷ [])
      (3 ∷ 0 ∷ 0 ∷ 0 ∷ 104 ∷ 0xc3 ∷ 0xa9 ∷ []) (7 ∷ []) (omega arith, (omega arith, tt)) refl refl

-- "a\0b"
ast_read_str-embedded_zero_example :
    ast_read_str (3 ∷ 0 ∷ 0 ∷ 0 ∷ 97 ∷ 0 ∷ 98 ∷ []) ≡ ok (some (97 ∷ []), [])
unfolding writers
ast_read_str-embedded_zero_example =
    ast_read_str-embedded_zero (97 ∷ []) (98 ∷ []) (97 ∷ []) (98 ∷ [])
      (3 ∷ 0 ∷ 0 ∷ 0 ∷ 97 ∷ 0 ∷ 98 ∷ []) [] (omega arith, tt) refl refl refl
