-- ===== src/NativeAst/Exprs.antt =====
-- native/src/ast_nodes.py: the readers of expressions. `self` is `ast_read_node`.
use nathra.Common.{ℕ, zero, suc, pos, List, [], ◌∷◌, none, ◌==◌, if◌then◌else◌}
use nathra.Wire.Monad.{Reader, ◌>>=◌, pure, when◌then◌otherwise◌}
use nathra.NativeAst.Types.{
  AstNode, Payload, ast_constant, ast_name, ast_call, ast_attribute, ast_subscript, ast_bin_op,
  ast_unary_op, ast_bool_op, ast_compare, ast_if_exp, ast_tuple, ast_list, ast_set, ast_dict,
  ast_joined_str, ast_formatted_value, ast_list_comp, ast_lambda,
}
use nathra.NativeAst.Fields.{
  nr_read_u8, ast_read_node_field, ast_read_node_list, ast_read_string_field, ast_read_int_field,
  ast_read_float_field, ast_read_bool_field, ast_read_op_field,
}

-- The value of a constant of the given kind; what it does not set stays 0 or `NULL`.
unfoldable pub ast_read_constant_of : ℕ → Reader Payload
ast_read_constant_of kind =
    when kind == 0
    then (ast_read_int_field >>= λ v. pure (ast_constant kind v 0 none))
    otherwise when kind == 1
    then (ast_read_float_field >>= λ v. pure (ast_constant kind (pos 0) v none))
    otherwise when kind == 2
    then (ast_read_string_field >>= λ v. pure (ast_constant kind (pos 0) 0 v))
    otherwise when kind == 3
    then (ast_read_bool_field >>= λ v. pure (ast_constant kind (pos v) 0 none))
    otherwise pure (ast_constant kind (pos 0) 0 none)

unfoldable pub ast_read_constant : Reader AstNode → Reader Payload
unfolding ast_read_constant_of
ast_read_constant self = nr_read_u8 >>= ast_read_constant_of

unfoldable pub ast_read_name : Reader AstNode → Reader Payload
ast_read_name self = do id ← ast_read_string_field; pure (ast_name id)

unfoldable pub ast_read_call : Reader AstNode → Reader Payload
ast_read_call self = do
  func ← ast_read_node_field self
  args ← ast_read_node_list self
  keywords ← ast_read_node_list self
  pure (ast_call func args keywords)

unfoldable pub ast_read_attribute : Reader AstNode → Reader Payload
ast_read_attribute self = do
  value ← ast_read_node_field self
  attr ← ast_read_string_field
  pure (ast_attribute value attr)

unfoldable pub ast_read_subscript : Reader AstNode → Reader Payload
ast_read_subscript self = do
  value ← ast_read_node_field self
  slice ← ast_read_node_field self
  pure (ast_subscript value slice)

unfoldable pub ast_read_binop : Reader AstNode → Reader Payload
ast_read_binop self = do
  left ← ast_read_node_field self
  op ← ast_read_op_field
  right ← ast_read_node_field self
  pure (ast_bin_op left op right)

unfoldable pub ast_read_unaryop : Reader AstNode → Reader Payload
ast_read_unaryop self = do
  op ← ast_read_op_field
  operand ← ast_read_node_field self
  pure (ast_unary_op op operand)

unfoldable pub ast_read_boolop : Reader AstNode → Reader Payload
ast_read_boolop self = do
  op ← ast_read_op_field
  values ← ast_read_node_list self
  pure (ast_bool_op op values)

unfoldable pub ast_read_ops : ℕ → Reader (List ℕ)
ast_read_ops zero = pure []
ast_read_ops (suc n) = do op ← nr_read_u8; ops ← ast_read_ops n; pure (op ∷ ops)

unfoldable pub ast_read_compare : Reader AstNode → Reader Payload
unfolding ast_read_ops
ast_read_compare self = do
  left ← ast_read_node_field self
  op_count ← nr_read_u8
  ops ← ast_read_ops op_count
  comparators ← ast_read_node_list self
  pure (ast_compare left ops comparators)

unfoldable pub ast_read_ifexp : Reader AstNode → Reader Payload
ast_read_ifexp self = do
  test ← ast_read_node_field self
  body ← ast_read_node_field self
  orelse ← ast_read_node_field self
  pure (ast_if_exp test body orelse)

unfoldable pub ast_read_tuple : Reader AstNode → Reader Payload
ast_read_tuple self = do elts ← ast_read_node_list self; pure (ast_tuple elts)

unfoldable pub ast_read_list : Reader AstNode → Reader Payload
ast_read_list self = do elts ← ast_read_node_list self; pure (ast_list elts)

unfoldable pub ast_read_set : Reader AstNode → Reader Payload
ast_read_set self = do elts ← ast_read_node_list self; pure (ast_set elts)

unfoldable pub ast_read_dict : Reader AstNode → Reader Payload
ast_read_dict self = do
  keys ← ast_read_node_list self
  values ← ast_read_node_list self
  pure (ast_dict keys values)

unfoldable pub ast_read_joined_str : Reader AstNode → Reader Payload
ast_read_joined_str self = do values ← ast_read_node_list self; pure (ast_joined_str values)

unfoldable pub ast_read_formatted_value : Reader AstNode → Reader Payload
ast_read_formatted_value self = do
  value ← ast_read_node_field self
  conversion ← ast_read_int_field
  format_spec ← ast_read_node_field self
  pure (ast_formatted_value value conversion format_spec)

unfoldable pub ast_read_list_comp : Reader AstNode → Reader Payload
ast_read_list_comp self = do
  elt ← ast_read_node_field self
  generators ← ast_read_node_list self
  pure (ast_list_comp elt generators)

unfoldable pub ast_read_lambda : Reader AstNode → Reader Payload
ast_read_lambda self = do args ← self; body ← ast_read_node_field self; pure (ast_lambda args body)
