-- ===== src/NativeAnalysis/Calls.antt =====
-- native/src/native_analysis.py, the calls of a name in an expression and in a body.
use nathra.Common.{Bool, false, ◌||◌}
use nathra.Wire.Bytes.{Bytes}
use nathra.NativeAst.Types.{
  AstNode, null, node, AstNodes, nil, cons, Payload, ast_call, ast_name, ast_bin_op, ast_unary_op,
  ast_bool_op, ast_compare, ast_if_exp, ast_subscript, ast_attribute, ast_expr_stmt, ast_return,
  ast_assign, ast_ann_assign, ast_if, ast_for, ast_while,
}
use nathra.NativeAnalysis.Cold.{is_text}

abbrev pub is_name : Bytes → AstNode → Bool
is_name name (node tag l (ast_name id)) = is_text id name
is_name name _ = false

unfoldable mutual
  pub expr_calls_name : Bytes → AstNode → Bool
  expr_calls_name name null = false
  expr_calls_name name (node tag l payload) = data_calls_name name payload

  -- A call within the keywords of a call, or in a list, is not looked for.
  pub data_calls_name : Bytes → Payload → Bool
  data_calls_name name (ast_call func args keywords) =
      is_name name func || (expr_calls_name name func || any_calls_name name args)
  data_calls_name name (ast_bin_op left op right) =
      expr_calls_name name left || expr_calls_name name right
  data_calls_name name (ast_unary_op op operand) = expr_calls_name name operand
  data_calls_name name (ast_bool_op op values) = any_calls_name name values
  data_calls_name name (ast_compare left ops comparators) =
      expr_calls_name name left || any_calls_name name comparators
  data_calls_name name (ast_if_exp test body orelse) =
      expr_calls_name name test || (expr_calls_name name body || expr_calls_name name orelse)
  data_calls_name name (ast_subscript value slice) =
      expr_calls_name name value || expr_calls_name name slice
  data_calls_name name (ast_attribute value attr) = expr_calls_name name value
  data_calls_name name _ = false

  pub any_calls_name : Bytes → AstNodes → Bool
  any_calls_name name nil = false
  any_calls_name name (cons x xs) = expr_calls_name name x || any_calls_name name xs

unfoldable mutual
  pub func_calls_self : Bytes → AstNodes → Bool
  func_calls_self name nil = false
  func_calls_self name (cons x xs) = stmt_calls_self name x || func_calls_self name xs

  pub stmt_calls_self : Bytes → AstNode → Bool
  stmt_calls_self name null = false
  stmt_calls_self name (node tag l payload) = parts_call_self name payload

  pub parts_call_self : Bytes → Payload → Bool
  parts_call_self name (ast_expr_stmt value) = expr_calls_name name value
  parts_call_self name (ast_return value) = expr_calls_name name value
  parts_call_self name (ast_assign targets value) = expr_calls_name name value
  parts_call_self name (ast_ann_assign target annotation value) = expr_calls_name name value
  parts_call_self name (ast_if test body orelse) =
      expr_calls_name name test || (func_calls_self name body || func_calls_self name orelse)
  parts_call_self name (ast_for target iter body) = func_calls_self name body
  parts_call_self name (ast_while test body) =
      expr_calls_name name test || func_calls_self name body
  parts_call_self name _ = false
