-- ===== src/NativeAst/Describe.antt =====
-- What the native compiler is to receive for a tree that compiler/ast_serial.py serializes: the
-- specification of the bridge between the two.
use nathra.Common.{Option, none, some, map, true, false, pos}
use nathra.Wire.Result.{ok, err}
use nathra.Wire.Utf8.{PyStr, encode}
use nathra.PyAst.{
  Operator, Constant, Node, none_node, stmt, expr, part, unlisted, Nodes, Stmt, function_def,
  class_def, return_stmt, raise_stmt, expr_stmt, if_stmt, while_stmt, for_stmt, with_stmt, assign,
  aug_assign, ann_assign, assert_stmt, break_stmt, continue_stmt, pass_stmt, import_stmt,
  import_from, match_stmt, Expr, constant, name, call, attribute, subscript, bin_op, unary_op,
  bool_op, comparison, if_exp, tuple, set, joined_str, dict, formatted_value, list_comp, lambda,
  Part, module_root, arguments, arg, keyword, alias, comprehension, withitem, match_case,
  match_value, match_or, match_as,
}
use nathra.PyAst
use nathra.AstSerial.Tags.{code}
use nathra.AstSerial.Describe.{op_number, lineno_or_zero, stmt_tag, expr_tag, part_tag}
use nathra.NativeAst.Types.{
  AstNode, null, node, AstNodes, nil, cons, NrStr, Payload, no_data, ast_module, ast_function_def,
  ast_class_def, ast_return, ast_raise, ast_expr_stmt, ast_if, ast_while, ast_for, ast_with,
  ast_assign, ast_aug_assign, ast_ann_assign, ast_assert, ast_import, ast_import_from, ast_match,
  ast_constant, ast_name, ast_call, ast_attribute, ast_subscript, ast_bin_op, ast_unary_op,
  ast_bool_op, ast_compare, ast_if_exp, ast_tuple, ast_list, ast_set, ast_dict, ast_joined_str,
  ast_formatted_value, ast_list_comp, ast_lambda, ast_arguments, ast_arg, ast_keyword, ast_alias,
  ast_comprehension, ast_with_item, ast_match_case, ast_match_value, ast_match_or, ast_match_as,
}
use nathra.NativeAst.Fields.{c_str}

-- A string arrives as its UTF-8 bytes up to the first zero byte.
unfoldable pub native_str : Option PyStr → NrStr
unfolding c_str
native_str none = none
native_str (some s) = elim (encode s) [ ok bytes ↦ some (c_str bytes) | err _ ↦ none ]

unfoldable pub native_constant : Constant → Payload
native_constant (PyAst.int z) = ast_constant 0 z 0 none
native_constant (PyAst.float x) = ast_constant 1 (pos 0) x none
native_constant (PyAst.str s) = ast_constant 2 (pos 0) 0 (native_str (some s))
native_constant (PyAst.bool true) = ast_constant 3 (pos 1) 0 none
native_constant (PyAst.bool false) = ast_constant 3 (pos 0) 0 none
native_constant PyAst.none_value = ast_constant 4 (pos 0) 0 none
native_constant PyAst.ellipsis = ast_constant 5 (pos 0) 0 none
native_constant PyAst.other = no_data

unfoldable mutual
  unfolding native_str native_constant

  pub native : Node → AstNode
  native none_node = null
  native (unlisted class) = null
  native (stmt l s) = node (code (stmt_tag s)) (lineno_or_zero l) (native_stmt s)
  native (expr l e) = node (code (expr_tag e)) (lineno_or_zero l) (native_expr e)
  native (part l p) = node (code (part_tag p)) (lineno_or_zero l) (native_part p)

  pub native_all : PyAst.Nodes → AstNodes
  native_all PyAst.nil = nil
  native_all (PyAst.cons x xs) = cons (native x) (native_all xs)

  pub native_stmt : Stmt → Payload
  native_stmt (function_def nm args body decorators returns) =
      ast_function_def (native_str (some nm)) (native args) (native_all body)
        (native_all decorators) (native returns)
  native_stmt (class_def nm bases keywords body decorators) =
      ast_class_def (native_str (some nm)) (native_all bases) (native_all keywords)
        (native_all body) (native_all decorators)
  native_stmt (return_stmt value) = ast_return (native value)
  native_stmt (raise_stmt exc) = ast_raise (native exc)
  native_stmt (expr_stmt value) = ast_expr_stmt (native value)
  native_stmt (if_stmt test body orelse) =
      ast_if (native test) (native_all body) (native_all orelse)
  native_stmt (while_stmt test body orelse) = ast_while (native test) (native_all body)
  native_stmt (for_stmt target iter body orelse) =
      ast_for (native target) (native iter) (native_all body)
  native_stmt (with_stmt items body) = ast_with (native_all items) (native_all body)
  native_stmt (assign targets value) = ast_assign (native_all targets) (native value)
  native_stmt (aug_assign target o value) =
      ast_aug_assign (native target) (op_number o) (native value)
  native_stmt (ann_assign target annotation value) =
      ast_ann_assign (native target) (native annotation) (native value)
  native_stmt (assert_stmt test msg) = ast_assert (native test) (native msg)
  native_stmt break_stmt = no_data
  native_stmt continue_stmt = no_data
  native_stmt pass_stmt = no_data
  native_stmt (import_stmt names) = ast_import (native_all names)
  native_stmt (import_from source names) = ast_import_from (native_str source) (native_all names)
  native_stmt (match_stmt subject cases) = ast_match (native subject) (native_all cases)

  pub native_expr : Expr → Payload
  native_expr (constant v) = native_constant v
  native_expr (name id) = ast_name (native_str (some id))
  native_expr (call func args keywords) =
      ast_call (native func) (native_all args) (native_all keywords)
  native_expr (attribute value attr) = ast_attribute (native value) (native_str (some attr))
  native_expr (subscript value slice) = ast_subscript (native value) (native slice)
  native_expr (bin_op left o right) = ast_bin_op (native left) (op_number o) (native right)
  native_expr (unary_op o operand) = ast_unary_op (op_number o) (native operand)
  native_expr (bool_op o values) = ast_bool_op (op_number o) (native_all values)
  native_expr (comparison left ops comparators) =
      ast_compare (native left) (map op_number ops) (native_all comparators)
  native_expr (if_exp test body orelse) = ast_if_exp (native test) (native body) (native orelse)
  native_expr (tuple elts) = ast_tuple (native_all elts)
  native_expr (PyAst.list elts) = ast_list (native_all elts)
  native_expr (set elts) = ast_set (native_all elts)
  native_expr (joined_str values) = ast_joined_str (native_all values)
  native_expr (dict keys values) = ast_dict (native_all keys) (native_all values)
  native_expr (formatted_value value conversion format_spec) =
      ast_formatted_value (native value) conversion (native format_spec)
  native_expr (list_comp elt generators) = ast_list_comp (native elt) (native_all generators)
  native_expr (lambda args body) = ast_lambda (native args) (native body)

  pub native_part : Part → Payload
  native_part (module_root body) = ast_module (native_all body)
  native_part (arguments args vararg defaults) =
      ast_arguments (native_all args) (native vararg) (native_all defaults)
  native_part (arg nm annotation) = ast_arg (native_str (some nm)) (native annotation)
  native_part (keyword nm value) = ast_keyword (native_str nm) (native value)
  native_part (alias nm asname) = ast_alias (native_str (some nm)) (native_str asname)
  native_part (comprehension target iter ifs) =
      ast_comprehension (native target) (native iter) (native_all ifs)
  native_part (withitem context_expr optional_vars) =
      ast_with_item (native context_expr) (native optional_vars)
  native_part (match_case pat guard body) =
      ast_match_case (native pat) (native guard) (native_all body)
  native_part (match_value value) = ast_match_value (native value)
  native_part (match_or patterns) = ast_match_or (native_all patterns)
  native_part (match_as pat nm) = ast_match_as (native pat) (native_str nm)
