-- ===== src/AstSerial/Writer.antt =====
-- compiler/ast_serial.py, `AstSerializer`. A method is the bytes that it appends. Where a method
-- hands a child to `_serialize`, its clause hands the child's bytes to the field writer.
use nathra.Common.{ℕ, Option, some, [], ◌∷◌, length}
use nathra.Wire.Result.{ok, err, unsupported_node}
use nathra.Wire.Monad.{Put, ◌>>◌, write_u8, write_bytes}
use nathra.AstSerial.Fields.{
  write_node_field, write_node_list_field, write_string_field, write_int_field, write_op_field,
  write_header, write_cmpops, write_constant,
}
use nathra.AstSerial.Tags.{
  tag_module, tag_function_def, tag_class_def, tag_return, tag_raise, tag_expr_stmt, tag_if,
  tag_while, tag_for, tag_with, tag_assign, tag_aug_assign, tag_ann_assign, tag_assert, tag_break,
  tag_continue, tag_pass, tag_import, tag_import_from, tag_match, tag_constant, tag_name, tag_call,
  tag_attribute, tag_subscript, tag_bin_op, tag_unary_op, tag_bool_op, tag_compare, tag_if_exp,
  tag_tuple, tag_list, tag_set, tag_dict, tag_joined_str, tag_formatted_val, tag_list_comp,
  tag_lambda, tag_arguments, tag_arg, tag_keyword, tag_alias, tag_comprehension, tag_withitem,
  tag_match_case, tag_match_value, tag_match_or, tag_match_as,
}
use nathra.PyAst.{
  Node, none_node, stmt, expr, part, unlisted, Nodes, nil, cons, Stmt, function_def, class_def,
  return_stmt, raise_stmt, expr_stmt, if_stmt, while_stmt, for_stmt, with_stmt, assign, aug_assign,
  ann_assign, assert_stmt, break_stmt, continue_stmt, pass_stmt, import_stmt, import_from,
  match_stmt, Expr, constant, name, call, attribute, subscript, bin_op, unary_op, bool_op,
  comparison, if_exp, tuple, list, set, joined_str, dict, formatted_value, list_comp, lambda, Part,
  module_root, arguments, arg, keyword, alias, comprehension, withitem, match_case, match_value,
  match_or, match_as,
}

unfoldable mutual
  pub serialize : Node → Put
  serialize none_node = err (unsupported_node "NoneType")
  serialize (unlisted class) = err (unsupported_node class)
  serialize (stmt lineno s) = serialize_stmt s lineno
  serialize (expr lineno e) = serialize_expr e lineno
  serialize (part lineno p) = serialize_part p lineno

  pub serialize_all : Nodes → Put
  serialize_all nil = ok []
  serialize_all (cons n ns) = serialize n >> serialize_all ns

  pub serialize_stmt : Stmt → Option ℕ → Put
  serialize_stmt (function_def nm args body decorators returns) l = do
    write_header tag_function_def l
    write_string_field (some nm)
    serialize args
    write_node_list_field body (serialize_all body)
    write_node_list_field decorators (serialize_all decorators)
    write_node_field returns (serialize returns)
  serialize_stmt (class_def nm bases keywords body decorators) l = do
    write_header tag_class_def l
    write_string_field (some nm)
    write_node_list_field bases (serialize_all bases)
    write_node_list_field keywords (serialize_all keywords)
    write_node_list_field body (serialize_all body)
    write_node_list_field decorators (serialize_all decorators)
  serialize_stmt (return_stmt value) l = do
    write_header tag_return l
    write_node_field value (serialize value)
  serialize_stmt (raise_stmt exc) l = do
    write_header tag_raise l
    write_node_field exc (serialize exc)
  serialize_stmt (expr_stmt value) l = do
    write_header tag_expr_stmt l
    write_node_field value (serialize value)
  serialize_stmt (if_stmt test body orelse) l = do
    write_header tag_if l
    write_node_field test (serialize test)
    write_node_list_field body (serialize_all body)
    write_node_list_field orelse (serialize_all orelse)
  serialize_stmt (while_stmt test body orelse) l = do
    write_header tag_while l
    write_node_field test (serialize test)
    write_node_list_field body (serialize_all body)
  serialize_stmt (for_stmt target iter body orelse) l = do
    write_header tag_for l
    write_node_field target (serialize target)
    write_node_field iter (serialize iter)
    write_node_list_field body (serialize_all body)
  serialize_stmt (with_stmt items body) l = do
    write_header tag_with l
    write_node_list_field items (serialize_all items)
    write_node_list_field body (serialize_all body)
  serialize_stmt (assign targets value) l = do
    write_header tag_assign l
    write_node_list_field targets (serialize_all targets)
    write_node_field value (serialize value)
  serialize_stmt (aug_assign target op value) l = do
    write_header tag_aug_assign l
    write_node_field target (serialize target)
    write_op_field op
    write_node_field value (serialize value)
  serialize_stmt (ann_assign target annotation value) l = do
    write_header tag_ann_assign l
    write_node_field target (serialize target)
    write_node_field annotation (serialize annotation)
    write_node_field value (serialize value)
  serialize_stmt (assert_stmt test msg) l = do
    write_header tag_assert l
    write_node_field test (serialize test)
    write_node_field msg (serialize msg)
  serialize_stmt break_stmt l = write_header tag_break l
  serialize_stmt continue_stmt l = write_header tag_continue l
  serialize_stmt pass_stmt l = write_header tag_pass l
  serialize_stmt (import_stmt names) l = do
    write_header tag_import l
    write_node_list_field names (serialize_all names)
  serialize_stmt (import_from source names) l = do
    write_header tag_import_from l
    write_string_field source
    write_node_list_field names (serialize_all names)
  serialize_stmt (match_stmt subject cases) l = do
    write_header tag_match l
    write_node_field subject (serialize subject)
    write_node_list_field cases (serialize_all cases)

  pub serialize_expr : Expr → Option ℕ → Put
  serialize_expr (constant v) l = do write_header tag_constant l; write_constant v
  serialize_expr (name id) l = do write_header tag_name l; write_string_field (some id)
  serialize_expr (call func args keywords) l = do
    write_header tag_call l
    write_node_field func (serialize func)
    write_node_list_field args (serialize_all args)
    write_node_list_field keywords (serialize_all keywords)
  serialize_expr (attribute value attr) l = do
    write_header tag_attribute l
    write_node_field value (serialize value)
    write_string_field (some attr)
  serialize_expr (subscript value slice) l = do
    write_header tag_subscript l
    write_node_field value (serialize value)
    write_node_field slice (serialize slice)
  serialize_expr (bin_op left op right) l = do
    write_header tag_bin_op l
    write_node_field left (serialize left)
    write_op_field op
    write_node_field right (serialize right)
  serialize_expr (unary_op op operand) l = do
    write_header tag_unary_op l
    write_op_field op
    write_node_field operand (serialize operand)
  serialize_expr (bool_op op values) l = do
    write_header tag_bool_op l
    write_op_field op
    write_node_list_field values (serialize_all values)
  serialize_expr (comparison left ops comparators) l = do
    write_header tag_compare l
    write_node_field left (serialize left)
    write_u8 (length ops)
    write_cmpops ops
    write_node_list_field comparators (serialize_all comparators)
  serialize_expr (if_exp test body orelse) l = do
    write_header tag_if_exp l
    write_node_field test (serialize test)
    write_node_field body (serialize body)
    write_node_field orelse (serialize orelse)
  serialize_expr (tuple elts) l = do
    write_header tag_tuple l
    write_node_list_field elts (serialize_all elts)
  serialize_expr (list elts) l = do
    write_header tag_list l
    write_node_list_field elts (serialize_all elts)
  serialize_expr (set elts) l = do
    write_header tag_set l
    write_node_list_field elts (serialize_all elts)
  serialize_expr (joined_str values) l = do
    write_header tag_joined_str l
    write_node_list_field values (serialize_all values)
  serialize_expr (dict keys values) l = do
    write_header tag_dict l
    write_node_list_field keys (serialize_all keys)
    write_node_list_field values (serialize_all values)
  serialize_expr (formatted_value value conversion format_spec) l = do
    write_header tag_formatted_val l
    write_node_field value (serialize value)
    write_int_field conversion
    write_node_field format_spec (serialize format_spec)
  serialize_expr (list_comp elt generators) l = do
    write_header tag_list_comp l
    write_node_field elt (serialize elt)
    write_node_list_field generators (serialize_all generators)
  serialize_expr (lambda args body) l = do
    write_header tag_lambda l
    serialize args
    write_node_field body (serialize body)

  pub serialize_part : Part → Option ℕ → Put
  serialize_part (module_root body) l = do
    write_header tag_module l
    write_node_list_field body (serialize_all body)
  serialize_part (arguments args vararg defaults) l = do
    write_header tag_arguments l
    write_node_list_field args (serialize_all args)
    write_node_field vararg (serialize vararg)
    write_node_list_field defaults (serialize_all defaults)
  serialize_part (arg nm annotation) l = do
    write_header tag_arg l
    write_string_field (some nm)
    write_node_field annotation (serialize annotation)
  serialize_part (keyword nm value) l = do
    write_header tag_keyword l
    write_string_field nm
    write_node_field value (serialize value)
  serialize_part (alias nm asname) l = do
    write_header tag_alias l
    write_string_field (some nm)
    write_string_field asname
  serialize_part (comprehension target iter ifs) l = do
    write_header tag_comprehension l
    write_node_field target (serialize target)
    write_node_field iter (serialize iter)
    write_node_list_field ifs (serialize_all ifs)
  serialize_part (withitem context_expr optional_vars) l = do
    write_header tag_withitem l
    write_node_field context_expr (serialize context_expr)
    write_node_field optional_vars (serialize optional_vars)
  serialize_part (match_case pat guard body) l = do
    write_header tag_match_case l
    write_node_field pat (serialize pat)
    write_node_field guard (serialize guard)
    write_node_list_field body (serialize_all body)
  serialize_part (match_value value) l = do
    write_header tag_match_value l
    write_node_field value (serialize value)
  serialize_part (match_or patterns) l = do
    write_header tag_match_or l
    write_node_list_field patterns (serialize_all patterns)
  serialize_part (match_as pat nm) l = do
    write_header tag_match_as l
    write_node_field pat (serialize pat)
    write_string_field nm

unfoldable pub serialize_tree : Node → Put
unfolding serialize
serialize_tree tree = do write_bytes (b'M' ∷ b'P' ∷ b'Y' ∷ b'A' ∷ []); serialize tree
