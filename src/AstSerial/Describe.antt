-- ===== src/AstSerial/Describe.antt =====
-- What a tree of compiler/ast_serial.py is, as the dicts that reading it is to give: the
-- specification of the round trip. The format has no place for the else block of a loop.
use nathra.Common.{ℕ, Option, none, some, List, [], ◌∷◌, pos}
use nathra.Wire.Utf8.{PyStr}
use nathra.AstSerial.Tags.{
  Tag, code, tag_module, tag_function_def, tag_class_def, tag_return, tag_raise, tag_expr_stmt,
  tag_if, tag_while, tag_for, tag_with, tag_assign, tag_aug_assign, tag_ann_assign, tag_assert,
  tag_break, tag_continue, tag_pass, tag_import, tag_import_from, tag_match, tag_constant, tag_name,
  tag_call, tag_attribute, tag_subscript, tag_bin_op, tag_unary_op, tag_bool_op, tag_compare,
  tag_if_exp, tag_tuple, tag_list, tag_set, tag_dict, tag_joined_str, tag_formatted_val,
  tag_list_comp, tag_lambda, tag_arguments, tag_arg, tag_keyword, tag_alias, tag_comprehension,
  tag_withitem, tag_match_case, tag_match_value, tag_match_or, tag_match_as,
}
use nathra.PyAst.{
  Operator, Constant, Node, none_node, stmt, expr, part, unlisted, Nodes, Stmt, function_def,
  class_def, return_stmt, raise_stmt, expr_stmt, if_stmt, while_stmt, for_stmt, with_stmt, assign,
  aug_assign, ann_assign, assert_stmt, break_stmt, continue_stmt, pass_stmt, import_stmt,
  import_from, match_stmt, Expr, constant, name, call, attribute, subscript, bin_op, unary_op,
  bool_op, comparison, if_exp, tuple, set, joined_str, dict, formatted_value, list_comp, lambda,
  Part, module_root, arguments, arg, keyword, alias, comprehension, withitem, match_case,
  match_value, match_or, match_as,
}
use nathra.PyAst
use nathra.PyAst.{
  add, sub, mult, div, mod_op, pow, floor_div, lshift, rshift, bit_or, bit_xor, bit_and, uadd, usub,
  not_op, invert, and_op, or_op, eq, not_eq, lt, lt_e, gt, gt_e, is_op, is_not, in_op, not_in,
  mat_mult,
}
use nathra.AstSerial.Value.{
  Value, none_value, int, str, op, list, node, Values, nil, cons, Fields, end, field,
}

-- The number of an operator on the wire; `MatMult` has none.
unfoldable pub op_number : Operator → ℕ
op_number add = 0
op_number sub = 1
op_number mult = 2
op_number div = 3
op_number mod_op = 4
op_number pow = 5
op_number floor_div = 6
op_number lshift = 7
op_number rshift = 8
op_number bit_or = 9
op_number bit_xor = 10
op_number bit_and = 11
op_number uadd = 20
op_number usub = 21
op_number not_op = 22
op_number invert = 23
op_number and_op = 30
op_number or_op = 31
op_number eq = 40
op_number not_eq = 41
op_number lt = 42
op_number lt_e = 43
op_number gt = 44
op_number gt_e = 45
op_number is_op = 46
op_number is_not = 47
op_number in_op = 48
op_number not_in = 49
op_number mat_mult = 0

abbrev pub describe_str : Option PyStr → Value
describe_str none = none_value
describe_str (some s) = str s

unfoldable pub describe_ops : List Operator → Values
unfolding op_number
describe_ops [] = nil
describe_ops (o ∷ ops) = cons (int (pos (op_number o))) (describe_ops ops)

abbrev pub describe_constant : PyAst.Constant → Fields
describe_constant (PyAst.bool b) =
    field "value" (Value.bool b) (field "const_kind" (int (pos 3)) end)
describe_constant (PyAst.int z) = field "value" (int z) (field "const_kind" (int (pos 0)) end)
describe_constant (PyAst.float x) =
    field "value" (Value.float x) (field "const_kind" (int (pos 1)) end)
describe_constant (PyAst.str s) = field "value" (str s) (field "const_kind" (int (pos 2)) end)
describe_constant PyAst.none_value = field "value" none_value (field "const_kind" (int (pos 4)) end)
describe_constant PyAst.ellipsis =
    field "value" Value.ellipsis (field "const_kind" (int (pos 5)) end)
describe_constant PyAst.other = end

abbrev pub lineno_or_zero : Option ℕ → ℕ
lineno_or_zero none = 0
lineno_or_zero (some l) = l

abbrev pub stmt_tag : Stmt → Tag
stmt_tag (function_def _ _ _ _ _) = tag_function_def
stmt_tag (class_def _ _ _ _ _) = tag_class_def
stmt_tag (return_stmt _) = tag_return
stmt_tag (raise_stmt _) = tag_raise
stmt_tag (expr_stmt _) = tag_expr_stmt
stmt_tag (if_stmt _ _ _) = tag_if
stmt_tag (while_stmt _ _ _) = tag_while
stmt_tag (for_stmt _ _ _ _) = tag_for
stmt_tag (with_stmt _ _) = tag_with
stmt_tag (assign _ _) = tag_assign
stmt_tag (aug_assign _ _ _) = tag_aug_assign
stmt_tag (ann_assign _ _ _) = tag_ann_assign
stmt_tag (assert_stmt _ _) = tag_assert
stmt_tag break_stmt = tag_break
stmt_tag continue_stmt = tag_continue
stmt_tag pass_stmt = tag_pass
stmt_tag (import_stmt _) = tag_import
stmt_tag (import_from _ _) = tag_import_from
stmt_tag (match_stmt _ _) = tag_match

abbrev pub expr_tag : Expr → Tag
expr_tag (constant _) = tag_constant
expr_tag (name _) = tag_name
expr_tag (call _ _ _) = tag_call
expr_tag (attribute _ _) = tag_attribute
expr_tag (subscript _ _) = tag_subscript
expr_tag (bin_op _ _ _) = tag_bin_op
expr_tag (unary_op _ _) = tag_unary_op
expr_tag (bool_op _ _) = tag_bool_op
expr_tag (comparison _ _ _) = tag_compare
expr_tag (if_exp _ _ _) = tag_if_exp
expr_tag (tuple _) = tag_tuple
expr_tag (PyAst.list _) = tag_list
expr_tag (set _) = tag_set
expr_tag (joined_str _) = tag_joined_str
expr_tag (dict _ _) = tag_dict
expr_tag (formatted_value _ _ _) = tag_formatted_val
expr_tag (list_comp _ _) = tag_list_comp
expr_tag (lambda _ _) = tag_lambda

abbrev pub part_tag : Part → Tag
part_tag (module_root _) = tag_module
part_tag (arguments _ _ _) = tag_arguments
part_tag (arg _ _) = tag_arg
part_tag (keyword _ _) = tag_keyword
part_tag (alias _ _) = tag_alias
part_tag (comprehension _ _ _) = tag_comprehension
part_tag (withitem _ _) = tag_withitem
part_tag (match_case _ _ _) = tag_match_case
part_tag (match_value _) = tag_match_value
part_tag (match_or _) = tag_match_or
part_tag (match_as _ _) = tag_match_as

-- The dict of a node with that tag number and line number: the two come first, under their names.
abbrev pub described : ℕ → ℕ → Fields → Value
described tag lineno fs = node (field "tag" (int (pos tag)) (field "lineno" (int (pos lineno)) fs))

unfoldable mutual
  pub describe : Node → Value
  describe none_node = none_value
  describe (unlisted class) = none_value
  describe (stmt l s) = described (code (stmt_tag s)) (lineno_or_zero l) (describe_stmt s)
  describe (expr l e) = described (code (expr_tag e)) (lineno_or_zero l) (describe_expr e)
  describe (part l p) = described (code (part_tag p)) (lineno_or_zero l) (describe_part p)

  pub describe_all : PyAst.Nodes → Values
  describe_all PyAst.nil = nil
  describe_all (PyAst.cons n ns) = cons (describe n) (describe_all ns)

  pub describe_stmt : Stmt → Fields
  describe_stmt (function_def nm args body decorators returns) = field "name" (str nm) (
      field "args" (describe args) (
        field "body" (list (describe_all body)) (
          field "decorators" (list (describe_all decorators))
            (field "returns" (describe returns) end))))
  describe_stmt (class_def nm bases keywords body decorators) = field "name" (str nm) (
      field "bases" (list (describe_all bases)) (
        field "keywords" (list (describe_all keywords)) (
          field "body" (list (describe_all body))
            (field "decorators" (list (describe_all decorators)) end))))
  describe_stmt (return_stmt value) = field "value" (describe value) end
  describe_stmt (raise_stmt exc) = field "exc" (describe exc) end
  describe_stmt (expr_stmt value) = field "value" (describe value) end
  describe_stmt (if_stmt test body orelse) =
      field "test" (describe test)
        (field "body" (list (describe_all body)) (field "orelse" (list (describe_all orelse)) end))
  describe_stmt (while_stmt test body orelse) =
      field "test" (describe test) (field "body" (list (describe_all body)) end)
  describe_stmt (for_stmt target iter body orelse) =
      field "target" (describe target)
        (field "iter" (describe iter) (field "body" (list (describe_all body)) end))
  describe_stmt (with_stmt items body) =
      field "items" (list (describe_all items)) (field "body" (list (describe_all body)) end)
  describe_stmt (assign targets value) =
      field "targets" (list (describe_all targets)) (field "value" (describe value) end)
  describe_stmt (aug_assign target o value) =
      field "target" (describe target)
        (field "op" (op (op_number o)) (field "value" (describe value) end))
  describe_stmt (ann_assign target annotation value) =
      field "target" (describe target)
        (field "annotation" (describe annotation) (field "value" (describe value) end))
  describe_stmt (assert_stmt test msg) =
      field "test" (describe test) (field "msg" (describe msg) end)
  describe_stmt break_stmt = end
  describe_stmt continue_stmt = end
  describe_stmt pass_stmt = end
  describe_stmt (import_stmt names) = field "names" (list (describe_all names)) end
  describe_stmt (import_from source names) =
      field "module" (describe_str source) (field "names" (list (describe_all names)) end)
  describe_stmt (match_stmt subject cases) =
      field "subject" (describe subject) (field "cases" (list (describe_all cases)) end)

  pub describe_expr : Expr → Fields
  describe_expr (constant v) = describe_constant v
  describe_expr (name id) = field "id" (str id) end
  describe_expr (call func args keywords) = field "func" (describe func) (
      field "args" (list (describe_all args)) (field "keywords" (list (describe_all keywords)) end))
  describe_expr (attribute value attr) =
      field "value" (describe value) (field "attr" (str attr) end)
  describe_expr (subscript value slice) =
      field "value" (describe value) (field "slice" (describe slice) end)
  describe_expr (bin_op left o right) =
      field "left" (describe left)
        (field "op" (op (op_number o)) (field "right" (describe right) end))
  describe_expr (unary_op o operand) =
      field "op" (op (op_number o)) (field "operand" (describe operand) end)
  describe_expr (bool_op o values) =
      field "op" (op (op_number o)) (field "values" (list (describe_all values)) end)
  describe_expr (comparison left ops comparators) = field "left" (describe left) (
      field "ops" (list (describe_ops ops))
        (field "comparators" (list (describe_all comparators)) end))
  describe_expr (if_exp test body orelse) =
      field "test" (describe test)
        (field "body" (describe body) (field "orelse" (describe orelse) end))
  describe_expr (tuple elts) = field "elts" (list (describe_all elts)) end
  describe_expr (PyAst.list elts) = field "elts" (list (describe_all elts)) end
  describe_expr (set elts) = field "elts" (list (describe_all elts)) end
  describe_expr (joined_str values) = field "values" (list (describe_all values)) end
  describe_expr (dict keys values) =
      field "keys" (list (describe_all keys)) (field "values" (list (describe_all values)) end)
  describe_expr (formatted_value value conversion format_spec) =
      field "value" (describe value)
        (field "conversion" (int conversion) (field "format_spec" (describe format_spec) end))
  describe_expr (list_comp elt generators) =
      field "elt" (describe elt) (field "generators" (list (describe_all generators)) end)
  describe_expr (lambda args body) = field "args" (describe args) (field "body" (describe body) end)

  pub describe_part : Part → Fields
  describe_part (module_root body) = field "body" (list (describe_all body)) end
  describe_part (arguments args vararg defaults) =
      field "args" (list (describe_all args))
        (field "vararg" (describe vararg) (field "defaults" (list (describe_all defaults)) end))
  describe_part (arg nm annotation) =
      field "arg" (str nm) (field "annotation" (describe annotation) end)
  describe_part (keyword nm value) =
      field "arg" (describe_str nm) (field "value" (describe value) end)
  describe_part (alias nm asname) = field "name" (str nm) (field "asname" (describe_str asname) end)
  describe_part (comprehension target iter ifs) =
      field "target" (describe target)
        (field "iter" (describe iter) (field "ifs" (list (describe_all ifs)) end))
  describe_part (withitem context_expr optional_vars) =
      field "context_expr" (describe context_expr)
        (field "optional_vars" (describe optional_vars) end)
  describe_part (match_case pat guard body) =
      field "pattern" (describe pat)
        (field "guard" (describe guard) (field "body" (list (describe_all body)) end))
  describe_part (match_value value) = field "value" (describe value) end
  describe_part (match_or patterns) = field "patterns" (list (describe_all patterns)) end
  describe_part (match_as pat nm) =
      field "pattern" (describe pat) (field "name" (describe_str nm) end)
