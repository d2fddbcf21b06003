-- ===== src/AstSerial/Tags.antt =====
-- compiler/ast_serial.py: the numbers of the node types, the field kinds and the operators.
use nathra.Common.{ℕ, Option, none, some}
use nathra.PyAst.{
  Operator, add, sub, mult, div, mod_op, pow, floor_div, lshift, rshift, bit_or, bit_xor, bit_and,
  uadd, usub, not_op, invert, and_op, or_op, eq, not_eq, lt, lt_e, gt, gt_e, is_op, is_not, in_op,
  not_in,
}

-- The constants `TAG_…`.
pub data Tag : Type 0 where
  tag_module tag_function_def tag_class_def tag_return tag_raise tag_expr_stmt tag_if : Tag
  tag_while tag_for tag_with tag_assign tag_aug_assign tag_ann_assign tag_assert : Tag
  tag_break tag_continue tag_pass tag_import tag_import_from tag_match : Tag
  tag_constant tag_name tag_call tag_attribute tag_subscript tag_bin_op tag_unary_op : Tag
  tag_bool_op tag_compare tag_if_exp tag_tuple tag_list tag_set tag_dict tag_joined_str : Tag
  tag_formatted_val tag_list_comp tag_lambda : Tag
  tag_arguments tag_arg tag_keyword tag_alias tag_comprehension tag_withitem : Tag
  tag_match_case tag_match_value tag_match_or tag_match_as : Tag

abbrev pub code : Tag → ℕ
code tag_module = 0
code tag_function_def = 1
code tag_class_def = 2
code tag_return = 3
code tag_raise = 4
code tag_expr_stmt = 5
code tag_if = 6
code tag_while = 7
code tag_for = 8
code tag_with = 9
code tag_assign = 10
code tag_aug_assign = 11
code tag_ann_assign = 12
code tag_assert = 13
code tag_break = 14
code tag_continue = 15
code tag_pass = 16
code tag_import = 17
code tag_import_from = 18
code tag_match = 19
code tag_constant = 30
code tag_name = 31
code tag_call = 32
code tag_attribute = 33
code tag_subscript = 34
code tag_bin_op = 35
code tag_unary_op = 36
code tag_bool_op = 37
code tag_compare = 38
code tag_if_exp = 39
code tag_tuple = 40
code tag_list = 41
code tag_set = 42
code tag_dict = 43
code tag_joined_str = 44
code tag_formatted_val = 45
code tag_list_comp = 46
code tag_lambda = 47
code tag_arguments = 60
code tag_arg = 61
code tag_keyword = 62
code tag_alias = 63
code tag_comprehension = 64
code tag_withitem = 65
code tag_match_case = 66
code tag_match_value = 67
code tag_match_or = 68
code tag_match_as = 69

-- The constants `FK_…`.
pub data FieldKind : Type 0 where
  fk_node fk_node_list fk_string fk_int fk_float fk_bool fk_op fk_none : FieldKind

abbrev pub kind_code : FieldKind → ℕ
kind_code fk_node = 0
kind_code fk_node_list = 1
kind_code fk_string = 2
kind_code fk_int = 3
kind_code fk_float = 4
kind_code fk_bool = 5
kind_code fk_op = 6
kind_code fk_none = 7

-- `_BINOP_MAP`, with the constants `OP_…` that it names.
unfoldable pub binop_map : Operator → Option ℕ
binop_map add = some 0
binop_map sub = some 1
binop_map mult = some 2
binop_map div = some 3
binop_map mod_op = some 4
binop_map pow = some 5
binop_map floor_div = some 6
binop_map lshift = some 7
binop_map rshift = some 8
binop_map bit_or = some 9
binop_map bit_xor = some 10
binop_map bit_and = some 11
binop_map _ = none

-- `_UNARYOP_MAP`
unfoldable pub unaryop_map : Operator → Option ℕ
unaryop_map uadd = some 20
unaryop_map usub = some 21
unaryop_map not_op = some 22
unaryop_map invert = some 23
unaryop_map _ = none

-- `_BOOLOP_MAP`
unfoldable pub boolop_map : Operator → Option ℕ
boolop_map and_op = some 30
boolop_map or_op = some 31
boolop_map _ = none

-- `_CMPOP_MAP`
unfoldable pub cmpop_map : Operator → Option ℕ
cmpop_map eq = some 40
cmpop_map not_eq = some 41
cmpop_map lt = some 42
cmpop_map lt_e = some 43
cmpop_map gt = some 44
cmpop_map gt_e = some 45
cmpop_map is_op = some 46
cmpop_map is_not = some 47
cmpop_map in_op = some 48
cmpop_map not_in = some 49
cmpop_map _ = none
