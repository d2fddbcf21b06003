-- ===== src/NativeAst/ReadNode.antt =====
-- native/src/ast_nodes.py: `ast_read_node` and `deserialize_ast`.
use nathra.Common.{ℕ, zero, suc, ◌==◌, length, drop}
use nathra.Wire.Result.{Result, bind, ok, out_of_fuel}
use nathra.Wire.Bytes.{Bytes}
use nathra.Wire.Monad.{Reader, ◌>>=◌, pure, fail, when◌then◌otherwise◌}
use nathra.NativeAst.Types.{AstNode, node, Payload, no_data}
use nathra.NativeAst.Fields.{nr_read_u8, nr_read_u16}
use nathra.NativeAst.Stmts.{
  ast_read_module, ast_read_function_def, ast_read_class_def, ast_read_return, ast_read_raise,
  ast_read_expr_stmt, ast_read_if, ast_read_while, ast_read_for, ast_read_with, ast_read_assign,
  ast_read_aug_assign, ast_read_ann_assign, ast_read_assert, ast_read_import, ast_read_import_from,
  ast_read_match,
}
use nathra.NativeAst.Exprs.{
  ast_read_constant, ast_read_name, ast_read_call, ast_read_attribute, ast_read_subscript,
  ast_read_binop, ast_read_unaryop, ast_read_boolop, ast_read_compare, ast_read_ifexp,
  ast_read_tuple, ast_read_list, ast_read_set, ast_read_dict, ast_read_joined_str,
  ast_read_formatted_value, ast_read_list_comp, ast_read_lambda,
}
use nathra.NativeAst.Parts.{
  ast_read_arguments, ast_read_arg, ast_read_keyword, ast_read_alias, ast_read_comprehension,
  ast_read_withitem, ast_read_match_case, ast_read_match_value, ast_read_match_or,
  ast_read_match_as,
}

-- The match on the tag, in order; an unknown tag leaves the node without data. From 60 on:
unfoldable pub ast_read_part_data : Reader AstNode → ℕ → Reader Payload
ast_read_part_data self tag =
    when tag == 60
    then ast_read_arguments self
    otherwise when tag == 61
    then ast_read_arg self
    otherwise when tag == 62
    then ast_read_keyword self
    otherwise when tag == 63
    then ast_read_alias self
    otherwise when tag == 64
    then ast_read_comprehension self
    otherwise when tag == 65
    then ast_read_withitem self
    otherwise when tag == 66
    then ast_read_match_case self
    otherwise when tag == 67
    then ast_read_match_value self
    otherwise when tag == 68
    then ast_read_match_or self
    otherwise when tag == 69
    then ast_read_match_as self
    otherwise pure no_data

-- From 30 on:
unfoldable pub ast_read_expr_data : Reader AstNode → ℕ → Reader Payload
unfolding ast_read_part_data
ast_read_expr_data self tag =
    when tag == 30
    then ast_read_constant self
    otherwise when tag == 31
    then ast_read_name self
    otherwise when tag == 32
    then ast_read_call self
    otherwise when tag == 33
    then ast_read_attribute self
    otherwise when tag == 34
    then ast_read_subscript self
    otherwise when tag == 35
    then ast_read_binop self
    otherwise when tag == 36
    then ast_read_unaryop self
    otherwise when tag == 37
    then ast_read_boolop self
    otherwise when tag == 38
    then ast_read_compare self
    otherwise when tag == 39
    then ast_read_ifexp self
    otherwise when tag == 40
    then ast_read_tuple self
    otherwise when tag == 41
    then ast_read_list self
    otherwise when tag == 42
    then ast_read_set self
    otherwise when tag == 43
    then ast_read_dict self
    otherwise when tag == 44
    then ast_read_joined_str self
    otherwise when tag == 45
    then ast_read_formatted_value self
    otherwise when tag == 46
    then ast_read_list_comp self
    otherwise when tag == 47
    then ast_read_lambda self
    otherwise ast_read_part_data self tag

-- All of it:
unfoldable pub ast_read_data : Reader AstNode → ℕ → Reader Payload
unfolding ast_read_expr_data
ast_read_data self tag =
    when tag == 0
    then ast_read_module self
    otherwise when tag == 1
    then ast_read_function_def self
    otherwise when tag == 2
    then ast_read_class_def self
    otherwise when tag == 3
    then ast_read_return self
    otherwise when tag == 4
    then ast_read_raise self
    otherwise when tag == 5
    then ast_read_expr_stmt self
    otherwise when tag == 6
    then ast_read_if self
    otherwise when tag == 7
    then ast_read_while self
    otherwise when tag == 8
    then ast_read_for self
    otherwise when tag == 9
    then ast_read_with self
    otherwise when tag == 10
    then ast_read_assign self
    otherwise when tag == 11
    then ast_read_aug_assign self
    otherwise when tag == 12
    then ast_read_ann_assign self
    otherwise when tag == 13
    then ast_read_assert self
    otherwise when tag == 14
    then pure no_data
    otherwise when tag == 15
    then pure no_data
    otherwise when tag == 16
    then pure no_data
    otherwise when tag == 17
    then ast_read_import self
    otherwise when tag == 18
    then ast_read_import_from self
    otherwise when tag == 19
    then ast_read_match self
    otherwise ast_read_expr_data self tag

-- A node takes three bytes at least, so each level of the recursion costs a unit of fuel.
unfoldable pub ast_read_node : ℕ → Reader AstNode
unfolding nr_read_u8 nr_read_u16
ast_read_node zero = fail out_of_fuel
ast_read_node (suc fuel) = do
  tag ← nr_read_u8
  lineno ← nr_read_u16
  payload ← ast_read_data (ast_read_node fuel) tag
  pure (node tag lineno payload)

-- The reader starts at `buf + 4`; the magic number is skipped, not checked.
unfoldable pub deserialize_ast : Bytes → Result AstNode
deserialize_ast buf = bind (ast_read_node (suc (length buf)) (drop 4 buf)) λ (root, _). ok root
