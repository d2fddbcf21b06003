-- ===== src/NativeAst/Count.antt =====
-- native/src/ast_nodes.py, `ast_count_nodes`.
use nathra.Common.{ℕ, ◌+◌}
use nathra.NativeAst.Types.{
  AstNode, null, node, AstNodes, nil, cons, Payload, ast_module, ast_function_def, ast_return,
  ast_expr_stmt, ast_ann_assign, ast_call, ast_bin_op, ast_arguments, ast_arg,
}

unfoldable mutual
  -- The constructor of the payload stands for the tag.
  pub ast_count_nodes : AstNode → ℕ
  ast_count_nodes null = 0
  ast_count_nodes (node tag lineno payload) = 1 + count_below payload

  pub count_all : AstNodes → ℕ
  count_all nil = 0
  count_all (cons x xs) = ast_count_nodes x + count_all xs

  -- What a node of each kind adds for its parts; a kind that is not listed adds nothing.
  pub count_below : Payload → ℕ
  count_below (ast_module body) = count_all body
  count_below (ast_function_def name args body decorators returns) =
      ast_count_nodes args + count_all body + count_all decorators + ast_count_nodes returns
  count_below (ast_call func args keywords) = ast_count_nodes func + count_all args
  count_below (ast_bin_op left op right) = ast_count_nodes left + ast_count_nodes right
  count_below (ast_return value) = ast_count_nodes value
  count_below (ast_expr_stmt value) = ast_count_nodes value
  count_below (ast_ann_assign target annotation value) =
      ast_count_nodes target + ast_count_nodes annotation + ast_count_nodes value
  count_below (ast_arguments args vararg defaults) = count_all args + ast_count_nodes vararg
  count_below (ast_arg name annotation) = ast_count_nodes annotation
  count_below _ = 0
