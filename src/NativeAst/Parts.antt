-- ===== src/NativeAst/Parts.antt =====
-- native/src/ast_nodes.py: the readers of helper nodes. `self` is `ast_read_node`.

use nathra.Wire.Monad.{Reader, ◌>>=◌, pure}
use nathra.NativeAst.Types.{
  AstNode, Payload, ast_arguments, ast_arg, ast_keyword, ast_alias, ast_comprehension,
  ast_with_item, ast_match_case, ast_match_value, ast_match_or, ast_match_as,
}
use nathra.NativeAst.Fields.{ast_read_node_field, ast_read_node_list, ast_read_string_field}

unfoldable pub ast_read_arguments : Reader AstNode → Reader Payload
ast_read_arguments self = do
  args ← ast_read_node_list self
  vararg ← ast_read_node_field self
  defaults ← ast_read_node_list self
  pure (ast_arguments args vararg defaults)

unfoldable pub ast_read_arg : Reader AstNode → Reader Payload
ast_read_arg self = do
  name ← ast_read_string_field
  annotation ← ast_read_node_field self
  pure (ast_arg name annotation)

unfoldable pub ast_read_keyword : Reader AstNode → Reader Payload
ast_read_keyword self = do
  name ← ast_read_string_field
  value ← ast_read_node_field self
  pure (ast_keyword name value)

unfoldable pub ast_read_alias : Reader AstNode → Reader Payload
ast_read_alias self = do
  name ← ast_read_string_field
  asname ← ast_read_string_field
  pure (ast_alias name asname)

unfoldable pub ast_read_comprehension : Reader AstNode → Reader Payload
ast_read_comprehension self = do
  target ← ast_read_node_field self
  iter ← ast_read_node_field self
  ifs ← ast_read_node_list self
  pure (ast_comprehension target iter ifs)

unfoldable pub ast_read_withitem : Reader AstNode → Reader Payload
ast_read_withitem self = do
  context_expr ← ast_read_node_field self
  optional_vars ← ast_read_node_field self
  pure (ast_with_item context_expr optional_vars)

unfoldable pub ast_read_match_case : Reader AstNode → Reader Payload
ast_read_match_case self = do
  pat ← ast_read_node_field self
  guard ← ast_read_node_field self
  body ← ast_read_node_list self
  pure (ast_match_case pat guard body)

unfoldable pub ast_read_match_value : Reader AstNode → Reader Payload
ast_read_match_value self = do value ← ast_read_node_field self; pure (ast_match_value value)

unfoldable pub ast_read_match_or : Reader AstNode → Reader Payload
ast_read_match_or self = do patterns ← ast_read_node_list self; pure (ast_match_or patterns)

unfoldable pub ast_read_match_as : Reader AstNode → Reader Payload
ast_read_match_as self = do
  pat ← ast_read_node_field self
  name ← ast_read_string_field
  pure (ast_match_as pat name)
