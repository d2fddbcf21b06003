-- ===== src/NativeAst/Stmts.antt =====
-- native/src/ast_nodes.py: the readers of the module and of statements. `self` is `ast_read_node`.

use nathra.Wire.Monad.{Reader, ◌>>=◌, pure}
use nathra.NativeAst.Types.{
  AstNode, Payload, ast_module, ast_function_def, ast_class_def, ast_return, ast_raise,
  ast_expr_stmt, ast_if, ast_while, ast_for, ast_with, ast_assign, ast_aug_assign, ast_ann_assign,
  ast_assert, ast_import, ast_import_from, ast_match,
}
use nathra.NativeAst.Fields.{
  ast_read_node_field, ast_read_node_list, ast_read_string_field, ast_read_op_field,
}

unfoldable pub ast_read_module : Reader AstNode → Reader Payload
ast_read_module self = do body ← ast_read_node_list self; pure (ast_module body)

unfoldable pub ast_read_function_def : Reader AstNode → Reader Payload
ast_read_function_def self = do
  name ← ast_read_string_field
  args ← self
  body ← ast_read_node_list self
  decorators ← ast_read_node_list self
  returns ← ast_read_node_field self
  pure (ast_function_def name args body decorators returns)

unfoldable pub ast_read_class_def : Reader AstNode → Reader Payload
ast_read_class_def self = do
  name ← ast_read_string_field
  bases ← ast_read_node_list self
  keywords ← ast_read_node_list self
  body ← ast_read_node_list self
  decorators ← ast_read_node_list self
  pure (ast_class_def name bases keywords body decorators)

unfoldable pub ast_read_return : Reader AstNode → Reader Payload
ast_read_return self = do value ← ast_read_node_field self; pure (ast_return value)

unfoldable pub ast_read_raise : Reader AstNode → Reader Payload
ast_read_raise self = do exc ← ast_read_node_field self; pure (ast_raise exc)

unfoldable pub ast_read_expr_stmt : Reader AstNode → Reader Payload
ast_read_expr_stmt self = do value ← ast_read_node_field self; pure (ast_expr_stmt value)

unfoldable pub ast_read_if : Reader AstNode → Reader Payload
ast_read_if self = do
  test ← ast_read_node_field self
  body ← ast_read_node_list self
  orelse ← ast_read_node_list self
  pure (ast_if test body orelse)

unfoldable pub ast_read_while : Reader AstNode → Reader Payload
ast_read_while self = do
  test ← ast_read_node_field self
  body ← ast_read_node_list self
  pure (ast_while test body)

unfoldable pub ast_read_for : Reader AstNode → Reader Payload
ast_read_for self = do
  target ← ast_read_node_field self
  iter ← ast_read_node_field self
  body ← ast_read_node_list self
  pure (ast_for target iter body)

unfoldable pub ast_read_with : Reader AstNode → Reader Payload
ast_read_with self = do
  items ← ast_read_node_list self
  body ← ast_read_node_list self
  pure (ast_with items body)

unfoldable pub ast_read_assign : Reader AstNode → Reader Payload
ast_read_assign self = do
  targets ← ast_read_node_list self
  value ← ast_read_node_field self
  pure (ast_assign targets value)

unfoldable pub ast_read_aug_assign : Reader AstNode → Reader Payload
ast_read_aug_assign self = do
  target ← ast_read_node_field self
  op ← ast_read_op_field
  value ← ast_read_node_field self
  pure (ast_aug_assign target op value)

unfoldable pub ast_read_ann_assign : Reader AstNode → Reader Payload
ast_read_ann_assign self = do
  target ← ast_read_node_field self
  annotation ← ast_read_node_field self
  value ← ast_read_node_field self
  pure (ast_ann_assign target annotation value)

unfoldable pub ast_read_assert : Reader AstNode → Reader Payload
ast_read_assert self = do
  test ← ast_read_node_field self
  msg ← ast_read_node_field self
  pure (ast_assert test msg)

unfoldable pub ast_read_import : Reader AstNode → Reader Payload
ast_read_import self = do names ← ast_read_node_list self; pure (ast_import names)

unfoldable pub ast_read_import_from : Reader AstNode → Reader Payload
ast_read_import_from self = do
  source ← ast_read_string_field
  names ← ast_read_node_list self
  pure (ast_import_from source names)

unfoldable pub ast_read_match : Reader AstNode → Reader Payload
ast_read_match self = do
  subject ← ast_read_node_field self
  cases ← ast_read_node_list self
  pure (ast_match subject cases)
