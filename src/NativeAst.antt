-- ===== src/NativeAst.antt =====
-- native/src/ast_nodes.py: the native compiler's reader of the binary trees.
pub mod Types
pub mod Fields
pub mod Stmts
pub mod Exprs
pub mod Parts
pub mod ReadNode
pub mod Count
pub mod Describe
pub mod RoundTrip
