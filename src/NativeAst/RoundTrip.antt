-- ===== src/NativeAst/RoundTrip.antt =====
-- The bridge: what compiler/ast_serial.py writes, native/src/ast_nodes.py reads.
mod Fields
mod Nodes
pub mod Trees
pub mod Strings
