-- ===== src/NativeAst/RoundTrip/Trees.antt =====
-- The bridge for whole trees: `serialize` of compiler/ast_serial.py, then `deserialize_ast` of
-- native/src/ast_nodes.py.
use nathra.Common.{ℕ, suc, ◌≡◌, subst, [], ◌++◌, append-nil, arith, length}
use nathra.Wire.Result.{ok}
use nathra.Wire.Bytes.{Bytes}
use nathra.Wire.Reads.{Reads}
use nathra.PyAst.{Node}
use nathra.AstSerial.Writer.{serialize, serialize_tree}
use nathra.AstSerial.ReadNode.{mpya}
use nathra.AstSerial.RoundTrip.Trees.{serialize_tree-magic}
use nathra.NativeAst.ReadNode.{ast_read_node, deserialize_ast}
use nathra.NativeAst.Describe.{native}
use nathra.NativeAst.RoundTrip.Nodes.{node-Reads}

-- When a tree serializes to bytes, deserialize_ast returns from those bytes the native form of the
-- tree, of whatever node types the tree is made.
pub deserialize_ast-serialize_tree :
    (t : Node) (bs : Bytes) → serialize_tree t ≡ ok bs → deserialize_ast bs ≡ ok (native t)
unfolding deserialize_ast
deserialize_ast-serialize_tree t bs h =
    let (body, hb, e) = serialize_tree-magic t bs h in
    let fuel : ℕ = suc (length (mpya ++ body)) in
    let r : Reads fuel (serialize t) (ast_read_node fuel) (native t) = node-Reads t fuel in
    let whole = r.back body hb (omega arith) [] in
    subst (λ b. deserialize_ast b ≡ ok (native t)) e (rw (rw append-nil at whole))
