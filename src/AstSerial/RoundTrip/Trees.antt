-- ===== src/AstSerial/RoundTrip/Trees.antt =====
-- The round trip of whole trees: `serialize` and `deserialize` of compiler/ast_serial.py.
use nathra.Common.{ℕ, suc, ◌≤◌, ◌≡◌, subst, [], ◌++◌, append-nil, arith, length}
use nathra.Wire.Result.{ok, bind-eq-ok, ok-injective}
use nathra.Wire.Bytes.{Bytes}
use nathra.Wire.Monad.{◌>>◌, write_bytes}
use nathra.Wire.Reads.{Reads}
use nathra.PyAst.{Node}
use nathra.AstSerial.Writer.{serialize, serialize_tree}
use nathra.AstSerial.ReadNode.{read_node, deserialize, mpya}
use nathra.AstSerial.Describe.{describe}
use nathra.AstSerial.RoundTrip.Nodes.{node-Reads}

-- When a node serializes to bytes, read_node reads its description from the front of any input that
-- begins with those bytes, given fuel for as many, and leaves just what follows them.
pub read_node-serialize :
    (x : Node) (bs rest : Bytes) (fuel : ℕ)
    → serialize x ≡ ok bs
    → length bs ≤ fuel
    → read_node fuel (bs ++ rest) ≡ ok (describe x, rest)
read_node-serialize x bs rest fuel h enough =
    let r : Reads fuel (serialize x) (read_node fuel) (describe x) = node-Reads x fuel in
    r.back bs h enough rest

pub serialize_tree-magic :
    (t : Node) (bs : Bytes)
    → serialize_tree t ≡ ok bs
    → (body : Bytes) × (serialize t ≡ ok body) × (mpya ++ body ≡ bs)
unfolding serialize_tree ◌>>◌ write_bytes
serialize_tree-magic t bs h =
    let (body, hb, e) = bind-eq-ok (serialize t) _ h in (body, hb, ok-injective e)

-- When a tree serializes to bytes, deserialize returns from those bytes the dict that describes the
-- tree: the tag and line number of every node, and every operator, constant and child that the
-- format has, which leaves out the else block of a loop.
pub deserialize-serialize_tree :
    (t : Node) (bs : Bytes) → serialize_tree t ≡ ok bs → deserialize bs ≡ ok (describe t)
unfolding deserialize
deserialize-serialize_tree t bs h =
    let (body, hb, e) = serialize_tree-magic t bs h in
    let whole = read_node-serialize t body [] (suc (length (mpya ++ body))) hb (omega arith) in
    subst (λ b. deserialize b ≡ ok (describe t)) e (rw (rw append-nil at whole))

-- Two trees with one serialization have one description.
pub serialize_tree-injective :
    (t u : Node) (bs : Bytes)
    → serialize_tree t ≡ ok bs
    → serialize_tree u ≡ ok bs
    → describe t ≡ describe u
serialize_tree-injective t u bs ht hu =
    cc (deserialize-serialize_tree t bs ht, deserialize-serialize_tree u bs hu)
