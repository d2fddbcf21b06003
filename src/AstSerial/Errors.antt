-- ===== src/AstSerial/Errors.antt =====
-- compiler/ast_serial.py: what the serializer refuses.
use nathra.Common.{ℕ, ◌≡◌, ◌≢◌, Option}
use nathra.Wire.Result.{ok, bind-eq-ok}
use nathra.Wire.Bytes.{Bytes}
use nathra.Wire.Monad.{Put, ◌>>◌}
use nathra.PyAst.{none_node, stmt, expr, part, unlisted, Nodes, nil, cons, dict}
use nathra.AstSerial.Fields.{write_node_list_field}
use nathra.AstSerial.Writer.{serialize, serialize_all}

-- One of the nodes is `None`.
abbrev pub HasNone : Nodes → Type 0
HasNone nil = ⊥
HasNone (cons none_node ns) = Unit {0}
HasNone (cons _ ns) = HasNone ns

-- A sequence of writes succeeds only if both do.
>>-ok :
    (p q : Put) (bs : Bytes)
    → p >> q ≡ ok bs
    → (xs : Bytes) × (ys : Bytes) × (p ≡ ok xs) × (q ≡ ok ys)
unfolding ◌>>◌
>>-ok p q bs h =
    let (xs, hx, h₂) = bind-eq-ok p _ h in let (ys, hy, _) = bind-eq-ok q _ h₂ in (xs, ys, hx, hy)

pub serialize_all-HasNone : (ns : Nodes) (bs : Bytes) → HasNone ns → serialize_all ns ≢ ok bs
unfolding serialize
serialize_all-HasNone nil bs h = absurd h
serialize_all-HasNone (cons none_node ns) bs h = λ e. failed e
  where
    failed : serialize_all (cons none_node ns) ≡ ok bs → ⊥
    failed e = let (xs, ys, hx, hy) = >>-ok (serialize none_node) (serialize_all ns) bs e in cc
serialize_all-HasNone (cons (stmt l s) ns) bs h = λ e.
    let (xs, ys, hx, hy) = >>-ok (serialize (stmt l s)) (serialize_all ns) bs e in
    serialize_all-HasNone ns ys h hy
serialize_all-HasNone (cons (expr l s) ns) bs h = λ e.
    let (xs, ys, hx, hy) = >>-ok (serialize (expr l s)) (serialize_all ns) bs e in
    serialize_all-HasNone ns ys h hy
serialize_all-HasNone (cons (part l s) ns) bs h = λ e.
    let (xs, ys, hx, hy) = >>-ok (serialize (part l s)) (serialize_all ns) bs e in
    serialize_all-HasNone ns ys h hy
serialize_all-HasNone (cons (unlisted s) ns) bs h = λ e.
    let (xs, ys, hx, hy) = >>-ok (serialize (unlisted s)) (serialize_all ns) bs e in
    serialize_all-HasNone ns ys h hy

-- A dict display with `**` unpacking has the key `None`, and no such display is serialized,
-- whatever its other keys and its values.
pub serialize-dict_unpacking :
    (l : Option ℕ) (keys values : Nodes) (bs : Bytes)
    → HasNone keys
    → serialize (expr l (dict keys values)) ≢ ok bs
unfolding serialize write_node_list_field
serialize-dict_unpacking l keys values bs h = λ e.
    let (_, ys, _, fields) = >>-ok _ _ bs e in
    let (_, _, keys_field, _) = >>-ok _ _ ys fields in
    let (_, zs, _, counted) = >>-ok _ _ _ keys_field in
    let (_, ws, _, written) = >>-ok _ _ zs counted in serialize_all-HasNone keys ws h written
