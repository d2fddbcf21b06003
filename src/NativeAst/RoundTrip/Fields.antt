-- ===== src/NativeAst/RoundTrip/Fields.antt =====
-- The bridge, field by field.
use nathra.Common.{
  ℕ, zero, suc, ℤ, pos, negsuc, List, [], ◌∷◌, map, length, Option, none, some, true, false, refl,
}
use nathra.Wire.Result.{Error, ok, read_past_end}
use nathra.Wire.Monad.{Put, Reader, ◌>>◌, ◌>>=◌, pure, when◌then◌otherwise◌, write_u8, write_u16}
use nathra.Wire.Utf8.{PyStr, encode}
use nathra.Wire.Reads.{
  Reads, Reads-pure, Reads-err, Reads-seq, Reads-map, Reads-then, Reads-computed, Reads-one,
  Reads-two, Reads-eight, Reads-signed_four, Reads-signed_eight, Reads-exact, Reads-u8_first,
  Reads-u8_none, >>-nil, >>-assoc,
}
use nathra.PyAst
use nathra.PyAst.{Operator, Node, Nodes}
use nathra.AstSerial.Tags.{Tag, code, binop_map, unaryop_map, boolop_map, cmpop_map}
use nathra.AstSerial.Fields.{
  write_str, write_node_field, write_node_list_field, write_string_field, write_int_field,
  write_float_field, write_bool_field, write_first, write_op_field, write_header, write_cmpop,
  write_cmpops, write_constant, count,
}
use nathra.AstSerial.Describe.{op_number, lineno_or_zero}
use nathra.NativeAst.Types.{AstNode, node, AstNodes, Payload, no_data}
use nathra.NativeAst.Fields.{
  nr_read_u8, nr_read_u16, ast_read_str, ast_read_node_field, ast_read_nodes, ast_read_node_list,
  ast_read_string_field, ast_read_int_field, ast_read_float_field, ast_read_bool_field,
  ast_read_op_field,
}
use nathra.NativeAst.Exprs.{ast_read_constant, ast_read_constant_of, ast_read_ops}
use nathra.NativeAst.ReadNode.{ast_read_data, ast_read_node}
use nathra.NativeAst.Describe.{native, native_str, native_constant}

abbrev e : Error
e = read_past_end

pub str-Reads : (n : ℕ) (s : Option PyStr) → Reads n (write_str s) ast_read_str (native_str s)
unfolding write_str ast_read_str native_str pure ◌>>=◌
str-Reads n none = Reads-then _ (Reads-signed_four e (negsuc 0)) λ rest. refl
str-Reads n (some s) = Reads-computed (encode s) _ λ bytes h.
    rw (h, native_str)
      (Reads-seq _ (Reads-signed_four e (pos (length bytes))) (Reads-map _ (Reads-exact e bytes)))

pub string-Reads :
    (n : ℕ) (s : Option PyStr) → Reads n (write_string_field s) ast_read_string_field (native_str s)
unfolding write_string_field ast_read_string_field
string-Reads n s = Reads-seq _ (Reads-one e 2) (str-Reads n s)

pub int-Reads : (n : ℕ) (z : ℤ) → Reads n (write_int_field z) ast_read_int_field z
unfolding write_int_field ast_read_int_field
int-Reads n z = Reads-seq _ (Reads-one e 3) (Reads-signed_eight e z)

op_number-Reads :
    (n : ℕ) (o : Operator)
    → Reads n
        (write_first (binop_map ∷ unaryop_map ∷ boolop_map ∷ cmpop_map ∷ []) o)
        nr_read_u8
        (op_number o)
unfolding write_first op_number binop_map unaryop_map boolop_map cmpop_map nr_read_u8
op_number-Reads n PyAst.mat_mult = Reads-err
op_number-Reads n _ = Reads-one e _

pub op-Reads : (n : ℕ) (o : Operator) → Reads n (write_op_field o) ast_read_op_field (op_number o)
unfolding write_op_field ast_read_op_field
op-Reads n o = Reads-seq _ (Reads-one e 6) (op_number-Reads n o)

cmpop-Reads : (n : ℕ) (o : Operator) → Reads n (write_cmpop o) nr_read_u8 (op_number o)
unfolding write_cmpop op_number cmpop_map nr_read_u8
cmpop-Reads n PyAst.mat_mult = Reads-err
cmpop-Reads n _ = search (Reads-one e, Reads-err)

pub ops-Reads :
    (n : ℕ) (ops : List Operator)
    → Reads n (write_cmpops ops) (ast_read_ops (length ops)) (map op_number ops)
unfolding write_cmpops ast_read_ops
ops-Reads n [] = Reads-pure
ops-Reads n (o ∷ ops) = Reads-seq _ (cmpop-Reads n o) (Reads-map _ (ops-Reads n ops))

pub field-Reads :
    (self : Reader AstNode) (x : Node) (p : Put) (n : ℕ)
    → Reads n p self (native x)
    → Reads n (write_node_field x p) (ast_read_node_field self) (native x)
unfolding write_node_field ast_read_node_field when◌then◌otherwise◌ ◌>>=◌ pure native
field-Reads self PyAst.none_node p n h = Reads-then _ (Reads-one e 7) λ rest. refl
field-Reads self _ p n h = Reads-seq _ (Reads-one e 0) h

pub nodes-Reads :
    {xs : AstNodes} (self : Reader AstNode) (ns : Nodes) (p : Put) (n : ℕ)
    → Reads n p (ast_read_nodes self (count ns)) xs
    → Reads n (write_node_list_field ns p) (ast_read_node_list self) xs
unfolding write_node_list_field ast_read_node_list
nodes-Reads self ns p n h =
    Reads-seq _ (Reads-one e 1) (Reads-seq _ (Reads-signed_four e (pos (count ns))) h)

pub constant-Reads :
    (self : Reader AstNode) (n : ℕ) (v : PyAst.Constant)
    → Reads n (write_constant v) (ast_read_constant self) (native_constant v)
unfolding write_constant write_float_field write_bool_field ast_read_constant ast_read_constant_of
    ast_read_float_field ast_read_bool_field native_constant pure ◌>>=◌ when◌then◌otherwise◌
    nr_read_u8
constant-Reads self n (PyAst.int z) = Reads-seq _ (Reads-one e 0) (Reads-map _ (int-Reads n z))
constant-Reads self n (PyAst.float x) =
    Reads-seq _ (Reads-one e 1) (Reads-map _ (Reads-seq _ (Reads-one e 4) (Reads-eight e x)))
constant-Reads self n (PyAst.str s) =
    Reads-seq _ (Reads-one e 2) (Reads-map _ (string-Reads n (some s)))
constant-Reads self n (PyAst.bool true) =
    Reads-seq _ (Reads-one e 3) (Reads-map _ (Reads-seq _ (Reads-one e 5) (Reads-one e 1)))
constant-Reads self n (PyAst.bool false) =
    Reads-seq _ (Reads-one e 3) (Reads-map _ (Reads-seq _ (Reads-one e 5) (Reads-one e 0)))
constant-Reads self n PyAst.none_value = Reads-then _ (Reads-one e 4) λ rest. refl
constant-Reads self n PyAst.ellipsis = Reads-then _ (Reads-one e 5) λ rest. refl
constant-Reads self n PyAst.other = Reads-err

pub Reads-header :
    {q : Put} {d : Payload} (tag : Tag) (l : Option ℕ)
    → ((m : ℕ) → Reads m q (ast_read_data (ast_read_node m) (code tag)) d)
    → (n : ℕ)
    → Reads n (write_header tag l >> q) (ast_read_node n) (node (code tag) (lineno_or_zero l) d)
unfolding write_header ast_read_node
Reads-header {q} tag l h zero =
    rw (>>-assoc (write_u8 (code tag)) (write_u16 _) q) (Reads-u8_none _ _)
Reads-header {q} tag l h (suc m) =
    rw (>>-assoc (write_u8 (code tag)) (write_u16 _) q)
      (Reads-u8_first _ (Reads-one e _) (Reads-seq _ (lineno l) (Reads-map _ (h m))))
  where
    lineno :
        (o : Option ℕ)
        → Reads m (write_u16 (elim o [ some x ↦ x | none ↦ 0 ])) nr_read_u16 (lineno_or_zero o)
    lineno none = Reads-two e 0
    lineno (some x) = Reads-two e x

pub Reads-bare :
    (tag : Tag) (l : Option ℕ)
    → ((m : ℕ) → Reads m (ok []) (ast_read_data (ast_read_node m) (code tag)) no_data)
    → (n : ℕ)
    → Reads n (write_header tag l) (ast_read_node n) (node (code tag) (lineno_or_zero l) no_data)
Reads-bare tag l h n = rw (← >>-nil (write_header tag l)) (Reads-header tag l h n)
