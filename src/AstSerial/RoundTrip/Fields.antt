-- ===== src/AstSerial/RoundTrip/Fields.antt =====
-- The round trip of fields, headers and constants.
use nathra.Common.{
  ℕ, zero, suc, refl, List, [], ◌∷◌, Option, none, some, String, Bool, true, false, ℤ, pos, negsuc,
  length,
}
use nathra.Wire.Result.{ok}
use nathra.Wire.Monad.{
  when◌then◌otherwise◌, Put, Reader, ◌>>◌, ◌>>=◌, pure, write_u8, write_u16, read_u8, read_u16,
}
use nathra.Wire.Utf8.{PyStr, encode}
use nathra.Wire.Utf8.RoundTrip.{decode-encode}
use nathra.Wire.Reads.{
  Reads, Reads-pure, Reads-err, Reads-seq, Reads-map, Reads-then, Reads-computed, Reads-u8,
  Reads-u16, Reads-i32, Reads-i64, Reads-f64, Reads-bytes, >>-nil, >>-assoc, Reads-u8_first,
  Reads-u8_none,
}
use nathra.PyAst
use nathra.PyAst.{Operator, Node, Nodes}
use nathra.AstSerial.Tags.{Tag, code, binop_map, unaryop_map, boolop_map, cmpop_map}
use nathra.AstSerial.Fields.{
  write_str, write_node_field, write_node_list_field, write_string_field, write_int_field,
  write_float_field, write_bool_field, write_first, write_op_field, write_header, write_cmpop,
  write_cmpops, write_constant, count,
}
use nathra.AstSerial.Value.{Value, Values, op, int, list, Fields, end, field}
use nathra.AstSerial.Reader.{
  decode_str, read_str, read_times, read_count, read_field_of, read_field, set_fields, read_ops,
  read_constant_of, read_constant,
}
use nathra.AstSerial.ReadNode.{read_fields, node_dict, read_node}
use nathra.AstSerial.Describe.{
  described, op_number, describe, describe_str, describe_ops, describe_constant, lineno_or_zero,
}

pub set-cons :
    {n : ℕ} {p q : Put} {r : Reader Value} {v : Value} {fs : Fields} (k : String)
    (steps : List (String × Reader Value))
    → Reads n p r v
    → Reads n q (set_fields steps) fs
    → Reads n (p >> q) (set_fields ((k, r) ∷ steps)) (field k v fs)
unfolding set_fields
set-cons k steps h t = Reads-seq _ h (Reads-map _ t)

pub set-last :
    {n : ℕ} {p : Put} {r : Reader Value} {v : Value} (k : String)
    → Reads n p r v
    → Reads n p (set_fields ((k, r) ∷ [])) (field k v end)
unfolding set_fields ◌>>=◌ pure
set-last k h = Reads-then _ h λ rest. refl

Reads-str : (n : ℕ) (s : Option PyStr) → Reads n (write_str s) read_str (describe_str s)
unfolding write_str read_str pure ◌>>=◌ decode_str
Reads-str n none = Reads-then _ (Reads-i32 (negsuc 0)) λ rest. refl
Reads-str n (some s) = Reads-computed (encode s) _ λ bytes e.
    Reads-seq _ (Reads-i32 (pos (length bytes)))
      (Reads-then decode_str (Reads-bytes bytes) λ rest. rw (decode-encode s bytes e))

pub Reads-string_field :
    (self : Reader Value) (n : ℕ) (s : Option PyStr)
    → Reads n (write_string_field s) (read_field self) (describe_str s)
unfolding write_string_field read_field read_field_of when◌then◌otherwise◌
Reads-string_field self n s = Reads-seq _ (Reads-u8 2) (Reads-str n s)

pub Reads-int_field :
    (self : Reader Value) (n : ℕ) (z : ℤ) → Reads n (write_int_field z) (read_field self) (int z)
unfolding write_int_field read_field read_field_of when◌then◌otherwise◌
Reads-int_field self n z = Reads-seq _ (Reads-u8 3) (Reads-map int (Reads-i64 z))

Reads-float_field :
    (self : Reader Value) (n x : ℕ)
    → Reads n (write_float_field x) (read_field self) (Value.float x)
unfolding write_float_field read_field read_field_of when◌then◌otherwise◌
Reads-float_field self n x = Reads-seq _ (Reads-u8 4) (Reads-map Value.float (Reads-f64 x))

Reads-bool_field :
    (self : Reader Value) (n : ℕ) (b : Bool)
    → Reads n (write_bool_field b) (read_field self) (Value.bool b)
unfolding write_bool_field read_field read_field_of when◌then◌otherwise◌
Reads-bool_field self n true = Reads-seq _ (Reads-u8 5) (Reads-map _ (Reads-u8 1))
Reads-bool_field self n false = Reads-seq _ (Reads-u8 5) (Reads-map _ (Reads-u8 0))

Reads-op :
    (n : ℕ) (o : Operator)
    → Reads n
        (write_first (binop_map ∷ unaryop_map ∷ boolop_map ∷ cmpop_map ∷ []) o)
        read_u8
        (op_number o)
unfolding write_first op_number binop_map unaryop_map boolop_map cmpop_map
Reads-op n PyAst.mat_mult = Reads-err
Reads-op n _ = Reads-u8 _

pub Reads-op_field :
    (self : Reader Value) (n : ℕ) (o : Operator)
    → Reads n (write_op_field o) (read_field self) (op (op_number o))
unfolding write_op_field read_field read_field_of when◌then◌otherwise◌
Reads-op_field self n o = Reads-seq _ (Reads-u8 6) (Reads-map op (Reads-op n o))

pub Reads-node_field :
    (self : Reader Value) (x : Node) (p : Put) (n : ℕ)
    → Reads n p self (describe x)
    → Reads n (write_node_field x p) (read_field self) (describe x)
unfolding write_node_field read_field read_field_of ◌>>=◌ pure describe when◌then◌otherwise◌
Reads-node_field self PyAst.none_node p n h = Reads-then _ (Reads-u8 7) λ rest. refl
Reads-node_field self _ p n h = Reads-seq _ (Reads-u8 0) h

pub Reads-nodes :
    {vs : Values} (self : Reader Value) (ns : Nodes) (p : Put) (n : ℕ)
    → Reads n p (read_times self (count ns)) vs
    → Reads n (write_node_list_field ns p) (read_field self) (list vs)
unfolding write_node_list_field read_field read_field_of read_count when◌then◌otherwise◌
Reads-nodes self ns p n h =
    Reads-seq _ (Reads-u8 1) (Reads-seq _ (Reads-i32 (pos (count ns))) (Reads-map list h))

-- The operators of a comparison.
Reads-cmpop : (n : ℕ) (o : Operator) → Reads n (write_cmpop o) read_u8 (op_number o)
unfolding write_cmpop op_number cmpop_map
Reads-cmpop n PyAst.mat_mult = Reads-err
Reads-cmpop n _ = search (Reads-u8, Reads-err)

Reads-cmpops :
    (n : ℕ) (ops : List Operator)
    → Reads n
        (write_cmpops ops)
        (read_times (read_u8 >>= λ v. pure (int (pos v))) (length ops))
        (describe_ops ops)
unfolding write_cmpops read_times describe_ops
Reads-cmpops n [] = Reads-pure
Reads-cmpops n (o ∷ ops) =
    Reads-seq _ (Reads-map _ (Reads-cmpop n o)) (Reads-map _ (Reads-cmpops n ops))

Reads-ops :
    (n : ℕ) (ops : List Operator)
    → Reads n (write_u8 (length ops) >> write_cmpops ops) read_ops (list (describe_ops ops))
unfolding read_ops
Reads-ops n ops = Reads-seq _ (Reads-u8 (length ops)) (Reads-map _ (Reads-cmpops n ops))

-- The last two fields of a comparison.
pub set-ops :
    {q : Put} {r : Reader Value} {v : Value} (n : ℕ) (ops : List Operator)
    → Reads n q r v
    → Reads n
        (write_u8 (length ops) >> (write_cmpops ops >> q))
        (set_fields (("ops", read_ops) ∷ ("comparators", r) ∷ []))
        (field "ops" (list (describe_ops ops)) (field "comparators" v end))
set-ops {q} n ops h =
    rw (← >>-assoc (write_u8 (length ops)) (write_cmpops ops) q)
      (set-cons "ops" _ (Reads-ops n ops) (set-last "comparators" h))

pub Reads-constant :
    (self : Reader Value) (n : ℕ) (v : PyAst.Constant)
    → Reads n (write_constant v) (read_constant (read_field self)) (describe_constant v)
unfolding write_constant read_constant read_constant_of when◌then◌otherwise◌ pure ◌>>=◌
Reads-constant self n (PyAst.bool b) =
    Reads-seq _ (Reads-u8 3) (Reads-map _ (Reads-bool_field self n b))
Reads-constant self n (PyAst.int z) =
    Reads-seq _ (Reads-u8 0) (Reads-map _ (Reads-int_field self n z))
Reads-constant self n (PyAst.float x) =
    Reads-seq _ (Reads-u8 1) (Reads-map _ (Reads-float_field self n x))
Reads-constant self n (PyAst.str s) =
    Reads-seq _ (Reads-u8 2) (Reads-map _ (Reads-string_field self n (some s)))
Reads-constant self n PyAst.none_value = Reads-then _ (Reads-u8 4) λ rest. refl
Reads-constant self n PyAst.ellipsis = Reads-then _ (Reads-u8 5) λ rest. refl
Reads-constant self n PyAst.other = Reads-err

-- A node: with no fuel there is no room for its header; otherwise its fields have less.
pub Reads-header :
    {q : Put} {fs : Fields} (tag : Tag) (l : Option ℕ)
    → ((m : ℕ) → Reads m q (read_fields (read_node m) (read_field (read_node m)) (code tag)) fs)
    → (n : ℕ)
    → Reads n (write_header tag l >> q) (read_node n) (described (code tag) (lineno_or_zero l) fs)
unfolding write_header read_node node_dict
Reads-header {q} tag l h zero =
    rw (>>-assoc (write_u8 (code tag)) (write_u16 _) q) (Reads-u8_none _ _)
Reads-header {q} tag l h (suc m) =
    rw (>>-assoc (write_u8 (code tag)) (write_u16 _) q)
      (Reads-u8_first _ (Reads-u8 _) (Reads-seq _ (lineno l) (Reads-map _ (h m))))
  where
    lineno :
        (o : Option ℕ)
        → Reads m (write_u16 (elim o [ some x ↦ x | none ↦ 0 ])) read_u16 (lineno_or_zero o)
    lineno none = Reads-u16 0
    lineno (some x) = Reads-u16 x

-- A node without fields.
pub Reads-bare :
    (tag : Tag) (l : Option ℕ)
    → ((m : ℕ)
        → Reads m (ok []) (read_fields (read_node m) (read_field (read_node m)) (code tag)) end)
    → (n : ℕ)
    → Reads n (write_header tag l) (read_node n) (described (code tag) (lineno_or_zero l) end)
Reads-bare tag l h n = rw (← >>-nil (write_header tag l)) (Reads-header tag l h n)
