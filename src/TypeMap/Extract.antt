-- ===== src/TypeMap/Extract.antt =====
-- The helper extractors of compiler/type_map.py, and those for arrays and lists of
-- native/src/native_type_map.py.
use nathra.Common.{
  codes, ℕ, ℤ, pos, ◌≡◌, refl, sym, ap, Bool, true, false, Option, none, some, List, [], ◌∷◌,
  if◌then◌else◌,
}
use nathra.StrMap.Hash.{str_eq}
use nathra.Wire.Bytes.{Bytes}
use nathra.Wire.Utf8.{PyStr}
use nathra.PyAst.{
  Constant, int, Node, none_node, expr, Nodes, Expr, constant, name, subscript, tuple, call,
  attribute, bin_op, unary_op, bool_op, comparison, if_exp, set, joined_str, formatted_value,
  list_comp, lambda,
}
use nathra.PyAst
use nathra.NativeAst.Types.{
  NrStr, AstNode, null, node, AstNodes, Payload, ast_constant, ast_name, ast_subscript, ast_tuple,
}
use nathra.NativeAst.Types
use nathra.NativeAst.Describe.{native, native_constant}
use nathra.Topology.Names.{Name}
use nathra.TypeMap.Stage0.{Dict, lookup, Tuples, map_type}
use nathra.TypeMap.Native.{native_map_type}
use nathra.TypeMap.Bases.{is_ascii, native_str-is_ascii}
use nathra.TypeMap.Agree.{IsPlain, native_map_type-map_type}

-- The size of an array: a value, the name of a constant, or `None`.
pub data ArraySize : Type 0 where
  of_value : Constant → ArraySize
  of_name : Name → ArraySize
  no_size : ArraySize

unfoldable pub array_size : Node → ArraySize
array_size (expr l (constant c)) = of_value c
array_size (expr l (name id)) = of_name id
array_size _ = no_size

abbrev no_array : Tuples → (Name × ArraySize) × Tuples
no_array tuples = ((codes "int64_t", of_value (int (pos 0))), tuples)

abbrev with_result : {A : Type 0} → Name × Tuples → A → (Name × A) × Tuples
with_result r a = ((r.0, a), r.1)

module _ (py_str : Constant → Name) (dict : Dict) where
  unfoldable pub get_array_info : Node → Tuples → (Name × ArraySize) × Tuples
  get_array_info
        (expr l (subscript base (expr l' (tuple (PyAst.cons t (PyAst.cons size PyAst.nil))))))
        tuples =
      with_result (map_type py_str dict t tuples) (array_size size)
  get_array_info (expr l (subscript base (expr l' (tuple elts)))) tuples = no_array tuples
  get_array_info (expr l (subscript base slice)) tuples =
      with_result (map_type py_str dict slice tuples) no_size
  get_array_info _ tuples = no_array tuples

  unfoldable pub get_typed_list_elem : Node → Tuples → Name × Tuples
  get_typed_list_elem (expr l (subscript base slice)) tuples = map_type py_str dict slice tuples
  get_typed_list_elem _ tuples = (codes "int64_t", tuples)

  unfoldable pub bitfield_width : Node → Constant
  bitfield_width (expr l (constant c)) = c
  bitfield_width _ = int (pos 1)

  -- `none` where the source returns None.
  unfoldable pub get_bitfield_info : Node → Tuples → Option ((Name × Constant) × Tuples)
  get_bitfield_info
        (expr l (
          subscript
            (expr l' (name id))
            (expr l'' (tuple (PyAst.cons t (PyAst.cons width PyAst.nil))))))
        tuples =
      if str_eq id (codes "bitfield")
      then some (with_result (map_type py_str dict t tuples) (bitfield_width width))
      else none
  get_bitfield_info _ tuples = none

  unfoldable pub map_types : Nodes → Tuples → List Name × Tuples
  map_types PyAst.nil tuples = ([], tuples)
  map_types (PyAst.cons x xs) tuples =
      let (t, tuples') = map_type py_str dict x tuples in
      let (ts, tuples'') = map_types xs tuples' in (t ∷ ts, tuples'')

  -- The last type is that of the result; no type at all is `void`.
  unfoldable pub signature : List Name → Name × List Name
  signature [] = (codes "void", [])
  signature (t ∷ []) = (t, [])
  signature (t ∷ u ∷ ts) = let (ret, args) = signature (u ∷ ts) in (ret, t ∷ args)

  abbrev with_signature : List Name × Tuples → (Name × List Name) × Tuples
  with_signature r = (signature (r.0), r.1)

  unfoldable pub get_funcptr_info : Node → Tuples → Option ((Name × List Name) × Tuples)
  get_funcptr_info (expr l (subscript (expr l' (name id)) (expr l'' (tuple elts)))) tuples =
      if str_eq id (codes "func") then some (with_signature (map_types elts tuples)) else none
  get_funcptr_info (expr l (subscript (expr l' (name id)) none_node)) tuples =
      if str_eq id (codes "func") then some ((codes "void", []), tuples) else none
  get_funcptr_info (expr l (subscript (expr l' (name id)) slice)) tuples =
      if str_eq id (codes "func")
      then some (with_signature (map_types (PyAst.cons slice PyAst.nil) tuples))
      else none
  get_funcptr_info _ tuples = none

module _ (str_from_int : ℤ → Bytes) (aliases : Bytes → NrStr) where
  unfoldable pub native_size : AstNode → NrStr
  native_size (node tag l (ast_constant kind int_val float_val str_val)) =
      some (str_from_int int_val)
  native_size (node tag l (ast_name id)) = id
  native_size _ = some (codes "0")

  -- What `out_elem` and `out_size` hold when 1 is returned; `none` for 0.
  unfoldable pub native_get_array_info : AstNode → Option (NrStr × NrStr)
  native_get_array_info
        (node tag l (
          ast_subscript base
            (node tag' l' (ast_tuple (Types.cons t (Types.cons size Types.nil)))))) =
      some (native_map_type str_from_int aliases t, native_size size)
  native_get_array_info _ = none

  unfoldable pub native_get_typed_list_elem : AstNode → NrStr
  native_get_typed_list_elem (node tag l (ast_subscript base slice)) =
      native_map_type str_from_int aliases slice
  native_get_typed_list_elem _ = some (codes "int64_t")

-- The text of the size that stage 0 reads; the native compiler writes 0 where that reads None.
unfoldable pub size_text : (Constant → Name) → ArraySize → Name
size_text py_str (of_value c) = py_str c
size_text py_str (of_name id) = id
size_text py_str no_size = codes "0"

-- The sizes that both read alike: integers, names in ASCII, and expressions of the other kinds. Left
-- out are the other constants.
abbrev pub is_compound : Expr → Bool
is_compound (constant c) = false
is_compound (name id) = false
is_compound _ = true

pub data IsSize : Node → Type 0 where
  number : (l : Option ℕ) (z : ℤ) → IsSize (expr l (constant (int z)))
  constant_name : (l : Option ℕ) (id : PyStr) → is_ascii id ≡ true → IsSize (expr l (name id))
  compound : (l : Option ℕ) (e : Expr) → is_compound e ≡ true → IsSize (expr l e)

module _ (py_str : Constant → Name) (str_from_int : ℤ → Bytes) (dict : Dict)
    (aliases : Bytes → NrStr) (same : (id : Name) → aliases id ≡ lookup id dict)
    (digits : (z : ℤ) → py_str (int z) ≡ str_from_int z) where
  native_size-compound :
      (l : Option ℕ) (e : Expr)
      → is_compound e ≡ true
      → native_size str_from_int aliases (native (expr l e))
        ≡ some (size_text py_str (array_size (expr l e)))
  unfolding native native_size array_size size_text
  native_size-compound l (constant c) h = cc h
  native_size-compound l (name id) h = cc h
  native_size-compound l (call f a k) h = refl
  native_size-compound l (attribute v a) h = refl
  native_size-compound l (subscript v s) h = refl
  native_size-compound l (bin_op x o y) h = refl
  native_size-compound l (unary_op o x) h = refl
  native_size-compound l (bool_op o xs) h = refl
  native_size-compound l (comparison x os ys) h = refl
  native_size-compound l (if_exp c x y) h = refl
  native_size-compound l (tuple xs) h = refl
  native_size-compound l (PyAst.list xs) h = refl
  native_size-compound l (set xs) h = refl
  native_size-compound l (joined_str xs) h = refl
  native_size-compound l (PyAst.dict ks vs) h = refl
  native_size-compound l (formatted_value v c f) h = refl
  native_size-compound l (list_comp x gs) h = refl
  native_size-compound l (lambda xs b) h = refl

  native_size-array_size :
      (size : Node)
      → IsSize size
      → native_size str_from_int aliases (native size) ≡ some (size_text py_str (array_size size))
  unfolding native native_constant native_size array_size size_text
  native_size-array_size size (number l z) = ap some (sym (digits z))
  native_size-array_size size (constant_name l id h) = native_str-is_ascii id h
  native_size-array_size size (compound l e h) = native_size-compound l e h

  -- For `array[T, N]`, with T a plain annotation and N an integer, a name in ASCII or an expression
  -- that is neither constant nor name, the native compiler reads the element type that the stage 0
  -- compiler reads, and the text of the size that it reads, which is 0 where stage 0 has None. Both
  -- compilers are to write an integer alike.
  pub native_get_array_info-get_array_info :
      (l l' : Option ℕ) (base t size : Node) (tuples : Tuples)
      → IsPlain t
      → IsSize size
      → native_get_array_info str_from_int aliases (
          native
            (expr l (subscript base (expr l' (tuple (PyAst.cons t (PyAst.cons size PyAst.nil)))))))
        ≡ (let info =
              (get_array_info py_str dict
                (expr l
                  (subscript base (expr l' (tuple (PyAst.cons t (PyAst.cons size PyAst.nil))))))
                tuples).0 in
            some (some (info.0), some (size_text py_str (info.1))))
  unfolding native_get_array_info get_array_info native
  native_get_array_info-get_array_info l l' base t size tuples p h = cc (
    native_map_type-map_type py_str str_from_int dict aliases same t tuples p,
    native_size-array_size size h,
  )
