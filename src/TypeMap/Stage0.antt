-- ===== src/TypeMap/Stage0.antt =====
-- compiler/type_map.py, `map_type`. A type is the code points of its text.
use nathra.Common.{
  codes, Bool, true, false, ◌||◌, Option, none, some, List, [], ◌∷◌, ◌++◌, if◌then◌else◌,
}
use nathra.StrMap.Hash.{str_eq}
use nathra.PyAst.{
  Constant, none_value, Node, none_node, expr, Nodes, nil, cons, Expr, constant, name, attribute,
  subscript, tuple,
}
use nathra.Topology.Names.{Name}
use nathra.Topology.Emit.{join_by}
use nathra.TypeMap.Mangle.{replace, mangle_type}

-- A dict of strings by strings.
abbrev pub Dict : Type 0
Dict = List (Name × Name)

unfoldable pub lookup : Name → Dict → Option Name
lookup key [] = none
lookup key ((k, v) ∷ d) = if str_eq key k then some v else lookup key d

abbrev pub type_map : Dict
type_map =
    (codes "int", codes "int64_t")
    ∷ (codes "float", codes "double")
    ∷ (codes "bool", codes "int")
    ∷ (codes "byte", codes "uint8_t")
    ∷ (codes "str", codes "NrStr*")
    ∷ (codes "list", codes "NrList*")
    ∷ (codes "dict", codes "NrDict*")
    ∷ (codes "void", codes "void")
    ∷ (codes "arena", codes "NrArena*")
    ∷ (codes "file", codes "NrFile")
    ∷ (codes "thread", codes "NrThread")
    ∷ (codes "mutex", codes "NrMutex*")
    ∷ (codes "cond", codes "NrCond*")
    ∷ (codes "channel", codes "NrChannel*")
    ∷ (codes "threadpool", codes "NrThreadPool*")
    ∷ (codes "cstr", codes "char*")
    ∷ (codes "va_list", codes "va_list")
    ∷ (codes "f32", codes "float")
    ∷ (codes "f64", codes "double")
    ∷ (codes "i8", codes "int8_t")
    ∷ (codes "i16", codes "int16_t")
    ∷ (codes "i32", codes "int32_t")
    ∷ (codes "i64", codes "int64_t")
    ∷ (codes "u8", codes "uint8_t")
    ∷ (codes "u16", codes "uint16_t")
    ∷ (codes "u32", codes "uint32_t")
    ∷ (codes "u64", codes "uint64_t")
    ∷ []

-- `TUPLE_RET_MAP`: the C types of the fields, and the name of the struct.
abbrev pub Tuples : Type 0
Tuples = List (List Name × Name)

unfoldable pub same_key : List Name → List Name → Bool
same_key [] [] = true
same_key (x ∷ xs) (y ∷ ys) = if str_eq x y then same_key xs ys else false
same_key _ _ = false

unfoldable pub lookup_tuple : List Name → Tuples → Option Name
lookup_tuple key [] = none
lookup_tuple key ((k, v) ∷ d) = if same_key key k then some v else lookup_tuple key d

unfoldable pub field_part : Name → Name
field_part k =
    replace b']' []
      (replace b'[' (codes "_") (replace b' ' (codes "_") (replace b'*' (codes "Ptr") k)))

field_parts : List Name → List Name
field_parts [] = []
field_parts (k ∷ ks) = field_part k ∷ field_parts ks

unfoldable pub tuple_type : List Name → Tuples → Name × Tuples
unfolding field_parts
tuple_type key tuples = elim (lookup_tuple key tuples) [
  | some found ↦ (found, tuples)
  | none ↦
      let made = codes "_TupleRet_" ++ join_by (codes "_") (field_parts key) in
      (made, tuples ++ (key, made) ∷ [])
]

-- The type of a name: an alias, an entry of the map, or the name itself.
abbrev pub found_or : Option Name → Name → Name
found_or (some found) other = found
found_or none other = other

unfoldable pub name_type : Dict → Name → Name
name_type aliases id = found_or (lookup id aliases) (found_or (lookup id type_map) id)

-- The bases whose argument is not looked at.
unfoldable pub closed_type : Name → Option Name
closed_type id =
    if str_eq id (codes "array")
    then some (codes "__array__")
    else if str_eq id (codes "typed_list") || str_eq id (codes "list")
    then some (codes "__typed_list__")
    else if str_eq id (codes "dict")
    then some (codes "NrDict*")
    else if str_eq id (codes "func")
    then some (codes "__funcptr__")
    else if str_eq id (codes "vec")
    then some (codes "__vec__")
    else if str_eq id (codes "bitfield")
    then some (codes "__bitfield__")
    else none

-- The other bases, by the type of the argument; `none` for an unknown base.
unfoldable pub open_type : Name → Name → Option Name
open_type id inner =
    if str_eq id (codes "ptr")
    then some (inner ++ codes "*")
    else if str_eq id (codes "volatile") || str_eq id (codes "atomic")
    then some (codes "volatile " ++ inner)
    else if str_eq id (codes "thread_local")
    then some (codes "NR_TLS " ++ inner)
    else if str_eq id (codes "static")
    then some (codes "__static__ " ++ inner)
    else if str_eq id (codes "const")
    then some (codes "const " ++ inner)
    else if str_eq id (codes "backref")
    then some (codes "__backref__ " ++ inner)
    else if str_eq id (codes "own")
    then some (codes "__own__ " ++ inner)
    else if str_eq id (codes "Result")
    then some (codes "Result_" ++ mangle_type inner)
    else none

-- A base that is unknown leaves the argument alone.
unfoldable pub subscript_type : Name → Name × Tuples → Tuples → Name × Tuples
subscript_type id inner tuples = elim (closed_type id) [
  | some c ↦ (c, tuples)
  | none ↦ elim (open_type id inner.0) [ some t ↦ (t, inner.1) | none ↦ (codes "int64_t", tuples) ]
]

abbrev or_else : Option (Name × Tuples) → Name × Tuples → Name × Tuples
or_else (some f) r = f
or_else none r = r

-- `py_str` is Python's `str` of a constant.
module _ (py_str : Constant → Name) (aliases : Dict) where
  unfoldable pub constant_type : Constant → Name
  constant_type none_value = codes "void"
  constant_type c = py_str c

  -- `size` of a tuple field `array[T, N]`
  unfoldable pub field_size : Node → Name
  field_size (expr l (constant c)) = py_str c
  field_size _ = codes "0"

  unfoldable mutual
    pub map_type : Node → Tuples → Name × Tuples
    map_type none_node tuples = (codes "void", tuples)
    map_type (expr l e) tuples = map_expr e tuples
    map_type _ tuples = (codes "int64_t", tuples)

    pub map_expr : Expr → Tuples → Name × Tuples
    map_expr (constant c) tuples = (constant_type c, tuples)
    map_expr (name id) tuples = (name_type aliases id, tuples)
    map_expr (attribute value attr) tuples = (attr, tuples)
    map_expr (subscript (expr l (name id)) slice) tuples =
        subscript_type id (map_type slice tuples) tuples
    map_expr (tuple elts) tuples =
        let (key, tuples') = tuple_fields elts tuples in tuple_type key tuples'
    map_expr _ tuples = (codes "int64_t", tuples)

    -- `_tuple_field_type` of each element
    pub tuple_fields : Nodes → Tuples → List Name × Tuples
    tuple_fields nil tuples = ([], tuples)
    tuple_fields (cons x xs) tuples =
        let (t, tuples') = or_else (array_field x tuples) (map_type x tuples) in
        let (ts, tuples'') = tuple_fields xs tuples' in (t ∷ ts, tuples'')

    -- A field `array[T, N]`
    pub array_field : Node → Tuples → Option (Name × Tuples)
    array_field
          (expr l (subscript (expr l' (name id)) (expr l'' (tuple (cons elem (cons size nil))))))
          tuples =
        let (t, tuples') = map_type elem tuples in
        if str_eq id (codes "array")
        then some (t ++ codes "[" ++ field_size size ++ codes "]", tuples')
        else none
    array_field _ tuples = none
