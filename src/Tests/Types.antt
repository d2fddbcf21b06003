-- ===== src/Tests/Types.antt =====
-- Annotations and their C types.
use nathra.Common.{
  codes, ℕ, ℤ, pos, negsuc, ◌+◌, ◌<◌, ◌*◌, ◌≡◌, ◌↔◌, refl, true, false, none, some, [], ◌∷◌, length,
}
use mathlib.Core.List.{Memᴰ}
use nathra.StrMap.Hash.{str_eq}
use nathra.Wire.Bytes.{Bytes}
use nathra.PyAst.{
  stmt, if_stmt, pass_stmt, Constant, Node, expr, nil, cons, name, subscript, tuple, constant, int,
}
use nathra.NativeAst.Types.{NrStr}
use nathra.NativeAst.Count.{ast_count_nodes}
use nathra.NativeAst.Fields.{c_str}
use nathra.Wire.Utf8.{encode, encode_char}
use mathlib.Core.Option.{bind}
use nathra.TypeMap.Pointers.{guard_fires, native_slice_info, native_get_funcptr_info}
use nathra.NativeAst.Describe.{native, native_str}
use nathra.Topology.Names.{Name, member}
use nathra.Topology.Plan.{decimal}
use nathra.Topology.Modules.{FunctionSource, ModuleSource}
use nathra.Topology.Edges.{
  import_of, function_names, imported_call, add_call_edges, add_call_edges-imported,
}
use nathra.TypeMap.Mangle.{
  is_solid, stars, mangle_buffer, native_mangle_type, native_mangle_type-overflow, mangle_type,
  replace, halve_underscores, native_mangled,
}
use nathra.TypeMap.Stage0.{Dict, lookup, map_type}
use nathra.TypeMap.Native.{native_map_type, native_name_type}
use nathra.TypeMap.Bases.{is_ascii}
use nathra.TypeMap.Agree.{IsPlain, of_type, type_name, native_map_type-map_type}
use nathra.TypeMap.Extract.{
  get_array_info, native_get_array_info, size_text, number, native_get_array_info-get_array_info,
}

-- A pointer to a pointer to a struct with a name of one letter.
two_stars : is_solid (codes "A**") ≡ true
unfolding is_solid
two_stars = refl

native_mangle_type-overflow_example :
    (mangle_buffer (codes "A**") < length (native_mangle_type (codes "A**")) + 1)
    ↔ (length (codes "A**") < 2 * stars (codes "A**"))
native_mangle_type-overflow_example = native_mangle_type-overflow (codes "A**") two_stars

-- The two versions of `mangle_type` differ where underscores meet.
static_type : mangle_type (codes "volatile __static__ int") ≡ codes "volatile__static__int"
unfolding mangle_type replace halve_underscores
static_type = refl

native_static_type :
    native_mangle_type (codes "volatile __static__ int") ≡ codes "volatile_static_int"
unfolding native_mangle_type native_mangled
native_static_type = refl

abbrev named_type : Name → Node
named_type id = expr none (name id)

-- `ptr[MyInt]`, where `MyInt` is an alias.
abbrev pointer : Node
pointer = expr none (subscript (named_type (codes "ptr")) (named_type (codes "MyInt")))

abbrev dict : Dict
dict = (codes "MyInt", codes "int32_t") ∷ []

abbrev aliases : Bytes → NrStr
aliases id = lookup id dict

abbrev no_text : Constant → Name
no_text c = []

abbrev no_digits : ℤ → Bytes
no_digits z = []

ascii_id : is_ascii (codes "MyInt") ≡ true
unfolding is_ascii
ascii_id = refl

ascii_base : is_ascii (codes "ptr") ≡ true
unfolding is_ascii
ascii_base = refl

no_result : str_eq (codes "ptr") (codes "Result") ≡ false
unfolding str_eq
no_result = refl

pointer-IsPlain : IsPlain pointer
pointer-IsPlain =
    of_type none none (codes "ptr") (named_type (codes "MyInt")) ascii_base no_result
      (type_name none (codes "MyInt") ascii_id)

native_map_type-map_type_example :
    native_map_type no_digits aliases (native pointer) ≡ some ((map_type no_text dict pointer []).0)
native_map_type-map_type_example =
    native_map_type-map_type no_text no_digits dict aliases (λ id. refl) pointer [] pointer-IsPlain

-- Integers in decimal.
abbrev digits : ℤ → Bytes
digits (pos n) = decimal n
digits (negsuc n) = b'-' ∷ decimal (n + 1)

abbrev text : Constant → Name
text (int z) = digits z
text _ = []

-- `array[ptr[MyInt], 10]`
abbrev ten_pointers : Node
ten_pointers = expr none (
    subscript (named_type (codes "array"))
      (expr none (tuple (cons pointer (cons (expr none (constant (int (pos 10)))) nil)))))

native_get_array_info-get_array_info_example :
    native_get_array_info digits aliases (native ten_pointers) ≡ (
      let info = (get_array_info text dict ten_pointers []).0 in
      some (some (info.0), some (size_text text (info.1))))
native_get_array_info-get_array_info_example =
    native_get_array_info-get_array_info text digits dict aliases (λ id. refl) (λ z. refl) none none
      (named_type (codes "array")) pointer (expr none (constant (int (pos 10)))) [] pointer-IsPlain
      (number none (pos 10))

-- `from state import g as set`, and a function that calls `set`.
abbrev setter : FunctionSource
setter = record { name = codes "f"; decorators = []; alloc_tags = []; called = codes "set" ∷ [] }

abbrev importing : ModuleSource
importing = record {
  functions = setter ∷ [];
  imports = [];
  from_imports = (codes "set", (codes "state", codes "g")) ∷ [];
  globals = [];
}

not_own : member (codes "set") (function_names (setter ∷ [])) ≡ false
unfolding member function_names str_eq
not_own = refl

imported : import_of (codes "set") importing.from_imports ≡ some (codes "state", codes "g")
unfolding import_of str_eq
imported = refl

add_call_edges-imported_example :
    Memᴰ
      (imported_call {W = ℕ} 1 (codes "files") (codes "f") (codes "state", codes "g"))
      (add_call_edges 1 (codes "files") [] importing [])
add_call_edges-imported_example =
    add_call_edges-imported 1 (codes "files") [] importing [] setter (codes "set")
      (codes "state", codes "g") (Memᴰ.head refl) (Memᴰ.head refl) not_own imported

-- The port takes `ptr[MyInt]` for the type of a function without arguments.
pointer_taken :
    native_get_funcptr_info no_digits aliases (native pointer) ≡ some (some (codes "int32_t"), [])
unfolding native_get_funcptr_info guard_fires native_slice_info native_map_type native_name_type
    lookup str_eq native native_str encode encode_char c_str bind
pointer_taken = refl

-- The statements of a conditional are not counted.
conditional_count :
    ast_count_nodes
      (native (stmt none (if_stmt (named_type (codes "a")) (cons (stmt none pass_stmt) nil) nil)))
    ≡ 1
unfolding ast_count_nodes native
conditional_count = refl
