-- ===== src/TypeMap/Native.antt =====
-- native/src/native_type_map.py, `native_map_type`. A type is the bytes of its text.
use nathra.Common.{codes, ℕ, ℤ, ◌||◌, none, some, List, [], ◌∷◌, ◌++◌, ◌==◌, if◌then◌else◌}
use mathlib.Core.Option.{bind}
use nathra.StrMap.Hash.{str_eq}
use nathra.Wire.Bytes.{Bytes}
use nathra.NativeAst.Types.{
  NrStr, AstNode, null, node, Payload, ast_constant, ast_name, ast_attribute, ast_subscript,
  ast_tuple,
}
use nathra.TypeMap.Mangle.{native_mangle_type}

abbrev pub type_map_entries : List (Bytes × Bytes)
type_map_entries =
    (codes "int", codes "int64_t")
    ∷ (codes "float", codes "double")
    ∷ (codes "bool", codes "int")
    ∷ (codes "byte", codes "uint8_t")
    ∷ (codes "str", codes "NrStr*")
    ∷ (codes "list", codes "NrList*")
    ∷ (codes "dict", codes "NrDict*")
    ∷ (codes "void", codes "void")
    ∷ (codes "arena", codes "NrArena*")
    ∷ (codes "file", codes "NrFile")
    ∷ (codes "thread", codes "NrThread")
    ∷ (codes "mutex", codes "NrMutex*")
    ∷ (codes "cond", codes "NrCond*")
    ∷ (codes "channel", codes "NrChannel*")
    ∷ (codes "threadpool", codes "NrThreadPool*")
    ∷ (codes "cstr", codes "char*")
    ∷ (codes "va_list", codes "va_list")
    ∷ (codes "f32", codes "float")
    ∷ (codes "f64", codes "double")
    ∷ (codes "i8", codes "int8_t")
    ∷ (codes "i16", codes "int16_t")
    ∷ (codes "i32", codes "int32_t")
    ∷ (codes "i64", codes "int64_t")
    ∷ (codes "u8", codes "uint8_t")
    ∷ (codes "u16", codes "uint16_t")
    ∷ (codes "u32", codes "uint32_t")
    ∷ (codes "u64", codes "uint64_t")
    ∷ (codes "", codes "")
    ∷ []

-- The search ends at the entry with the empty key.
unfoldable pub search_type : Bytes → List (Bytes × Bytes) → NrStr
search_type name [] = none
search_type name (([], value) ∷ entries) = none
search_type name ((key, value) ∷ entries) =
    if str_eq name key then some value else search_type name entries

unfoldable pub lookup_type : Bytes → NrStr
lookup_type name = search_type name type_map_entries

-- The alias map is given by its look-ups; `none` for NULL.
abbrev pub not_null_or : NrStr → Bytes → Bytes
not_null_or (some found) other = found
not_null_or none other = other

unfoldable pub native_name_type : (Bytes → NrStr) → Bytes → Bytes
native_name_type aliases id = not_null_or (aliases id) (not_null_or (lookup_type id) id)

-- The chain of tests on the name of the base; a string added to NULL is a crash, here `none`.
unfoldable pub native_subscript_type : Bytes → NrStr → NrStr
native_subscript_type name inner =
    if str_eq name (codes "array")
    then some (codes "__array__")
    else if str_eq name (codes "typed_list") || str_eq name (codes "list")
    then some (codes "__typed_list__")
    else if str_eq name (codes "dict")
    then some (codes "NrDict*")
    else if str_eq name (codes "ptr")
    then bind inner (λ t. some (t ++ codes "*"))
    else if str_eq name (codes "func")
    then some (codes "__funcptr__")
    else if str_eq name (codes "vec")
    then some (codes "__vec__")
    else if str_eq name (codes "volatile") || str_eq name (codes "atomic")
    then bind inner (λ t. some (codes "volatile " ++ t))
    else if str_eq name (codes "thread_local")
    then bind inner (λ t. some (codes "NR_TLS " ++ t))
    else if str_eq name (codes "static")
    then bind inner (λ t. some (codes "__static__ " ++ t))
    else if str_eq name (codes "const")
    then bind inner (λ t. some (codes "const " ++ t))
    else if str_eq name (codes "bitfield")
    then some (codes "__bitfield__")
    else if str_eq name (codes "backref")
    then bind inner (λ t. some (codes "__backref__ " ++ t))
    else if str_eq name (codes "own")
    then bind inner (λ t. some (codes "__own__ " ++ t))
    else if str_eq name (codes "Result")
    then bind inner (λ t. some (codes "Result_" ++ native_mangle_type t))
    else some (codes "int64_t")

-- `str_from_int` of the runtime, and the alias map, are parameters.
module _ (str_from_int : ℤ → Bytes) (aliases : Bytes → NrStr) where
  unfoldable pub native_constant_type : ℕ → ℤ → Bytes
  native_constant_type kind int_val = if kind == 4 then codes "void" else str_from_int int_val

  unfoldable mutual
    -- The constructor of the payload stands for the tag.
    pub native_map_type : AstNode → NrStr
    native_map_type null = some (codes "void")
    native_map_type (node tag lineno payload) = native_map_data payload

    pub native_map_data : Payload → NrStr
    native_map_data (ast_constant kind int_val float_val str_val) =
        some (native_constant_type kind int_val)
    native_map_data (ast_name id) = bind id (λ s. some (native_name_type aliases s))
    native_map_data (ast_attribute value attr) = attr
    native_map_data (ast_subscript (node tag lineno (ast_name id)) slice) =
        bind id (λ name. native_subscript_type name (native_map_type slice))
    native_map_data (ast_tuple elts) = some (codes "__tuple_ret__")
    native_map_data _ = some (codes "int64_t")
