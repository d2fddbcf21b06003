-- ===== src/TypeMap/Pointers.antt =====
-- native/src/native_type_map.py, `native_get_funcptr_info`.
use nathra.Common.{codes, ℤ, Bool, false, ◌&&◌, Option, none, some, List, [], ◌∷◌, if◌then◌else◌}
use nathra.StrMap.Hash.{str_eq}
use nathra.Wire.Bytes.{Bytes}
use nathra.NativeAst.Types.{
  NrStr, AstNode, null, node, AstNodes, nil, cons, ast_name, ast_subscript, ast_tuple,
}
use nathra.TypeMap.Native.{native_map_type}

-- `bn.id == "func" == 0` is a chain: the id is `func`, and `func` is 0, which it never is.
unfoldable pub guard_fires : NrStr → Bool
guard_fires none = false
guard_fires (some id) = str_eq id (codes "func") && false

module _ (str_from_int : ℤ → Bytes) (aliases : Bytes → NrStr) where
  -- `out_ret`, and the `out_argc` first entries of `out_args`.
  unfoldable pub native_signature : AstNode → AstNodes → NrStr × List NrStr
  native_signature t nil = (native_map_type str_from_int aliases t, [])
  native_signature t (cons u ts) =
      let (ret, args) = native_signature u ts in
      (ret, native_map_type str_from_int aliases t ∷ args)

  unfoldable pub native_slice_info : AstNode → NrStr × List NrStr
  native_slice_info null = (some (codes "void"), [])
  native_slice_info (node tag l (ast_tuple nil)) = (some (codes "void"), [])
  native_slice_info (node tag l (ast_tuple (cons t ts))) = native_signature t ts
  native_slice_info slice = (native_map_type str_from_int aliases slice, [])

  -- `none` where 0 is returned.
  unfoldable pub native_get_funcptr_info : AstNode → Option (NrStr × List NrStr)
  native_get_funcptr_info (node tag l (ast_subscript (node tag' l' (ast_name id)) slice)) =
      if guard_fires id then none else some (native_slice_info slice)
  native_get_funcptr_info _ = none
