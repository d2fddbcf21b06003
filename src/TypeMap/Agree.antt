-- ===== src/TypeMap/Agree.antt =====
-- Where `map_type` of compiler/type_map.py and `native_map_type` of native/src/native_type_map.py give
-- the same type.
use nathra.Common.{codes, ℕ, ℤ, ◌≡◌, ◌≢◌, refl, ap, ◌∙◌, true, false, Option, none, some}
use mathlib.Core.Option.{bind}
use nathra.StrMap.Hash.{str_eq}
use nathra.Wire.Bytes.{Bytes}
use nathra.Wire.Utf8.{PyStr}
use nathra.PyAst.{Constant, none_value, Node, none_node, expr, constant, name, attribute, subscript}
use nathra.NativeAst.Types.{NrStr}
use nathra.NativeAst.Describe.{native_str, native_constant, native}
use nathra.Topology.Names.{Name}
use nathra.TypeMap.Stage0.{
  Dict, lookup, type_map, Tuples, found_or, name_type, closed_type, constant_type, map_type,
}
use nathra.TypeMap.Native.{
  lookup_type, not_null_or, native_name_type, native_subscript_type, native_constant_type,
  native_map_type,
}
use nathra.TypeMap.Bases.{is_ascii, native_str-is_ascii, lookup-agree, open_agree, closed_agree}

-- The annotations that both read alike: none, None, names, attributes, and subscripts of a name. Left
-- out are other constants, tuples, and `Result`.
pub data IsPlain : Node → Type 0 where
  absent : IsPlain none_node
  none_constant : (l : Option ℕ) → IsPlain (expr l (constant none_value))
  type_name : (l : Option ℕ) (id : PyStr) → is_ascii id ≡ true → IsPlain (expr l (name id))
  module_name :
      (l : Option ℕ) (value : Node) (attr : PyStr)
      → is_ascii attr ≡ true
      → IsPlain (expr l (attribute value attr))
  of_type :
      (l l' : Option ℕ) (base : PyStr) (slice : Node)
      → is_ascii base ≡ true
      → str_eq base (codes "Result") ≡ false
      → IsPlain slice
      → IsPlain (expr l (subscript (expr l' (name base)) slice))
  of_any :
      (l l' : Option ℕ) (base : PyStr) (slice : Node)
      → is_ascii base ≡ true
      → closed_type base ≢ none
      → IsPlain (expr l (subscript (expr l' (name base)) slice))

either_or : (a b : NrStr) (c : Bytes) → not_null_or a (not_null_or b c) ≡ found_or a (found_or b c)
either_or (some x) b c = refl
either_or none (some y) c = refl
either_or none none c = refl

module _ (py_str : Constant → Name) (str_from_int : ℤ → Bytes) (dict : Dict)
    (aliases : Bytes → NrStr) (same : (id : Name) → aliases id ≡ lookup id dict) where
  name_agree : (id : Name) → native_name_type aliases id ≡ name_type dict id
  unfolding native_name_type name_type
  name_agree id =
      ap (λ o. not_null_or o (not_null_or (lookup_type id) id)) (same id)
      ∙ ap (λ o. not_null_or (lookup id dict) (not_null_or o id)) (lookup-agree id)
      ∙ either_or (lookup id dict) (lookup id type_map) id

  of_name :
      (l : Option ℕ) (id : PyStr)
      → native_map_type str_from_int aliases (native (expr l (name id)))
        ≡ bind (native_str (some id)) (λ s. some (native_name_type aliases s))
  unfolding native_map_type native
  of_name l id = refl

  of_subscript :
      (l l' : Option ℕ) (base : PyStr) (slice : Node)
      → native_map_type str_from_int aliases
          (native (expr l (subscript (expr l' (name base)) slice)))
        ≡ bind
            (native_str (some base))
            (λ s. native_subscript_type s (native_map_type str_from_int aliases (native slice)))
  unfolding native_map_type native
  of_subscript l l' base slice = refl

  -- A string of ASCII characters arrives as itself.
  arrives :
      (id : PyStr) (f : Bytes → NrStr) → is_ascii id ≡ true → bind (native_str (some id)) f ≡ f id
  unfolding bind
  arrives id f h = ap (λ o. bind o f) (native_str-is_ascii id h)

  -- On plain annotations the native compiler has the C type of the stage 0 compiler, when both have
  -- the same aliases, whatever tuple types are known: native_map_type on the node that arrives over
  -- the bridge gives the text that map_type gives.
  pub native_map_type-map_type :
      (e : Node) (tuples : Tuples)
      → IsPlain e
      → native_map_type str_from_int aliases (native e) ≡ some ((map_type py_str dict e tuples).0)
  unfolding native_map_type map_type native native_constant native_constant_type constant_type bind
  native_map_type-map_type e tuples absent = refl
  native_map_type-map_type e tuples (none_constant l) = refl
  native_map_type-map_type e tuples (type_name l id h) =
      of_name l id ∙ arrives id _ h ∙ ap some (name_agree id)
  native_map_type-map_type e tuples (module_name l value attr h) = native_str-is_ascii attr h
  native_map_type-map_type e tuples (of_type l l' base slice h r p) =
      of_subscript l l' base slice
      ∙ arrives base _ h
      ∙ ap (native_subscript_type base) (native_map_type-map_type slice tuples p)
      ∙ open_agree (map_type py_str dict slice tuples) tuples base r
  native_map_type-map_type e tuples (of_any l l' base slice h c) =
      of_subscript l l' base slice
      ∙ arrives base _ h
      ∙ closed_agree (map_type py_str dict slice tuples) tuples base _ c
