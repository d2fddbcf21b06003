-- ===== src/TypeMap/Bases.antt =====
-- The names of types in `map_type` and `native_map_type`: the two tables and the chains of tests on
-- the base of a subscript.
use nathra.Common.{
  codes, ℕ, ◌≡◌, ◌≢◌, refl, sym, ap, subst, inl, inr, Bool, true, false, Bool-cases, ◌&&◌, none,
  some, [], ◌∷◌, arith, ltb,
}
use mathlib.Core.Option.{bind}
use nathra.StrMap.Hash.{str_eq, str_eq_sound}
use nathra.Wire.Result.{ok}
use nathra.Wire.Utf8.{PyStr, encode, encode_char}
use nathra.NativeAst.Types.{NrStr}
use nathra.NativeAst.Fields.{c_str}
use nathra.NativeAst.Describe.{native_str}
use nathra.Topology.Names.{Name}
use nathra.TypeMap.Stage0.{lookup, type_map, Tuples, closed_type, open_type, subscript_type}
use nathra.TypeMap.Native.{search_type, lookup_type, native_subscript_type}

-- ASCII characters other than zero.
unfoldable pub is_ascii : PyStr → Bool
is_ascii [] = true
is_ascii (c ∷ s) = ltb 0 c && ltb c 128 && is_ascii s

encode_char-is_low : (c : ℕ) → ltb c 128 ≡ true → encode_char c ≡ ok (c ∷ [])
unfolding encode_char
encode_char-is_low c h = rw h refl

encode-cons :
    (c : ℕ) (s : PyStr)
    → encode_char c ≡ ok (c ∷ [])
    → encode s ≡ ok s
    → encode (c ∷ s) ≡ ok (c ∷ s)
unfolding encode
encode-cons c s e r = rw (e, r) refl

encode-is_ascii : (s : PyStr) → is_ascii s ≡ true → encode s ≡ ok s
unfolding encode is_ascii
encode-is_ascii [] h = refl
encode-is_ascii (c ∷ s) h =
    encode-cons c s (encode_char-is_low c (ground (arith, h)))
      (encode-is_ascii s (ground (arith, h)))

c_str-is_ascii : (s : PyStr) → is_ascii s ≡ true → c_str s ≡ s
unfolding c_str is_ascii
c_str-is_ascii [] h = refl
c_str-is_ascii (c ∷ s) h = ground (arith, h, c_str-is_ascii s)

pub native_str-is_ascii : (s : PyStr) → is_ascii s ≡ true → native_str (some s) ≡ some s
unfolding native_str
native_str-is_ascii s h = rw (encode-is_ascii s h, native_str) (ap some (c_str-is_ascii s h))

pub lookup-agree : (id : Name) → lookup_type id ≡ lookup id type_map
unfolding lookup_type search_type lookup
lookup-agree id = refl

-- A statement on names holds if it does at one name, and at those that are not that name.
step : (id b : Name) (P : Name → Type 0) → P b → (str_eq id b ≡ false → P id) → P id
step id b P here rest = elim (Bool-cases (str_eq id b)) [
  | inl e ↦ subst P (sym (str_eq_sound id b e)) here
  | inr e ↦ rest e
]

unknown_closed :
    (id : Name)
    → str_eq id (codes "array") ≡ false
    → str_eq id (codes "typed_list") ≡ false
    → str_eq id (codes "list") ≡ false
    → str_eq id (codes "dict") ≡ false
    → str_eq id (codes "func") ≡ false
    → str_eq id (codes "vec") ≡ false
    → str_eq id (codes "bitfield") ≡ false
    → closed_type id ≡ none
unfolding closed_type
unknown_closed id e0 e1 e2 e3 e4 e5 e6 = rw (e0, e1, e2, e3, e4, e5, e6) refl

unknown_open :
    (id inner : Name)
    → str_eq id (codes "ptr") ≡ false
    → str_eq id (codes "volatile") ≡ false
    → str_eq id (codes "atomic") ≡ false
    → str_eq id (codes "thread_local") ≡ false
    → str_eq id (codes "static") ≡ false
    → str_eq id (codes "const") ≡ false
    → str_eq id (codes "backref") ≡ false
    → str_eq id (codes "own") ≡ false
    → str_eq id (codes "Result") ≡ false
    → open_type id inner ≡ none
unfolding open_type
unknown_open id inner e0 e1 e2 e3 e4 e5 e6 e7 e8 = rw (e0, e1, e2, e3, e4, e5, e6, e7, e8) refl

module _ (inner : Name × Tuples) (tuples : Tuples) where
  unknown_subscript :
      (id : Name)
      → closed_type id ≡ none
      → open_type id (inner.0) ≡ none
      → subscript_type id inner tuples ≡ (codes "int64_t", tuples)
  unfolding subscript_type
  unknown_subscript id c o = rw (c, o, subscript_type) refl

  unknown_agree :
      (id : Name)
      → str_eq id (codes "array") ≡ false
      → str_eq id (codes "typed_list") ≡ false
      → str_eq id (codes "list") ≡ false
      → str_eq id (codes "dict") ≡ false
      → str_eq id (codes "ptr") ≡ false
      → str_eq id (codes "func") ≡ false
      → str_eq id (codes "vec") ≡ false
      → str_eq id (codes "volatile") ≡ false
      → str_eq id (codes "atomic") ≡ false
      → str_eq id (codes "thread_local") ≡ false
      → str_eq id (codes "static") ≡ false
      → str_eq id (codes "const") ≡ false
      → str_eq id (codes "bitfield") ≡ false
      → str_eq id (codes "backref") ≡ false
      → str_eq id (codes "own") ≡ false
      → str_eq id (codes "Result") ≡ false
      → native_subscript_type id (some (inner.0)) ≡ some ((subscript_type id inner tuples).0)
  unfolding native_subscript_type
  unknown_agree id e0 e1 e2 e3 e4 e5 e6 e7 e8 e9 e10 e11 e12 e13 e14 e15 =
      let c = unknown_closed id e0 e1 e2 e3 e5 e6 e12 in
      let o = unknown_open id (inner.0) e4 e7 e8 e9 e10 e11 e13 e14 e15 in
      rw (e0, e1, e2, e3, e4, e5, e6, e7, e8, e9, e10, e11, e12, e13, e14, e15)
        (ap (λ (r : Name × Tuples). some (r.0)) (sym (unknown_subscript id c o)))

  pub open_agree :
      (id : Name)
      → str_eq id (codes "Result") ≡ false
      → native_subscript_type id (some (inner.0)) ≡ some ((subscript_type id inner tuples).0)
  unfolding native_subscript_type subscript_type closed_type open_type str_eq bind
  open_agree id h =
      let P : Name → Type 0 =
        λ b. native_subscript_type b (some (inner.0)) ≡ some ((subscript_type b inner tuples).0) in
      step id (codes "array") P refl λ e0. step id (codes "typed_list") P refl λ e1.
        step id (codes "list") P refl λ e2. step id (codes "dict") P refl λ e3.
          step id (codes "ptr") P refl λ e4. step id (codes "func") P refl λ e5.
            step id (codes "vec") P refl λ e6. step id (codes "volatile") P refl λ e7.
              step id (codes "atomic") P refl λ e8. step id (codes "thread_local") P refl λ e9.
                step id (codes "static") P refl λ e10. step id (codes "const") P refl λ e11.
                  step id (codes "bitfield") P refl λ e12. step id (codes "backref") P refl λ e13.
                    step id (codes "own") P refl
                      λ e14. unknown_agree id e0 e1 e2 e3 e4 e5 e6 e7 e8 e9 e10 e11 e12 e13 e14 h

  -- A base that does not look at its argument.
  pub closed_agree :
      (id : Name) (x : NrStr)
      → closed_type id ≢ none
      → native_subscript_type id x ≡ some ((subscript_type id inner tuples).0)
  unfolding native_subscript_type subscript_type closed_type open_type str_eq
  closed_agree id x h =
      let P : Name → Type 0 =
        λ b. native_subscript_type b x ≡ some ((subscript_type b inner tuples).0) in
      step id (codes "array") P refl λ e0. step id (codes "typed_list") P refl λ e1.
        step id (codes "list") P refl λ e2. step id (codes "dict") P refl λ e3.
          step id (codes "func") P refl λ e4. step id (codes "vec") P refl λ e5.
            step id (codes "bitfield") P refl
              λ e6. absurd (h (unknown_closed id e0 e1 e2 e3 e4 e5 e6))
