-- ===== src/TypeMap/Mangle.antt =====
-- `mangle_type` of compiler/type_map.py and of native/src/native_type_map.py.
use nathra.Common.{
  codes, ℕ, ◌+◌, ◌*◌, ◌<◌, ◌≡◌, ◌↔◌, Bool, true, false, ◌&&◌, ◌||◌, not, [], ◌∷◌, ◌++◌, arith, ◌==◌,
  if◌then◌else◌, length,
}
use nathra.Wire.Bytes.{Bytes}
use nathra.Topology.Names.{Name}

-- `s.replace(c, text)` for one character, and `s.replace("__", "_")`.
unfoldable pub replace : ℕ → Name → Name → Name
replace c text [] = []
replace c text (x ∷ s) = (if x == c then text else x ∷ []) ++ replace c text s

unfoldable pub halve_underscores : Name → Name
halve_underscores [] = []
halve_underscores (x ∷ []) = x ∷ []
halve_underscores (x ∷ y ∷ s) =
    let skipped = halve_underscores s in
    let kept = halve_underscores (y ∷ s) in
    if x == b'_' && y == b'_' then b'_' ∷ skipped else x ∷ kept

unfoldable pub mangle_type : Name → Name
mangle_type ctype = halve_underscores (replace b' ' (codes "_") (replace b'*' (codes "Ptr") ctype))

-- What the native loop writes to `buf`; the flag is `prev_underscore`.
unfoldable pub native_mangled : Bool → Bytes → Bytes
native_mangled prev [] = []
native_mangled prev (ch ∷ s) =
    let plain = native_mangled false s in
    let after = native_mangled true s in
    if ch == 42
    then 80 ∷ 116 ∷ 114 ∷ plain
    else if ch == 32 || ch == 95
    then if prev then after else 95 ∷ after
    else ch ∷ plain

-- `alloc(len * 2 + 1)`
unfoldable pub mangle_buffer : Bytes → ℕ
mangle_buffer ctype = length ctype * 2 + 1

-- The string that `mangle_type` returns, where its buffer is large enough.
unfoldable pub native_mangle_type : Bytes → Bytes
native_mangle_type ctype = native_mangled false ctype

unfoldable pub stars : Bytes → ℕ
stars [] = 0
stars (ch ∷ s) = (if ch == 42 then 1 else 0) + stars s

-- No spaces and no underscores.
unfoldable pub is_solid : Bytes → Bool
is_solid [] = true
is_solid (ch ∷ s) = not (ch == 32 || ch == 95) && is_solid s

native_mangled-length :
    (prev : Bool) (s : Bytes)
    → is_solid s ≡ true
    → length (native_mangled prev s) ≡ length s + 2 * stars s
unfolding native_mangled stars is_solid
native_mangled-length prev [] h = omega arith
native_mangled-length prev (ch ∷ s) h = ground (arith, h, native_mangled-length false s)

-- On a type text without spaces and underscores the native mangle_type writes more bytes than its
-- buffer has, the final zero counted, exactly when more than half of the characters are stars.
pub native_mangle_type-overflow :
    (ctype : Bytes)
    → is_solid ctype ≡ true
    → (mangle_buffer ctype < length (native_mangle_type ctype) + 1)
      ↔ (length ctype < 2 * stars ctype)
unfolding mangle_buffer native_mangle_type
native_mangle_type-overflow ctype h =
    let n = native_mangled-length false ctype h in
    ((λ over. omega (arith, n, over)), (λ many. omega (arith, n, many)))
