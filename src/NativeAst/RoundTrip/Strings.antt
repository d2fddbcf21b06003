-- ===== src/NativeAst/RoundTrip/Strings.antt =====
-- Which strings cross the bridge whole: `_write_str` of compiler/ast_serial.py against
-- `ast_read_str` of native/src/ast_nodes.py.
use nathra.Common.{
  ◌+◌, ◌/◌, ◌%◌, ℕ, ◌≡◌, ◌≢◌, refl, sym, subst, ap, List, [], ◌∷◌, ◌++◌, append_assoc, append-nil,
  some, arith, length, ltb, Bool-cases, inl, inr,
}
use nathra.Wire.Result.{ok, bind-eq-ok, ok-injective}
use nathra.Wire.Bytes.{Bytes}
use nathra.Wire.Utf8.{PyStr, encode, encode_char, is_surrogate}
use nathra.Wire.Reads.{Reads}
use nathra.AstSerial.Fields.{write_str}
use nathra.NativeAst.Types.{NrStr}
use nathra.NativeAst.Fields.{c_str, ast_read_str}
use nathra.NativeAst.Describe.{native_str}
use nathra.NativeAst.RoundTrip.Fields.{str-Reads}

abbrev pub NoZero : List ℕ → Type 0
NoZero [] = Unit {0}
NoZero (c ∷ s) = (c ≢ 0) × NoZero s

c_str-append : (a b : Bytes) → NoZero a → c_str (a ++ b) ≡ a ++ c_str b
unfolding c_str
c_str-append [] b h = refl
c_str-append (x ∷ a) b (hx, ha) = ground (arith, c_str-append a b ha)

NoZero-append : (a b : List ℕ) → NoZero a → NoZero b → NoZero (a ++ b)
NoZero-append [] b ha hb = hb
NoZero-append (x ∷ a) b (hx, ha) hb = (hx, NoZero-append a b ha hb)

encode_char-NoZero : (c : ℕ) (a : Bytes) → c ≢ 0 → encode_char c ≡ ok a → NoZero a
unfolding encode_char
encode_char-NoZero c a h e = elim (Bool-cases (ltb c 0x80)) [
  | inl one ↦ subst NoZero (the (c ∷ []) (ground arith)) (h, tt)
  | inr wide ↦ elim (Bool-cases (ltb c 0x800)) [
    | inl two ↦
        subst NoZero (the ((0xc0 + c / 64) ∷ tail c ∷ []) (ground arith))
          (omega arith, (omega arith, tt))
    | inr wider ↦ elim (Bool-cases (is_surrogate c)) [
      | inl bad ↦ absurd (ground arith)
      | inr fine ↦ elim (Bool-cases (ltb c 0x10000)) [
        | inl three ↦
            subst NoZero (the ((0xe0 + c / 4096) ∷ tail (c / 64) ∷ tail c ∷ []) (ground arith))
              (omega arith, (omega arith, (omega arith, tt)))
        | inr four ↦
            subst NoZero
              (the ((0xf0 + c / 262144) ∷ tail (c / 4096) ∷ tail (c / 64) ∷ tail c ∷ [])
                (ground arith))
              (omega arith, (omega arith, (omega arith, (omega arith, tt))))
      ]
    ]
  ]
]
  where
    tail : ℕ → ℕ
    tail d = 0x80 + d % 64

    the : (x : Bytes) → x ≡ a → x ≡ a
    the x p = p

-- The encoding of a nonzero code point has no zero byte.
encode-NoZero : (s : PyStr) (a : Bytes) → NoZero s → encode s ≡ ok a → NoZero a
unfolding encode
encode-NoZero [] a h e = subst NoZero (ok-injective e) tt
encode-NoZero (c ∷ s) a (hc, hs) e =
    let (x, hx, e₂) = bind-eq-ok (encode_char c) _ e in
    let (y, hy, e₃) = bind-eq-ok (encode s) _ e₂ in
    subst NoZero (ok-injective e₃)
      (NoZero-append x y (encode_char-NoZero c x hc hx) (encode-NoZero s y hs hy))

encode-append :
    (s t : PyStr) (a b : Bytes) → encode s ≡ ok a → encode t ≡ ok b → encode (s ++ t) ≡ ok (a ++ b)
unfolding encode
encode-append [] t a b hs ht = rw (ht, ← ok-injective hs)
encode-append (c ∷ s) t a b hs ht =
    let (x, hx, e₂) = bind-eq-ok (encode_char c) _ hs in
    let (y, hy, e₃) = bind-eq-ok (encode s) _ e₂ in
    rw (hx, encode-append s t y b hy ht, ← ok-injective e₃) (ap ok (sym (append_assoc x y b)))

c_str-id : (a : Bytes) → NoZero a → c_str a ≡ a
unfolding c_str
c_str-id [] h = refl
c_str-id (x ∷ a) (hx, ha) = ground (arith, c_str-id a ha)

read_back :
    (s : PyStr) (bs rest : Bytes) (v : NrStr)
    → write_str (some s) ≡ ok bs
    → native_str (some s) ≡ v
    → ast_read_str (bs ++ rest) ≡ ok (v, rest)
read_back s bs rest v h e =
    let r : Reads (length bs) (write_str (some s)) ast_read_str (native_str (some s)) =
      str-Reads (length bs) (some s) in
    rw (← e) (r.back bs h (omega arith) rest)

-- When a string without a zero character is encoded and written, ast_read_str reads its UTF-8 bytes
-- back, whatever follows.
pub ast_read_str-write_str :
    (s : PyStr) (a bs rest : Bytes)
    → NoZero s
    → encode s ≡ ok a
    → write_str (some s) ≡ ok bs
    → ast_read_str (bs ++ rest) ≡ ok (some a, rest)
unfolding native_str
ast_read_str-write_str s a bs rest clean ha h =
    read_back s bs rest (some a) h
      (rw (native_str, ha) (ap some (c_str-id a (encode-NoZero s a clean ha))))

-- When a string with a zero character is encoded and written, ast_read_str reads the bytes of what
-- stands before the first zero character: that character and all behind it are lost.
pub ast_read_str-embedded_zero :
    (s t : PyStr) (a b bs rest : Bytes)
    → NoZero s
    → encode s ≡ ok a
    → encode t ≡ ok b
    → write_str (some (s ++ 0 ∷ t)) ≡ ok bs
    → ast_read_str (bs ++ rest) ≡ ok (some a, rest)
unfolding encode encode_char c_str native_str
ast_read_str-embedded_zero s t a b bs rest clean ha hb h =
    read_back (s ++ 0 ∷ t) bs rest (some a) h (
      rw (native_str, encode-append s (0 ∷ t) a (0 ∷ b) ha (rw hb))
        (rw (c_str-append a (0 ∷ b) (encode-NoZero s a clean ha)) (ap some (append-nil a))))
