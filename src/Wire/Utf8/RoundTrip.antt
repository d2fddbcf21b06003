-- ===== src/Wire/Utf8/RoundTrip.antt =====
-- What the encoder writes, the decoder reads back.
use nathra.Common.{
  ℕ, zero, suc, ◌+◌, ◌/◌, ◌%◌, ◌≤◌, ◌<◌, ◌≡◌, refl, inl, inr, false, [], ◌∷◌, ◌++◌, arith, ltb,
  length, length-append, Bool-cases, subst, sym,
}
use nathra.Wire.Result.{ok, bind-eq-ok, ok-injective}
use nathra.Wire.Bytes.{Bytes}
use nathra.Wire.Utf8.{PyStr, is_surrogate, encode_char, encode, decode_char, decode_loop, decode}

-- The four forms, each read back whatever follows.
decode_char_one : (c : ℕ) (rest : Bytes) → c < 0x80 → decode_char c rest ≡ ok (c, rest)
unfolding decode_char
decode_char_one c rest h = ground arith

decode_char_two :
    (c : ℕ) (rest : Bytes)
    → 0x80 ≤ c
    → c < 0x800
    → decode_char (0xc0 + c / 64) ((0x80 + c % 64) ∷ rest) ≡ ok (c, rest)
unfolding decode_char
decode_char_two c rest lo hi = ground arith

decode_char_three :
    (c : ℕ) (rest : Bytes)
    → 0x800 ≤ c
    → c < 0x10000
    → is_surrogate c ≡ false
    → decode_char (0xe0 + c / 4096) ((0x80 + c / 64 % 64) ∷ (0x80 + c % 64) ∷ rest) ≡ ok (c, rest)
unfolding decode_char
decode_char_three c rest lo hi s = ground arith

decode_char_four :
    (c : ℕ) (rest : Bytes)
    → 0x10000 ≤ c
    → c < 0x110000
    → decode_char
        (0xf0 + c / 262144)
        ((0x80 + c / 4096 % 64) ∷ (0x80 + c / 64 % 64) ∷ (0x80 + c % 64) ∷ rest)
      ≡ ok (c, rest)
unfolding decode_char
decode_char_four c rest lo hi = ground arith

-- `a` is a leading byte and a tail that the decoder turns back into `c`.
data ReadsBack (c : ℕ) (a : Bytes) : Type 0 where
  reads_back :
      (b : ℕ) (t : Bytes)
      → a ≡ b ∷ t
      → ((rest : Bytes) → decode_char b (t ++ rest) ≡ ok (c, rest))
      → ReadsBack c a

encode_char-ReadsBack : (c : ℕ) (a : Bytes) → encode_char c ≡ ok a → ReadsBack c a
unfolding encode_char
encode_char-ReadsBack c a h = elim (Bool-cases (ltb c 0x80)) [
  | inl e ↦ reads_back c [] (ground arith) λ rest. decode_char_one c rest (ground arith)
  | inr e ↦ elim (Bool-cases (ltb c 0x800)) [
    | inl e₂ ↦
        reads_back (0xc0 + c / 64) (tail c ∷ []) (ground arith)
          λ rest. decode_char_two c rest (ground arith) (ground arith)
    | inr e₂ ↦ elim (Bool-cases (is_surrogate c)) [
      | inl s ↦ absurd (ground arith)
      | inr s ↦ elim (Bool-cases (ltb c 0x10000)) [
        | inl e₃ ↦
            reads_back (0xe0 + c / 4096) (tail (c / 64) ∷ tail c ∷ []) (ground arith)
              λ rest. decode_char_three c rest (ground arith) (ground arith) s
        | inr e₃ ↦
            reads_back (0xf0 + c / 262144) (tail (c / 4096) ∷ tail (c / 64) ∷ tail c ∷ [])
              (ground arith) λ rest. decode_char_four c rest (ground arith) (ground arith)
      ]
    ]
  ]
]
  where
    tail : ℕ → ℕ
    tail d = 0x80 + d % 64

-- One round of the loop.
decode_loop-step :
    (c : ℕ) (s : PyStr) (a b : Bytes)
    → ReadsBack c a
    → ((f : ℕ) → length b ≤ f → decode_loop f b ≡ ok s)
    → (fuel : ℕ) → length (a ++ b) ≤ fuel
    → decode_loop fuel (a ++ b) ≡ ok (c ∷ s)
unfolding decode_loop
decode_loop-step c s a b (reads_back l t e back) ih fuel k =
    subst (λ a'. decode_loop fuel (a' ++ b) ≡ ok (c ∷ s)) (sym e) (go fuel (rw e at k))
  where
    go : (f : ℕ) → suc (length (t ++ b)) ≤ f → decode_loop f (l ∷ (t ++ b)) ≡ ok (c ∷ s)
    go zero h = absurd (omega arith)
    go (suc f) h = rw (back b, ih f (omega (arith, length-append t b, length-append {0} t b)))

-- Enough fuel for the bytes is enough for the characters.
decode_loop-encode :
    (s : PyStr) (bs : Bytes)
    → encode s ≡ ok bs
    → (fuel : ℕ) → length bs ≤ fuel
    → decode_loop fuel bs ≡ ok s
unfolding encode decode_loop
decode_loop-encode [] bs h zero k = subst (λ b. decode_loop zero b ≡ ok []) (ok-injective h) refl
decode_loop-encode [] bs h (suc f) k =
    subst (λ b. decode_loop (suc f) b ≡ ok []) (ok-injective h) refl
decode_loop-encode (c ∷ s) bs h fuel k =
    let (a, ha, h₂) = bind-eq-ok (encode_char c) _ h in
    let (b, hb, h₃) = bind-eq-ok (encode s) _ h₂ in
    subst (λ x. decode_loop fuel x ≡ ok (c ∷ s)) (ok-injective h₃)
      (decode_loop-step c s a b (encode_char-ReadsBack c a ha) (decode_loop-encode s b hb) fuel
        (rw (ok-injective h₃) k))

-- When a string encodes to bytes, those bytes decode to the string.
pub decode-encode : (s : PyStr) (bs : Bytes) → encode s ≡ ok bs → decode bs ≡ ok s
unfolding decode
decode-encode s bs h = decode_loop-encode s bs h (length bs) (omega arith)
