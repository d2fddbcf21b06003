-- ===== src/Wire/Utf8.antt =====
-- `str.encode("utf-8")` and `bytes.decode("utf-8")` as the serializer uses them: strict codecs.
-- A Python string is the list of its code points, lone surrogates among them.
pub mod RoundTrip
pub mod Total
use nathra.Common.{
  ℕ, zero, suc, ◌+◌, ◌-◌, ◌*◌, ◌/◌, ◌%◌, ◌≤◌, ◌<◌, ◌≡◌, refl, ◌⊎◌, inl, inr, Bool, true, false,
  ◌&&◌, ◌||◌, List, [], ◌∷◌, ◌++◌, append_assoc, append-nil, arith, ltb, leb, if◌then◌else◌, length,
  length-append,
}
use nathra.Wire.Result.{Result, ok, err, bind, unicode_error, out_of_fuel}
use nathra.Wire.Bytes.{Bytes}

abbrev pub PyStr : Type 0
PyStr = List ℕ

abbrev pub is_surrogate : ℕ → Bool
is_surrogate c = leb 0xd800 c && leb c 0xdfff

unfoldable pub encode_char : ℕ → Result Bytes
encode_char c =
    if ltb c 0x80
    then ok (c ∷ [])
    else if ltb c 0x800
    then ok ((0xc0 + c / 64) ∷ (0x80 + c % 64) ∷ [])
    else if is_surrogate c
    then err unicode_error
    else if ltb c 0x10000
    then ok ((0xe0 + c / 4096) ∷ (0x80 + c / 64 % 64) ∷ (0x80 + c % 64) ∷ [])
    else if ltb c 0x110000
    then ok
        ((0xf0 + c / 262144) ∷ (0x80 + c / 4096 % 64) ∷ (0x80 + c / 64 % 64) ∷ (0x80 + c % 64) ∷ [])
    else err unicode_error

unfoldable pub encode : PyStr → Result Bytes
unfolding encode_char
encode [] = ok []
encode (c ∷ s) = bind (encode_char c) λ a. bind (encode s) λ b. ok (a ++ b)

abbrev is_tail : ℕ → Bool
is_tail b = leb 0x80 b && ltb b 0xc0

-- The tail bytes of a sequence of two, three and four bytes. Overlong forms and surrogates are refused.
tail_one : ℕ → Bytes → Result (ℕ × Bytes)
tail_one b (x ∷ bs) = if is_tail x then ok ((b - 0xc0) * 64 + (x - 0x80), bs) else err unicode_error
tail_one b _ = err unicode_error

accept_two : ℕ → Bytes → Result (ℕ × Bytes)
accept_two c bs =
    if leb 0x800 c && (ltb c 0xd800 || ltb 0xdfff c) then ok (c, bs) else err unicode_error

tail_two : ℕ → Bytes → Result (ℕ × Bytes)
tail_two b (x ∷ y ∷ bs) =
    if is_tail x && is_tail y
    then accept_two ((b - 0xe0) * 4096 + (x - 0x80) * 64 + (y - 0x80)) bs
    else err unicode_error
tail_two b _ = err unicode_error

accept_three : ℕ → Bytes → Result (ℕ × Bytes)
accept_three c bs = if leb 0x10000 c && ltb c 0x110000 then ok (c, bs) else err unicode_error

tail_three : ℕ → Bytes → Result (ℕ × Bytes)
tail_three b (x ∷ y ∷ z ∷ bs) =
    if is_tail x && (is_tail y && is_tail z)
    then accept_three ((b - 0xf0) * 262144 + (x - 0x80) * 4096 + (y - 0x80) * 64 + (z - 0x80)) bs
    else err unicode_error
tail_three b _ = err unicode_error

decode_char : ℕ → Bytes → Result (ℕ × Bytes)
unfolding tail_one tail_two tail_three accept_two accept_three
decode_char b bs =
    if ltb b 0x80
    then ok (b, bs)
    else if ltb b 0xc2
    then err unicode_error
    else if ltb b 0xe0
    then tail_one b bs
    else if ltb b 0xf0
    then tail_two b bs
    else if ltb b 0xf5
    then tail_three b bs
    else err unicode_error

-- One round for each code point; a round takes a byte at least.
decode_loop : ℕ → Bytes → Result PyStr
decode_loop fuel [] = ok []
decode_loop zero (b ∷ bs) = err out_of_fuel
decode_loop (suc fuel) (b ∷ bs) =
    bind (decode_char b bs) λ (c, rest). bind (decode_loop fuel rest) λ s. ok (c ∷ s)

unfoldable pub decode : Bytes → Result PyStr
unfolding decode_loop decode_char
decode bs = decode_loop (length bs) bs
