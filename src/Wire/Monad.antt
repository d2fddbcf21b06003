-- ===== src/Wire/Monad.antt =====
-- compiler/ast_serial.py, `AstSerializer` and `AstDeserializer` below the level of nodes.
-- A `Put` is what one call appends to `self.buf`, or the exception that it raises. A `Reader`
-- takes `self.data[self.pos:]`, the bytes not yet read, and returns what is left of them.
use nathra.Common.{Bool, ℕ, ◌+◌, ◌^◌, [], ◌∷◌, ◌++◌, ltb, if◌then◌else◌, length, take, drop, ℤ}
use nathra.Wire.Result.{Result, ok, err, bind, struct_error, index_error, Error}
use nathra.Wire.Bytes.{Bytes, le_bytes, le_value, to_twos, of_twos, fits_signed}

abbrev pub Put : Type 0
Put = Result Bytes

abbrev pub Reader {ℓ} : Type ℓ → Type ℓ
Reader A = Bytes → Result (A × Bytes)

infixl 5 ◌>>◌ ◌>>=◌
-- One write after another; the first exception ends the run.
unfoldable pub ◌>>◌ : Put → Put → Put
p >> q = bind p λ a. bind q λ b. ok (a ++ b)

unfoldable pub ◌>>=◌ {ℓ κ} : {A : Type ℓ} {B : Type κ} → Reader A → (A → Reader B) → Reader B
(r >>= k) bs = bind (r bs) λ (a, rest). k a rest

unfoldable pub pure {ℓ} : {A : Type ℓ} → A → Reader A
pure a bs = ok (a, bs)

unfoldable pub fail {ℓ} : {A : Type ℓ} → Error → Reader A
fail e bs = err e

-- A test between two readers. It is a definition of its own, so that a law can be stated for it.
infix 1 when◌then◌otherwise◌
unfoldable pub when◌then◌otherwise◌ {ℓ} : {A : Type ℓ} → Bool → Reader A → Reader A → Reader A
when b then x otherwise y = if b then x else y

-- `struct.pack` raises `struct.error` out of the format's range.
unfoldable pub write_u8 : ℕ → Put
write_u8 v = if ltb v 256 then ok (v ∷ []) else err struct_error

unfoldable pub write_u16 : ℕ → Put
write_u16 v = if ltb v (256 ^ 2) then ok (le_bytes 2 v) else err struct_error

unfoldable pub write_i32 : ℤ → Put
write_i32 v =
    if fits_signed (2 ^ 31) v
    then ok (le_bytes 4 (to_twos (2 ^ 31 + 2 ^ 31) v))
    else err struct_error

unfoldable pub write_i64 : ℤ → Put
write_i64 v =
    if fits_signed (2 ^ 63) v
    then ok (le_bytes 8 (to_twos (2 ^ 63 + 2 ^ 63) v))
    else err struct_error

-- A float is its 64-bit pattern.
unfoldable pub write_f64 : ℕ → Put
write_f64 v = if ltb v (256 ^ 8) then ok (le_bytes 8 v) else err struct_error

-- `self.buf.write(bytes)`
unfoldable pub write_bytes : Bytes → Put
write_bytes bs = ok bs

-- `self.data[self.pos]` raises `IndexError` past the end.
unfoldable pub read_u8 : Reader ℕ
read_u8 [] = err index_error
read_u8 (b ∷ bs) = ok (b, bs)

-- The next `n` bytes, or `e` if fewer are left: `struct.unpack_from` raises `struct.error`.
unfoldable pub read_exact : Error → ℕ → Reader Bytes
read_exact e n bs = if ltb (length bs) n then err e else ok (take n bs, drop n bs)

unfoldable pub read_u16 : Reader ℕ
read_u16 = read_exact struct_error 2 >>= λ bs. pure (le_value bs)

unfoldable pub read_i32 : Reader ℤ
read_i32 = read_exact struct_error 4 >>= λ bs. pure (of_twos (2 ^ 31 + 2 ^ 31) (le_value bs))

unfoldable pub read_i64 : Reader ℤ
read_i64 = read_exact struct_error 8 >>= λ bs. pure (of_twos (2 ^ 63 + 2 ^ 63) (le_value bs))

unfoldable pub read_f64 : Reader ℕ
read_f64 = read_exact struct_error 8 >>= λ bs. pure (le_value bs)

-- `self.data[self.pos:self.pos + length]` is cut at the end of the data.
unfoldable pub read_slice : ℕ → Reader Bytes
read_slice n bs = ok (take n bs, drop n bs)
