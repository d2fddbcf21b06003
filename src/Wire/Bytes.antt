-- ===== src/Wire/Bytes.antt =====
-- Numbers as little-endian bytes: what `struct.pack` and `struct.unpack_from` do for the formats
-- "<H", "<i", "<q" and "<d". A byte string is a list of numbers; a float is its bit pattern.
use nathra.Common.{
  ℕ, zero, suc, ◌+◌, ◌-◌, ◌*◌, ◌/◌, ◌%◌, ◌^◌, ◌<◌, ◌≡◌, refl, ap, List, [], ◌∷◌, arith, ltb,
  if◌then◌else◌, length, ℤ, pos, negsuc, Bool, true,
}
use native.Mathlib.Nat.{pow-suc}

abbrev pub Bytes : Type 0
Bytes = List ℕ

unfoldable pub le_bytes : ℕ → ℕ → Bytes
le_bytes zero v = []
le_bytes (suc n) v = v % 256 ∷ le_bytes n (v / 256)

unfoldable pub le_value : Bytes → ℕ
le_value [] = 0
le_value (b ∷ bs) = b + 256 * le_value bs

pub length-le_bytes : (n v : ℕ) → length (le_bytes n v) ≡ n
unfolding le_bytes
length-le_bytes zero v = refl
length-le_bytes (suc n) v = ap suc (length-le_bytes n (v / 256))

-- The bytes of a number that fits are that number.
pub le_value-le_bytes : (n v : ℕ) → v < 256 ^ n → le_value (le_bytes n v) ≡ v
unfolding le_bytes le_value
le_value-le_bytes zero v h = omega arith
le_value-le_bytes (suc n) v h =
    omega (arith, pow-suc 256 n, le_value-le_bytes n (v / 256) (omega (arith, pow-suc 256 n)))

-- An integer as a bit pattern below `modulus`, and back.
unfoldable pub to_twos : ℕ → ℤ → ℕ
to_twos modulus (pos n) = n
to_twos modulus (negsuc n) = modulus - n - 1

unfoldable pub of_twos : ℕ → ℕ → ℤ
of_twos modulus v = if ltb (v + v) modulus then pos v else negsuc (modulus - v - 1)

-- The integers from -half to half - 1.
unfoldable pub fits_signed : ℕ → ℤ → Bool
fits_signed half (pos n) = ltb n half
fits_signed half (negsuc n) = ltb n half

pub of_twos-to_twos :
    (half : ℕ) (z : ℤ)
    → fits_signed half z ≡ true
    → of_twos (half + half) (to_twos (half + half) z) ≡ z
unfolding of_twos to_twos fits_signed
of_twos-to_twos half (pos n) h = ground arith
of_twos-to_twos half (negsuc n) h = ground arith

pub to_twos-lt :
    (half : ℕ) (z : ℤ) → fits_signed half z ≡ true → to_twos (half + half) z < half + half
unfolding to_twos fits_signed
to_twos-lt half (pos n) h = ground arith
to_twos-lt half (negsuc n) h = ground arith
