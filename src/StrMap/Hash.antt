-- ===== src/StrMap/Hash.antt =====
-- native/src/strmap.py, `str_hash`, and the runtime's `str_eq`. A string is its bytes.
use nathra.Common.{
  ℕ, ◌*◌, ◌%◌, ◌^◌, ◌≡◌, refl, Bool, true, false, [], ◌∷◌, arith, ◌==◌, ==_iff, if◌then◌else◌,
}
use Prim.Native.Nat.{bit_xor}
use nathra.Wire.Bytes.{Bytes}

abbrev pub fnv_offset : ℕ
fnv_offset = 14695981039346656037

abbrev pub fnv_prime : ℕ
fnv_prime = 1099511628211

-- The loop, on a hash of 64 bits.
unfoldable pub hash_bytes : Bytes → ℕ → ℕ
hash_bytes [] h = h
hash_bytes (b ∷ bs) h = hash_bytes bs (bit_xor h b * fnv_prime % 2 ^ 64)

unfoldable pub str_hash : Bytes → ℕ
unfolding hash_bytes
str_hash s = hash_bytes s fnv_offset % 2 ^ 32

unfoldable pub str_eq : Bytes → Bytes → Bool
str_eq [] [] = true
str_eq (a ∷ xs) (b ∷ ys) = if a == b then str_eq xs ys else false
str_eq _ _ = false

pub str_eq_refl : (s : Bytes) → str_eq s s ≡ true
unfolding str_eq
str_eq_refl [] = refl
str_eq_refl (a ∷ s) = ground (arith, str_eq_refl s)

pub str_eq_sound : (s t : Bytes) → str_eq s t ≡ true → s ≡ t
unfolding str_eq
str_eq_sound [] [] h = refl
str_eq_sound [] (b ∷ t) h = absurd (cc h)
str_eq_sound (a ∷ s) [] h = absurd (cc h)
str_eq_sound (a ∷ s) (b ∷ t) h = grind (arith, ==_iff a b, str_eq_sound s t)

hash_a : str_hash (97 ∷ []) ≡ 0x8601ec8c
unfolding str_hash hash_bytes
hash_a = refl
