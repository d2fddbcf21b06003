-- ===== src/StrMap/Machine.antt =====
-- The products of 32-bit integers in native/src/strmap.py. An `i32` is an `int32_t` in the generated
-- C, where a product that does not fit has no defined value.
use nathra.Common.{ℕ, ◌*◌, ◌^◌, ◌<◌, ◌≡◌, refl, Option, none, some, arith, ltb, if◌then◌else◌}
use mathlib.Core.Option.{bind}

-- `a * b` for counters, which are not negative; `none` when the product is not below 2 ^ 31.
unfoldable pub times : ℕ → ℕ → Option ℕ
times a b = if ltb (a * b) (2 ^ 31) then some (a * b) else none

pub times-fits : (a b : ℕ) → a * b < 2 ^ 31 → times a b ≡ some (a * b)
unfolding times
times-fits a b lt = grind (arith, lt)

pub times-eq : (a b : ℕ) {c : ℕ} → times a b ≡ some c → c ≡ a * b
unfolding times
times-eq a b h = grind (arith, h)

pub bind-eq-some :
    {A B : Type 0} (m : Option A) (f : A → Option B) {b : B}
    → bind m f ≡ some b
    → (a : A) × ((m ≡ some a) × (f a ≡ some b))
unfolding bind
bind-eq-some none f h = cc
bind-eq-some (some a) f h = (a, (refl, h))
