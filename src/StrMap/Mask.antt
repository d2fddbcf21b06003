-- ===== src/StrMap/Mask.antt =====
-- `& mask` in native/src/strmap.py: with a power of two as capacity it is the remainder, and the
-- probes come to every slot.
use nathra.Common.{ℕ, zero, suc, ◌+◌, ◌-◌, ◌*◌, ◌/◌, ◌%◌, ◌^◌, ◌≤◌, ◌<◌, ◌≡◌, sym, ap, ◌∙◌, arith}
use Prim.Native.Nat.{min, bit_and, digits, bit_and-bitwise}
use native.Mathlib.Nat.{
  add-mul-mod_self_left, div-add-mod, mod-lt, mod-eq_of_lt, add-mod_right, mod-add-mod, mod-one,
  pow-succ', add-zero,
}
use native.Mathlib.Decide.{dec_lt}
use nathra.StrMap.Loops.{steps}

pub pow_two-positive : (k : ℕ) → 0 < 2 ^ k
pow_two-positive zero = omega arith
pow_two-positive (suc k) = omega (arith, pow_two-positive k)

-- The lowest digit of a remainder.
mod-double : (a p : ℕ) → 0 < p → a % (2 * p) ≡ a / 2 % p * 2 + a % 2
mod-double a p h =
    let r = a / 2 % p * 2 + a % 2 in
    let q = a / 2 / p in
    let is_sum : a ≡ r + 2 * p * q = omega (arith, div-add-mod (a / 2) p) in
    ap (λ x. x % (2 * p)) is_sum
    ∙ add-mul-mod_self_left r (2 * p) q
    ∙ mod-eq_of_lt (omega (arith, mod-lt (a / 2) h))

-- A mask of k ones takes the lowest k digits.
mask_digits : (n a k : ℕ) → a ≤ n → digits (λ b. zero) min n a (2 ^ k - 1) ≡ a % 2 ^ k
mask_digits zero zero k h = omega (arith, mod-eq_of_lt (pow_two-positive k))
mask_digits zero (suc a) k h = absurd (omega arith)
mask_digits (suc n) zero k h = omega (arith, mod-eq_of_lt (pow_two-positive k))
mask_digits (suc n) (suc a) zero h =
    omega (arith, mask_digits n (suc a / 2) 0 (omega arith), mod-one (suc a))
mask_digits (suc n) (suc a) (suc k) h =
    let half : (2 ^ suc k - 1) / 2 ≡ 2 ^ k - 1 = omega (arith, pow_two-positive k) in
    let odd : (2 ^ suc k - 1) % 2 ≡ 1 = omega (arith, pow_two-positive k) in
    let low : min (suc a % 2) 1 ≡ suc a % 2 = omega arith in
    rw (
      half,
      odd,
      mask_digits n (suc a / 2) k (omega arith),
      pow-succ' 2 k,
      mod-double (suc a) (2 ^ k) (pow_two-positive k),
      low,
    )

pub bit_and-mask : (a k : ℕ) → bit_and a (2 ^ k - 1) ≡ a % 2 ^ k
bit_and-mask a k = bit_and-bitwise a (2 ^ k - 1) ∙ mask_digits a a k (omega arith)

pub bit_and-mask_lt : (a k : ℕ) → bit_and a (2 ^ k - 1) < 2 ^ k
bit_and-mask_lt a k = omega (arith, bit_and-mask a k, mod-lt a (pow_two-positive k))

pub steps_lem : (k n idx : ℕ) → idx < 2 ^ k → steps (2 ^ k - 1) n idx ≡ (idx + n) % 2 ^ k
unfolding steps
steps_lem k zero idx h = sym (ap (λ x. x % 2 ^ k) (add-zero idx) ∙ mod-eq_of_lt h)
steps_lem k (suc n) idx h =
    steps_lem k n (bit_and (idx + 1) (2 ^ k - 1)) (bit_and-mask_lt (idx + 1) k)
    ∙ ap (λ x. (x + n) % 2 ^ k) (bit_and-mask (idx + 1) k)
    ∙ mod-add-mod (idx + 1) (2 ^ k) n
    ∙ ap (λ x. x % 2 ^ k) (omega arith)

-- From any slot, every slot is fewer than `cap` steps away.
pub steps-reach :
    (k idx i : ℕ)
    → idx < 2 ^ k
    → i < 2 ^ k
    → (n : ℕ) × ((n < 2 ^ k) × (steps (2 ^ k - 1) n idx ≡ i))
steps-reach k idx i h h' = elim (dec_lt i idx) [
  | yes lt ↦ (
    i + 2 ^ k - idx,
    (
      omega arith,
      steps_lem k (i + 2 ^ k - idx) idx h
          ∙ ap (λ x. x % 2 ^ k) (omega arith)
          ∙ add-mod_right i (2 ^ k)
          ∙ mod-eq_of_lt h',
    ),
  )
  | no ge ↦ (
    i - idx,
    (
      omega arith,
      steps_lem k (i - idx) idx h ∙ ap (λ x. x % 2 ^ k) (omega arith) ∙ mod-eq_of_lt h',
    ),
  )
]
