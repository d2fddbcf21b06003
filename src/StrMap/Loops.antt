-- ===== src/StrMap/Loops.antt =====
-- What the two loops of native/src/strmap.py find, for any order of the slots.
use nathra.Common.{ℕ, zero, suc, ◌+◌, ◌<◌, ◌≡◌, ◌≢◌, refl, subst, ◌⊎◌, Option, none, some, arith}
use Prim.Native.Nat.{bit_and}
use mathlib.Core.Option.{some-injective}
use nathra.StrMap.Probe.{Array, Probe, deleted, hit, other, probe, find_slot, or_else}

pub probe-hit : (p : Array Probe) (mask n idx : ℕ) {j : ℕ} → probe p mask n idx ≡ some j → p j ≡ hit
unfolding probe
probe-hit p mask zero idx h = absurd (cc h)
probe-hit p mask (suc n) idx h = grind (arith, probe-hit p mask n (bit_and (idx + 1) mask))

-- What the loop finds is found still when other slots hold other keys or become tombstones.
pub probe-frame :
    (p q : Array Probe) (mask n idx : ℕ) {j : ℕ}
    → ((i : ℕ) → (q i ≡ p i) ⊎ ((p i ≢ hit) × ((q i ≡ other) ⊎ (q i ≡ deleted))))
    → probe p mask n idx ≡ some j
    → probe q mask n idx ≡ some j
unfolding probe
probe-frame p q mask zero idx same h = h
probe-frame p q mask (suc n) idx same h =
    grind (arith, same idx, probe-frame p q mask n (bit_and (idx + 1) mask) same)

-- A key that is found is found by `_strmap_find_slot` too, whatever tombstones precede it.
pub find_slot-probe :
    (p : Array Probe) (mask n idx : ℕ) (t : Option ℕ) {j : ℕ}
    → probe p mask n idx ≡ some j
    → find_slot p mask n idx t ≡ some j
unfolding probe find_slot
find_slot-probe p mask zero idx t h = absurd (cc h)
find_slot-probe p mask (suc n) idx t h = grind (
  arith,
  find_slot-probe p mask n (bit_and (idx + 1) mask) t,
  find_slot-probe p mask n (bit_and (idx + 1) mask) (or_else t idx),
)

-- The slot it returns never holds another key.
find_slot-usable_from :
    (p : Array Probe) (mask n idx : ℕ) (t : Option ℕ) {i : ℕ}
    → ((t ≡ some i) → p i ≢ other)
    → find_slot p mask n idx t ≡ some i
    → p i ≢ other
unfolding find_slot
find_slot-usable_from p mask zero idx t ok h = ok h
find_slot-usable_from p mask (suc n) idx none ok h = grind (
  arith,
  find_slot-usable_from p mask n (bit_and (idx + 1) mask) none,
  find_slot-usable_from p mask n (bit_and (idx + 1) mask) (some idx),
)
find_slot-usable_from p mask (suc n) idx (some t) ok h =
    grind (arith, find_slot-usable_from p mask n (bit_and (idx + 1) mask) (some t) ok)

pub find_slot-usable :
    (p : Array Probe) (mask n idx : ℕ) {i : ℕ} → find_slot p mask n idx none ≡ some i → p i ≢ other
find_slot-usable p mask n idx h = find_slot-usable_from p mask n idx none (λ e. absurd (cc e)) h

-- With a tombstone in hand, any other slot is returned because it holds the key.
find_slot-past_tombstone :
    (p : Array Probe) (mask n idx t : ℕ) {i : ℕ}
    → find_slot p mask n idx (some t) ≡ some i
    → i ≢ t
    → probe p mask n idx ≡ some i
unfolding find_slot probe
find_slot-past_tombstone p mask zero idx t h ne = absurd (grind arith)
find_slot-past_tombstone p mask (suc n) idx t h ne =
    grind (arith, find_slot-past_tombstone p mask n (bit_and (idx + 1) mask) t)

probe-same_elsewhere :
    (p q : Array Probe) (mask n idx : ℕ) {i : ℕ}
    → ((j : ℕ) → (j ≡ i) ⊎ (q j ≡ p j))
    → q i ≡ hit
    → probe p mask n idx ≡ some i
    → probe q mask n idx ≡ some i
probe-same_elsewhere p q mask n idx same now h =
    probe-frame p q mask n idx (λ j. grind (arith, same j, probe-hit p mask n idx h)) h

-- Once the key stands in the slot that `_strmap_find_slot` returned, the other loop meets it there.
pub probe-find_slot :
    (p q : Array Probe) (mask n idx : ℕ) {i : ℕ}
    → ((j : ℕ) → (j ≡ i) ⊎ (q j ≡ p j))
    → q i ≡ hit
    → find_slot p mask n idx none ≡ some i
    → probe q mask n idx ≡ some i
unfolding probe find_slot
probe-find_slot p q mask zero idx same now h = absurd (cc h)
probe-find_slot p q mask (suc n) idx same now h = grind (
  arith,
  same idx,
  probe-find_slot p q mask n (bit_and (idx + 1) mask) same now,
  find_slot-past_tombstone p mask n (bit_and (idx + 1) mask) idx,
  probe-same_elsewhere p q mask n (bit_and (idx + 1) mask) same now,
)

-- The slot that k steps lead to.
unfoldable pub steps : ℕ → ℕ → ℕ → ℕ
steps mask zero idx = idx
steps mask (suc k) idx = steps mask k (bit_and (idx + 1) mask)

find_slot-kept : (p : Array Probe) (mask n idx t : ℕ) → find_slot p mask n idx (some t) ≢ none
unfolding find_slot
find_slot-kept p mask zero idx t h = absurd (cc h)
find_slot-kept p mask (suc n) idx t h =
    grind (arith, find_slot-kept p mask n (bit_and (idx + 1) mask) t)

-- If the loop gets to a slot without another key, it returns a slot.
pub find_slot-reaches :
    (p : Array Probe) (mask n idx k : ℕ)
    → k < n
    → p (steps mask k idx) ≢ other
    → find_slot p mask n idx none ≢ none
unfolding find_slot steps
find_slot-reaches p mask zero idx k lt ne h = absurd (omega arith)
find_slot-reaches p mask (suc n) idx zero lt ne h =
    grind (arith, find_slot-kept p mask n (bit_and (idx + 1) mask) idx)
find_slot-reaches p mask (suc n) idx (suc k) lt ne h = grind (
  arith,
  find_slot-reaches p mask n (bit_and (idx + 1) mask) k,
  find_slot-kept p mask n (bit_and (idx + 1) mask) idx,
)

-- Both loops stay within the table if the mask does.
module _ (p : Array Probe) (mask cap : ℕ) (bound : (a : ℕ) → bit_and a mask < cap) where
  pub probe-below : (n idx : ℕ) {j : ℕ} → idx < cap → probe p mask n idx ≡ some j → j < cap
  unfolding probe
  probe-below zero idx lt h = absurd (cc h)
  probe-below (suc n) idx lt h =
      grind (arith, probe-below n (bit_and (idx + 1) mask) (bound (idx + 1)))

  find_slot-below_from :
      (n idx : ℕ) (t : Option ℕ) {j : ℕ}
      → ((i : ℕ) → t ≡ some i → i < cap)
      → idx < cap
      → find_slot p mask n idx t ≡ some j
      → j < cap
  unfolding find_slot
  find_slot-below_from zero idx t first lt h = first _ h
  find_slot-below_from (suc n) idx none first lt h = grind (
    arith,
    find_slot-below_from n (bit_and (idx + 1) mask) none first (bound (idx + 1)),
    find_slot-below_from n (bit_and (idx + 1) mask) (some idx)
        (λ i e. subst (λ x. x < cap) (some-injective idx i e) lt) (bound (idx + 1)),
  )
  find_slot-below_from (suc n) idx (some t) first lt h = grind (
    arith,
    first t refl,
    find_slot-below_from n (bit_and (idx + 1) mask) (some t) first (bound (idx + 1)),
  )

  pub find_slot-below :
      (n idx : ℕ) {j : ℕ} → idx < cap → find_slot p mask n idx none ≡ some j → j < cap
  find_slot-below n idx lt h = find_slot-below_from n idx none (λ i e. absurd (cc e)) lt h
