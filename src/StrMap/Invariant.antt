-- ===== src/StrMap/Invariant.antt =====
-- When a `StrMap` is well formed, and what the loops find in a well-formed one.
use nathra.Common.{
  ℕ, zero, suc, ◌+◌, ◌-◌, ◌^◌, ◌≤◌, ◌<◌, ◌≡◌, refl, sym, subst, ◌⊎◌, inl, inr, Option, none, some,
  arith, if◌then◌else◌,
}
use Prim.Native.Nat.{bit_and}
use nathra.Wire.Bytes.{Bytes}
use nathra.StrMap.Hash.{str_hash}
use nathra.StrMap.Probe.{SlotState, occupied, Array, update, probe}
use nathra.StrMap.Loops.{probe-hit, probe-below}
use nathra.StrMap.Mask.{bit_and-mask_lt}
use nathra.StrMap.Table.{StrMap, is_occupied, view, mask, start}
use nathra.StrMap.Locate.{locate}
use nathra.StrMap.View.{view-hit}

pub Option-cases : (o : Option ℕ) → (o ≡ none) ⊎ ((j : ℕ) × (o ≡ some j))
Option-cases none = inl refl
Option-cases (some j) = inr (j, refl)

-- The number of occupied slots among the first n.
unfoldable pub occupied_below : Array SlotState → ℕ → ℕ
occupied_below states zero = 0
occupied_below states (suc n) =
    if is_occupied (states n) then suc (occupied_below states n) else occupied_below states n

-- The loop alone, without the test of the count.
unfoldable pub search : StrMap → Bytes → Option ℕ
search m key = probe (view m key) (mask m) m.cap (start m key)

-- The capacity is a power of two, the probes for a stored key end at its slot, and the count is
-- that of the occupied slots.
pub record IsWellFormed (m : StrMap) : Type 0 where
  pub log_cap : ℕ
  pub power : m.cap ≡ 2 ^ log_cap
  pub hashed : (j : ℕ) → m.states j ≡ occupied → m.hashes j ≡ str_hash (m.keys j)
  pub found : (j : ℕ) → m.states j ≡ occupied → search m (m.keys j) ≡ some j
  pub counted : m.count ≡ occupied_below m.states m.cap

pub mask-below : (m : StrMap) → IsWellFormed m → (a : ℕ) → bit_and a (mask m) < m.cap
mask-below m wf a = subst (λ c. bit_and a (c - 1) < c) (sym wf.power) (bit_and-mask_lt a wf.log_cap)

pub search-below :
    (m : StrMap) (key : Bytes) {j : ℕ} → IsWellFormed m → search m key ≡ some j → j < m.cap
unfolding search
search-below m key wf h =
    probe-below (view m key) (mask m) m.cap (mask-below m wf) m.cap (start m key)
      (mask-below m wf (str_hash key)) h

pub search-holds :
    (m : StrMap) (key : Bytes) {j : ℕ}
    → search m key ≡ some j
    → (m.states j ≡ occupied) × (m.keys j ≡ key)
unfolding search
search-holds m key {j} h =
    let (s, (_, k)) = view-hit m key j (probe-hit (view m key) (mask m) m.cap (start m key) h) in
    (s, k)

occupied_below-positive :
    (states : Array SlotState) (n j : ℕ) → j < n → states j ≡ occupied → 0 < occupied_below states n
unfolding occupied_below
occupied_below-positive states zero j lt h = absurd (omega arith)
occupied_below-positive states (suc n) j lt h = grind (arith, occupied_below-positive states n j)

pub search-counted :
    (m : StrMap) (key : Bytes) {j : ℕ} → IsWellFormed m → search m key ≡ some j → 0 < m.count
search-counted m key {j} wf h =
    let (s, _) = search-holds m key h in
    subst (λ c. 0 < c) (sym wf.counted)
      (occupied_below-positive m.states m.cap j (search-below m key wf h) s)

-- The test of the count only saves time.
pub locate-search : (m : StrMap) (key : Bytes) → IsWellFormed m → locate m key ≡ search m key
unfolding locate search
locate-search m key wf = elim (Option-cases (search m key)) [
  | inl e ↦ grind (arith, e)
  | inr (j, e) ↦ grind (arith, e, search-counted m key wf e)
]

occupied_below-beyond :
    (states : Array SlotState) (s : SlotState) (n i : ℕ)
    → n ≤ i
    → occupied_below (update states i s) n ≡ occupied_below states n
unfolding occupied_below update
occupied_below-beyond states s zero i le = refl
occupied_below-beyond states s (suc n) i le = grind (arith, occupied_below-beyond states s n i)

pub occupied_below-update :
    (states : Array SlotState) (s : SlotState) (n i : ℕ)
    → i < n
    → occupied_below (update states i s) n + (if is_occupied (states i) then 1 else 0)
      ≡ occupied_below states n + (if is_occupied s then 1 else 0)
unfolding occupied_below update
occupied_below-update states s zero i lt = absurd (omega arith)
occupied_below-update states s (suc n) i lt =
    grind (arith, occupied_below-update states s n i, occupied_below-beyond states s n i)

pub occupied_below-le : (states : Array SlotState) (n : ℕ) → occupied_below states n ≤ n
unfolding occupied_below
occupied_below-le states zero = omega arith
occupied_below-le states (suc n) = grind (arith, occupied_below-le states n)
