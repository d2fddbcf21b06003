-- ===== src/StrMap/Probe.antt =====
-- native/src/strmap.py: the slots of a table, and the loop of `_strmap_find_slot`. What a loop does
-- at a slot depends on what `inspect` finds there.
use nathra.Common.{ℕ, zero, suc, ◌+◌, Option, none, some, ◌==◌, if◌then◌else◌}
use Prim.Native.Nat.{bit_and}
use nathra.Wire.Bytes.{Bytes}
use nathra.StrMap.Hash.{str_eq}

-- `EMPTY`, `OCCUPIED` and `TOMBSTONE`
pub data SlotState : Type 0 where
  empty occupied tombstone : SlotState

-- An array is a function on its indexes.
abbrev pub Array {ℓ} : Type ℓ → Type ℓ
Array A = ℕ → A

unfoldable pub update {ℓ} : {A : Type ℓ} → Array A → ℕ → A → Array A
update a i x j = if j == i then x else a j

-- What a probe finds at a slot: nothing was ever there, a deleted entry, the key, another key.
pub data Probe : Type 0 where
  free deleted hit other : Probe

unfoldable pub inspect : Array Bytes → Array SlotState → Array ℕ → Bytes → ℕ → ℕ → Probe
inspect keys states hashes key h idx = elim (states idx) [
  | empty ↦ free
  | tombstone ↦ deleted
  | occupied ↦ if hashes idx == h then (if str_eq (keys idx) key then hit else other) else other
]

-- The index where the probes from `idx` on meet the key, within the given number of them. The loops
-- that look a key up are compared with it.
unfoldable pub probe : Array Probe → ℕ → ℕ → ℕ → Option ℕ
probe p mask zero idx = none
probe p mask (suc n) idx =
    let rest = probe p mask n (bit_and (idx + 1) mask) in
    elim (p idx) [ free ↦ none | hit ↦ some idx | deleted ↦ rest | other ↦ rest ]

abbrev pub or_else : Option ℕ → ℕ → Option ℕ
or_else none idx = some idx
or_else (some t) idx = some t

-- The loop of `_strmap_find_slot`; `none` is its -1, also for `first_tomb`.
unfoldable pub find_slot : Array Probe → ℕ → ℕ → ℕ → Option ℕ → Option ℕ
find_slot p mask zero idx first_tomb = first_tomb
find_slot p mask (suc n) idx first_tomb =
    let next = bit_and (idx + 1) mask in
    elim (p idx) [
      | free ↦ or_else first_tomb idx
      | hit ↦ some idx
      | deleted ↦ find_slot p mask n next (or_else first_tomb idx)
      | other ↦ find_slot p mask n next first_tomb
    ]
