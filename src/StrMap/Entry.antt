-- ===== src/StrMap/Entry.antt =====
-- A `StrMap` as a finite map: the value it holds for a key, and the map after a write.
use nathra.Common.{
  ℕ, zero, suc, ◌-◌, ◌<◌, ◌≡◌, ◌≢◌, refl, sym, ap, subst, ◌∙◌, ◌⊎◌, inl, inr, true, false,
  Bool-cases, Option, none, some, arith, if◌then◌else◌,
}
use mathlib.Core.Option.{map, bind, none-ne-some}
use nathra.Wire.Bytes.{Bytes}
use nathra.StrMap.Hash.{str_hash, str_eq, str_eq_refl, str_eq_sound}
use nathra.StrMap.Probe.{SlotState, empty, occupied, tombstone, Array, update, other, inspect}
use nathra.StrMap.Loops.{find_slot-reaches, steps}
use nathra.StrMap.Mask.{steps-reach}
use nathra.StrMap.Table.{
  StrMap, is_occupied, view, mask, start, strmap_find_slot, write_slot, store, strmap_get,
  strmap_has, null,
}
use nathra.StrMap.Locate.{strmap_get-locate, strmap_has-locate}
use nathra.StrMap.View.{update_here, update_elsewhere}
use nathra.StrMap.Invariant.{
  IsWellFormed, Option-cases, search, locate-search, mask-below, occupied_below,
}
use nathra.StrMap.Store.{search-write_self, search-write_keeps, search-write_only}

unfoldable pub entry : StrMap → Bytes → Option ℕ
entry m key = map m.values (search m key)

-- `NULL` for a key that is not there.
pub strmap_get-entry :
    (m : StrMap) (key : Bytes)
    → IsWellFormed m
    → strmap_get m key ≡ elim (entry m key) [ none ↦ null | some value ↦ value ]
unfolding entry
strmap_get-entry m key wf = grind (arith, strmap_get-locate m key, locate-search m key wf)

pub strmap_has-entry :
    (m : StrMap) (key : Bytes)
    → IsWellFormed m
    → strmap_has m key ≡ elim (entry m key) [ none ↦ 0 | some _ ↦ 1 ]
unfolding entry
strmap_has-entry m key wf = grind (arith, strmap_has-locate m key, locate-search m key wf)

pub str_eq-false : (s t : Bytes) → str_eq s t ≡ false → s ≢ t
str_eq-false s t h e = absurd (cc (subst (λ x. str_eq s x ≡ true) e (str_eq_refl s), h))

entry-write_self :
    (m : StrMap) (key : Bytes) (value : ℕ) {i : ℕ}
    → strmap_find_slot m key ≡ some i
    → entry (write_slot m i key value) key ≡ some value
unfolding entry write_slot
entry-write_self m key value {i} at =
    ap (λ o. map (update m.values i value) o) (search-write_self m key value at)
    ∙ ap (λ x. some x) (update_here m.values i value)

entry-write_other :
    (m : StrMap) (key : Bytes) (value : ℕ) {i : ℕ}
    → IsWellFormed m
    → strmap_find_slot m key ≡ some i
    → (key' : Bytes) → key ≢ key'
    → entry (write_slot m i key value) key' ≡ entry m key'
unfolding entry write_slot
entry-write_other m key value {i} wf at key' ne =
    elim (Option-cases (search (write_slot m i key value) key')) [
      | inr (j, e) ↦
          let (far, e') = search-write_only m key value at key' wf ne e in
          ap (λ o. map (update m.values i value) o) e
          ∙ ap (λ x. some x) (update_elsewhere m.values i value j far)
          ∙ sym (ap (λ o. map m.values o) e')
      | inl e ↦ elim (Option-cases (search m key')) [
        | inl e' ↦ ap (λ o. map (update m.values i value) o) e ∙ sym (ap (λ o. map m.values o) e')
        | inr (j, e') ↦
            absurd (none-ne-some j (sym e ∙ search-write_keeps m key value at key' ne e'))
      ]
    ]

pub entry-write :
    (m : StrMap) (key : Bytes) (value : ℕ) {i : ℕ}
    → IsWellFormed m
    → strmap_find_slot m key ≡ some i
    → (key' : Bytes)
    → entry (write_slot m i key value) key' ≡ (if str_eq key key' then some value else entry m key')
entry-write m key value {i} wf at key' = elim (Bool-cases (str_eq key key')) [
  | inl e ↦ rw e (
      subst (λ k. entry (write_slot m i key value) k ≡ some value) (str_eq_sound key key' e)
        (entry-write_self m key value at))
  | inr e ↦ rw e (entry-write_other m key value wf at key' (str_eq-false key key' e))
]

pub occupied-or : (s : SlotState) → (s ≡ occupied) ⊎ ((is_occupied s ≡ false) × (s ≢ occupied))
occupied-or empty = inr (refl, λ e. cc e)
occupied-or occupied = inl refl
occupied-or tombstone = inr (refl, λ e. cc e)

-- A table that is not full has a slot that is not occupied.
free_slot :
    (states : Array SlotState) (n : ℕ)
    → occupied_below states n < n
    → (j : ℕ) × ((j < n) × (states j ≢ occupied))
unfolding occupied_below
free_slot states zero lt = absurd (omega arith)
free_slot states (suc n) lt = elim (occupied-or (states n)) [
  | inl e ↦ let (j, (lt', ne)) = free_slot states n (grind (arith, lt, e)) in (j, (omega arith, ne))
  | inr (_, ne) ↦ (n, (omega arith, ne))
]

view-not_occupied :
    (m : StrMap) (key : Bytes) (j : ℕ) → m.states j ≢ occupied → view m key j ≢ other
unfolding view inspect
view-not_occupied m key j ne h = grind arith

-- The probes come to it, so `_strmap_find_slot` does not return -1.
strmap_find_slot-succeeds :
    (m : StrMap) (key : Bytes) → IsWellFormed m → m.count < m.cap → strmap_find_slot m key ≢ none
unfolding strmap_find_slot
strmap_find_slot-succeeds m key wf lt =
    let (j, (below, ne)) = free_slot m.states m.cap (subst (λ c. c < m.cap) wf.counted lt) in
    let first : start m key < m.cap = mask-below m wf (str_hash key) in
    let (n, (few, e)) =
      steps-reach wf.log_cap (start m key) j (subst (λ c. start m key < c) wf.power first)
        (subst (λ c. j < c) wf.power below) in
    find_slot-reaches (view m key) (mask m) m.cap (start m key) n
      (subst (λ c. n < c) (sym wf.power) few)
      (subst (λ x. view m key x ≢ other)
        (sym (ap (λ c. steps (c - 1) n (start m key)) wf.power ∙ e)) (view-not_occupied m key j ne))

pub strmap_find_slot-ends :
    (m : StrMap) (key : Bytes)
    → IsWellFormed m
    → m.count < m.cap
    → (i : ℕ) × (strmap_find_slot m key ≡ some i)
strmap_find_slot-ends m key wf lt = elim (Option-cases (strmap_find_slot m key)) [
  | inl e ↦ absurd (strmap_find_slot-succeeds m key wf lt e)
  | inr found ↦ found
]

pub store-found :
    (m : StrMap) (key : Bytes) (value : ℕ) {i : ℕ}
    → strmap_find_slot m key ≡ some i
    → store m key value ≡ some (write_slot m i key value)
unfolding store bind
store-found m key value at = rw at refl
