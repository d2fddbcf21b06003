-- ===== src/StrMap/SetDuplicate.antt =====
-- `strset_add` in native/src/strmap.py at a tombstone.
use nathra.Common.{
  ℕ, zero, suc, ◌+◌, ◌-◌, ◌*◌, ◌<◌, ◌≡◌, refl, sym, subst, ◌∙◌, inl, inr, Option, some, arith,
}
use Prim.Native.Nat.{bit_and}
use nathra.Wire.Bytes.{Bytes}
use nathra.StrMap.Hash.{str_hash, str_eq_refl}
use nathra.StrMap.Probe.{occupied, tombstone, Array, Probe, deleted, hit, inspect, probe, update}
use nathra.StrMap.Table.{mask}
use nathra.StrMap.Invariant.{Option-cases}
use nathra.StrMap.Set.{
  StrSet, set_view, place, add_slot, write_key, add_key, delete_key, strset_add, strset_has,
  strset_delete,
}
use nathra.StrMap.Loops.{probe-frame}
use nathra.StrMap.Locate.{locate_key, strset_has-locate, strset_delete-locate}
use nathra.StrMap.SetGrow.{strset_add_within-writes}

-- The first slot that the loops look at.
abbrev pub first_slot : StrSet → Bytes → ℕ
first_slot s key = bit_and (str_hash key) (s.cap - 1)

add_slot-tombstone :
    (p : Array Probe) (mask n idx : ℕ) → 0 < n → p idx ≡ deleted → add_slot p mask n idx ≡ place idx
unfolding add_slot
add_slot-tombstone p mask zero idx lt h = absurd (omega arith)
add_slot-tombstone p mask (suc n) idx lt h = grind arith

probe-first :
    (p : Array Probe) (mask n idx : ℕ) → 0 < n → p idx ≡ hit → probe p mask n idx ≡ some idx
unfolding probe
probe-first p mask zero idx lt h = absurd (omega arith)
probe-first p mask (suc n) idx lt h = grind arith

strset_add-light :
    (s : StrSet) (key : Bytes) {s' : StrSet}
    → s.count * 4 < s.cap * 3
    → strset_add s key ≡ some s'
    → add_key s key ≡ s'
unfolding strset_add
strset_add-light s key light h = strset_add_within-writes 1 s key light h

unfoldable probed : StrSet → Bytes → Option ℕ
probed s key = probe (set_view s key) (s.cap - 1) s.cap (first_slot s key)

has-probed :
    (s : StrSet) (key : Bytes)
    → strset_has s key ≡ 1
    → (0 < s.count) × ((j : ℕ) × (probed s key ≡ some j))
unfolding locate_key probed
has-probed s key h = elim (Option-cases (probed s key)) [
  | inl e ↦ absurd (grind (arith, h, e, strset_has-locate s key))
  | inr (j, e) ↦ (grind (arith, h, e, strset_has-locate s key), (j, e))
]

probed-has :
    (s : StrSet) (key : Bytes) {j : ℕ} → 0 < s.count → probed s key ≡ some j → strset_has s key ≡ 1
unfolding locate_key probed
probed-has s key lt e = grind (arith, lt, e, strset_has-locate s key)

-- The set after the key is written to a slot, and after that slot is a tombstone again.
unfoldable buried_again : StrSet → Bytes → ℕ → StrSet
buried_again s key i = record (write_key s i key) {
  states = update (update s.states i occupied) i tombstone;
  count = s.count + 1 - 1;
}

module _ (s : StrSet) (key : Bytes) (tomb : s.states (first_slot s key) ≡ tombstone) where
  view-deleted : set_view s key (first_slot s key) ≡ deleted
  unfolding set_view inspect
  view-deleted = grind (arith, tomb)

  add_key-first : 0 < s.cap → add_key s key ≡ write_key s (first_slot s key) key
  unfolding add_key
  add_key-first room = grind (
    arith,
    add_slot-tombstone (set_view s key) (s.cap - 1) s.cap (first_slot s key) room view-deleted,
  )

  view-written : set_view (write_key s (first_slot s key) key) key (first_slot s key) ≡ hit
  unfolding set_view inspect write_key update
  view-written = grind (arith, str_eq_refl key)

  delete-written :
      0 < s.cap
      → strset_delete (write_key s (first_slot s key) key) key
        ≡ (1, buried_again s key (first_slot s key))
  unfolding locate_key delete_key write_key buried_again
  delete-written room = grind (
    arith,
    strset_delete-locate (write_key s (first_slot s key) key) key,
    probe-first (set_view (write_key s (first_slot s key) key) key) (s.cap - 1) s.cap
        (first_slot s key) room view-written,
  )

  -- Every slot looks as it did before.
  view-again : (j : ℕ) → set_view (buried_again s key (first_slot s key)) key j ≡ set_view s key j
  unfolding set_view buried_again write_key update inspect
  view-again j = grind (arith, tomb)

  still_counted : 0 < s.count → 0 < (buried_again s key (first_slot s key)).count
  unfolding buried_again
  still_counted lt = omega arith

  probed-again :
      {j : ℕ} → probed s key ≡ some j → probed (buried_again s key (first_slot s key)) key ≡ some j
  unfolding probed buried_again write_key
  probed-again e =
      probe-frame (set_view s key) (set_view (buried_again s key (first_slot s key)) key)
        (s.cap - 1) s.cap (first_slot s key) (λ j. inl (view-again j)) e

  has-again : strset_has s key ≡ 1 → strset_has (buried_again s key (first_slot s key)) key ≡ 1
  has-again h =
      let (some_left, (j, e)) = has-probed s key h in
      probed-has (buried_again s key (first_slot s key)) key (still_counted some_left)
        (probed-again e)

write_key-count : (s : StrSet) (key : Bytes) (i : ℕ) → (write_key s i key).count ≡ s.count + 1
unfolding write_key
write_key-count s key i = refl

-- When the set is light, the key is in it and the first slot of the key is a tombstone, strset_add
-- stores the key a second time: the count grows by one although the key was there, and after
-- strset_delete of the key strset_has still says that it is there.
pub strset_add-duplicate :
    (s : StrSet) (key : Bytes) {s' : StrSet}
    → s.count * 4 < s.cap * 3
    → strset_has s key ≡ 1
    → s.states (first_slot s key) ≡ tombstone
    → strset_add s key ≡ some s'
    → (s'.count ≡ s.count + 1) × (strset_has (strset_delete s' key).1 key ≡ 1)
strset_add-duplicate s key {s'} light has tomb h =
    let room : 0 < s.cap = omega arith in
    let written : s' ≡ write_key s (first_slot s key) key =
      sym (strset_add-light s key light h) ∙ add_key-first s key tomb room in
    (
      subst (λ x. x.count ≡ s.count + 1) (sym written) (write_key-count s key _),
      subst (λ x. strset_has (strset_delete x key).1 key ≡ 1) (sym written)
          (subst (λ r. strset_has r.1 key ≡ 1) (sym (delete-written s key tomb room))
            (has-again s key tomb has)),
    )
