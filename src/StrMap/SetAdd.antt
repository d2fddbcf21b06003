-- ===== src/StrMap/SetAdd.antt =====
-- `strset_add` in native/src/strmap.py on a set without tombstones, after the test of the load.
use nathra.Common.{
  ℕ, zero, suc, ◌+◌, ◌≤◌, ◌≡◌, ◌≢◌, refl, sym, ap, subst, ◌∙◌, ◌⊎◌, inl, inr, false, Bool-cases,
  Option, none, some, arith, if◌then◌else◌,
}
use Prim.Native.Nat.{bit_and}
use mathlib.Core.Option.{map}
use nathra.Wire.Bytes.{Bytes}
use nathra.StrMap.Hash.{str_eq, str_eq_sound}
use nathra.StrMap.Probe.{tombstone, Array, Probe, free, deleted, hit, find_slot, inspect, update}
use nathra.StrMap.Table.{StrMap, null, view, mask, start, is_occupied, strmap_find_slot, write_slot}
use nathra.StrMap.View.{view-hit}
use nathra.StrMap.Invariant.{IsWellFormed, search}
use nathra.StrMap.Store.{write-IsWellFormed}
use nathra.StrMap.Entry.{entry, entry-write}
use nathra.StrMap.Set.{StrSet, set_view, place, present, no_slot, add_slot, write_key, add_key}
use nathra.StrMap.SetLaws.{as_map}

-- A set that nothing was deleted from.
pub record IsClean (s : StrSet) : Type 0 where
  pub well_formed : IsWellFormed (as_map s)
  pub undeleted : (j : ℕ) → s.states j ≢ tombstone

-- 1 for a member, 0 for another key.
unfoldable pub member : StrSet → Bytes → ℕ
member s key = elim (entry (as_map s) key) [ none ↦ 0 | some _ ↦ 1 ]

-- Without tombstones the loop ends where `_strmap_find_slot` ends.
add_slot-find_slot :
    (p : Array Probe) (mask n idx : ℕ) {i : ℕ}
    → ((j : ℕ) → p j ≢ deleted)
    → find_slot p mask n idx none ≡ some i
    → ((add_slot p mask n idx ≡ place i) × (p i ≡ free))
      ⊎ ((add_slot p mask n idx ≡ present) × (p i ≡ hit))
unfolding find_slot add_slot
add_slot-find_slot p mask zero idx clean h = absurd (cc h)
add_slot-find_slot p mask (suc n) idx clean h =
    grind (arith, clean idx, add_slot-find_slot p mask n (bit_and (idx + 1) mask) clean)

view-undeleted : (s : StrSet) (key : Bytes) → IsClean s → (j : ℕ) → view (as_map s) key j ≢ deleted
unfolding view as_map inspect
view-undeleted s key c j h = grind (arith, c.undeleted j)

view-free :
    (m : StrMap) (key : Bytes) (j : ℕ) → view m key j ≡ free → is_occupied (m.states j) ≡ false
unfolding view inspect
view-free m key j h = grind arith

-- A written key makes the set what a written entry makes the map.
search-write_key :
    (s : StrSet) (i : ℕ) (key k : Bytes)
    → search (as_map (write_key s i key)) k ≡ search (write_slot (as_map s) i key null) k
unfolding search as_map write_key write_slot view
search-write_key s i key k = refl

write_key-IsWellFormed :
    (s : StrSet) (i : ℕ) (key : Bytes)
    → is_occupied (s.states i) ≡ false
    → IsWellFormed (write_slot (as_map s) i key null)
    → IsWellFormed (as_map (write_key s i key))
unfolding as_map write_key write_slot search view
write_key-IsWellFormed s i key vacant wf = record {
  log_cap = wf.log_cap;
  power = wf.power;
  hashed = wf.hashed;
  found = wf.found;
  counted = grind (arith, wf.counted, vacant);
}

write_key-undeleted :
    (s : StrSet) (i : ℕ) (key : Bytes) (j : ℕ)
    → s.states j ≢ tombstone
    → (write_key s i key).states j ≢ tombstone
unfolding write_key update
write_key-undeleted s i key j ne h = grind arith

-- What adding a key does to a set.
pub record IsAdded (s : StrSet) (key : Bytes) (s' : StrSet) : Type 0 where
  pub clean : IsClean s'
  pub members : (k : Bytes) → member s' k ≡ (if str_eq key k then 1 else member s k)
  pub same_cap : s'.cap ≡ s.cap
  pub one_more : s'.count ≤ s.count + 1

abbrev pub is_some : Option ℕ → ℕ
is_some none = 0
is_some (some _) = 1

is_some-map : (f : ℕ → ℕ) (o : Option ℕ) → elim (map f o) [ none ↦ 0 | some _ ↦ 1 ] ≡ is_some o
is_some-map f none = refl
is_some-map f (some x) = refl

is_some-entry :
    (m : StrMap) (k : Bytes) → elim (entry m k) [ none ↦ 0 | some _ ↦ 1 ] ≡ is_some (search m k)
unfolding entry
is_some-entry m k = is_some-map m.values (search m k)

pub member-search : (s : StrSet) (k : Bytes) → member s k ≡ is_some (search (as_map s) k)
unfolding member
member-search s k = is_some-entry (as_map s) k

member-if :
    (s : StrSet) (key k : Bytes)
    → elim (if str_eq key k then some null else entry (as_map s) k) [ none ↦ 0 | some _ ↦ 1 ]
      ≡ (if str_eq key k then 1 else member s k)
unfolding member
member-if s key k = ground arith

state_free :
    (s : StrSet) (key : Bytes) (i : ℕ)
    → view (as_map s) key i ≡ free
    → is_occupied (s.states i) ≡ false
unfolding as_map
state_free s key i h = view-free (as_map s) key i h

write_key-cap : (s : StrSet) (i : ℕ) (key : Bytes) → (write_key s i key).cap ≡ s.cap
unfolding write_key
write_key-cap s i key = refl

write_key-one_more : (s : StrSet) (i : ℕ) (key : Bytes) → (write_key s i key).count ≤ s.count + 1
unfolding write_key
write_key-one_more s i key = omega arith

member-present :
    (s : StrSet) (key k : Bytes) (i : ℕ)
    → IsClean s
    → view (as_map s) key i ≡ hit
    → member s k ≡ (if str_eq key k then 1 else member s k)
member-present s key k i c here = elim (Bool-cases (str_eq key k)) [
  | inl e ↦
      let (o, (_, at)) = view-hit (as_map s) key i here in
      let there : search (as_map s) k ≡ some i =
        subst (λ x. search (as_map s) x ≡ some i) (at ∙ str_eq_sound key k e)
          (c.well_formed.found i o) in
      rw e (member-search s k ∙ ap is_some there)
  | inr e ↦ rw e refl
]

add_key-place :
    (s : StrSet) (key : Bytes) {i : ℕ}
    → add_slot (view (as_map s) key) (mask (as_map s)) (as_map s).cap (start (as_map s) key)
      ≡ place i
    → add_key s key ≡ write_key s i key
unfolding as_map view add_key set_view
add_key-place s key e =
    ap (λ o. elim o [ place idx ↦ write_key s idx key | present ↦ s | no_slot ↦ s ]) e

add_key-present :
    (s : StrSet) (key : Bytes)
    → add_slot (view (as_map s) key) (mask (as_map s)) (as_map s).cap (start (as_map s) key)
      ≡ present
    → add_key s key ≡ s
unfolding as_map view add_key set_view
add_key-present s key e =
    ap (λ o. elim o [ place idx ↦ write_key s idx key | present ↦ s | no_slot ↦ s ]) e

module _ (s : StrSet) (key : Bytes) {i : ℕ} (c : IsClean s)
    (at : strmap_find_slot (as_map s) key ≡ some i) where
  written-member :
      (k : Bytes) → member (write_key s i key) k ≡ (if str_eq key k then 1 else member s k)
  written-member k =
      member-search (write_key s i key) k
      ∙ ap is_some (search-write_key s i key k)
      ∙ sym (is_some-entry (write_slot (as_map s) i key null) k)
      ∙ ap (λ o. elim o [ none ↦ 0 | some _ ↦ 1 ])
          (entry-write (as_map s) key null c.well_formed at k)
      ∙ member-if s key k

  written-IsAdded :
      IsWellFormed (as_map s) → view (as_map s) key i ≡ free → IsAdded s key (write_key s i key)
  written-IsAdded wf vacant = record {
    clean = record {
      well_formed =
          write_key-IsWellFormed s i key (state_free s key i vacant)
            (write-IsWellFormed (as_map s) key null at wf);
      undeleted = λ j. write_key-undeleted s i key j (c.undeleted j);
    };
    members = written-member;
    same_cap = write_key-cap s i key;
    one_more = write_key-one_more s i key;
  }

  present-IsAdded : view (as_map s) key i ≡ hit → IsAdded s key s
  present-IsAdded here = record {
    clean = c;
    members = λ k. member-present s key k i c here;
    same_cap = refl;
    one_more = omega arith;
  }

  pub add_key-IsAdded : IsAdded s key (add_key s key)
  unfolding strmap_find_slot
  add_key-IsAdded =
      elim (add_slot-find_slot (view (as_map s) key) (mask (as_map s)) (as_map s).cap
        (start (as_map s) key) (view-undeleted s key c) at) [
          | inl (e, f) ↦
              subst (IsAdded s key) (sym (add_key-place s key e)) (written-IsAdded c.well_formed f)
          | inr (e, f) ↦ subst (IsAdded s key) (sym (add_key-present s key e)) (present-IsAdded f)
        ]
