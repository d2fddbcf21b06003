-- ===== src/StrMap/Rehash.antt =====
-- `_strmap_grow` in native/src/strmap.py: the new table holds what the old one held.
use nathra.Common.{
  ℕ, zero, suc, ◌*◌, ◌^◌, ◌≤◌, ◌<◌, ◌≡◌, refl, sym, subst, ◌∙◌, inl, inr, false, Option, some,
  arith, leb, if◌then◌else◌,
}
use mathlib.Core.Option.{bind, some-injective}
use nathra.StrMap.Machine.{times, times-fits, times-eq, bind-eq-some}
use nathra.Wire.Bytes.{Bytes}
use nathra.StrMap.Probe.{occupied}
use nathra.StrMap.Table.{
  StrMap, is_occupied, strmap_find_slot, write_slot, store, allocated, rehash, strmap_grow,
  strmap_set_within,
}
use nathra.StrMap.Invariant.{IsWellFormed}
use nathra.StrMap.Store.{write-IsWellFormed}
use nathra.StrMap.Entry.{entry, entry-write, occupied-or, strmap_find_slot-ends, store-found}
use native.Mathlib.Nat.{pow-succ'}
use nathra.StrMap.Mask.{pow_two-positive}
use nathra.StrMap.Grow.{entry_below, entry_below-all, allocated-IsWellFormed, entry-allocated}

-- What the first n slots of the old table become.
record IsRehashed (old : StrMap) (n : ℕ) (m : StrMap) : Type 0 where
  well_formed : IsWellFormed m
  doubled : m.cap ≡ old.cap * 2
  few : m.count ≤ n
  entries : (key : Bytes) → entry m key ≡ entry_below old n key

light-branch :
    (m : StrMap) (grown : Option StrMap)
    → m.count * 4 < m.cap * 3
    → (if leb (m.cap * 3) (m.count * 4) then grown else some m) ≡ some m
light-branch m grown lt = grind arith

-- An insertion that needs no growth.
strmap_set_within-light :
    (fuel : ℕ) (m : StrMap) (key : Bytes) (value : ℕ)
    → m.count * 4 < m.cap * 3
    → m.cap * 3 < 2 ^ 31
    → strmap_set_within (suc fuel) m key value ≡ store m key value
unfolding strmap_set_within bind
strmap_set_within-light fuel m key value lt small =
    let load = times-fits m.count 4 (omega arith) in
    let limit = times-fits m.cap 3 small in rw (load, limit) (grind arith)

-- A set that ends stores the key, in the grown table or in the table itself.
pub strmap_set_within-ends :
    (fuel : ℕ) (m : StrMap) (key : Bytes) (value : ℕ) {m' : StrMap}
    → strmap_set_within (suc fuel) m key value ≡ some m'
    → (grown : StrMap) × (((if leb (m.cap * 3) (m.count * 4)
            then strmap_grow (strmap_set_within fuel) m
            else some m)
          ≡ some grown)
        × (store grown key value ≡ some m'))
unfolding strmap_set_within
strmap_set_within-ends fuel m key value h =
    let (load, (el, h')) = bind-eq-some (times m.count 4) _ h in
    let (limit, (er, h'')) = bind-eq-some (times m.cap 3) _ h' in
    let (grown, (eg, s)) = bind-eq-some (if leb limit load then _ else _) _ h'' in
    (grown, (cc (eg, times-eq m.count 4 el, times-eq m.cap 3 er), s))

strmap_set_within-stores :
    (fuel : ℕ) (m : StrMap) (key : Bytes) (value : ℕ) {m' : StrMap}
    → m.count * 4 < m.cap * 3
    → strmap_set_within (suc fuel) m key value ≡ some m'
    → store m key value ≡ some m'
strmap_set_within-stores fuel m key value {m'} lt h =
    let (grown, (e, s)) = strmap_set_within-ends fuel m key value h in
    let same : m ≡ grown = some-injective m grown (sym (light-branch m _ lt) ∙ e) in
    subst (λ x. store x key value ≡ some m') (sym same) s

write-IsRehashed :
    (old : StrMap) (n : ℕ) (m : StrMap) {i : ℕ}
    → IsRehashed old n m
    → old.states n ≡ occupied
    → strmap_find_slot m (old.keys n) ≡ some i
    → IsRehashed old (suc n) (write_slot m i (old.keys n) (old.values n))
unfolding write_slot entry_below
write-IsRehashed old n m {i} r s at = record {
  well_formed = write-IsWellFormed m (old.keys n) (old.values n) at r.well_formed;
  doubled = r.doubled;
  few = grind (arith, r.few);
  entries = λ key.
      entry-write m (old.keys n) (old.values n) r.well_formed at key ∙ (rw (s, r.entries key) refl);
}

skip-IsRehashed :
    (old : StrMap) (n : ℕ) (m : StrMap)
    → IsRehashed old n m
    → is_occupied (old.states n) ≡ false
    → IsRehashed old (suc n) m
unfolding entry_below
skip-IsRehashed old n m r s = record {
  well_formed = r.well_formed;
  doubled = r.doubled;
  few = omega (arith, r.few);
  entries = λ key. rw s (r.entries key);
}

pub doubled_power : {old : StrMap} (wf : IsWellFormed old) → old.cap * 2 ≡ 2 ^ suc wf.log_cap
doubled_power wf = omega (arith, wf.power, pow-succ' 2 wf.log_cap)

-- Insertions without the test of the load always find a slot.
rehash-store :
    (old : StrMap) (n : ℕ)
    → IsWellFormed old
    → n ≤ old.cap
    → (m : StrMap) × ((rehash store old n (allocated (old.cap * 2)) ≡ some m) × IsRehashed old n m)
unfolding rehash entry_below bind allocated
rehash-store old zero wf le = (
  allocated (old.cap * 2),
  (
    refl,
    record {
      well_formed =
          subst (λ c. IsWellFormed (allocated c)) (sym (doubled_power wf))
            (allocated-IsWellFormed (suc wf.log_cap));
      doubled = refl;
      few = omega arith;
      entries = λ key. entry-allocated (old.cap * 2) key;
    },
  ),
)
rehash-store old (suc n) wf le =
    let (m, (e, r)) = rehash-store old n wf (omega arith) in
    elim (occupied-or (old.states n)) [
      | inl s ↦
          let (i, at) =
            strmap_find_slot-ends m (old.keys n) r.well_formed (omega (arith, r.doubled, r.few)) in
          (
            write_slot m i (old.keys n) (old.values n),
            (
              rw (e, s) (store-found m (old.keys n) (old.values n) at),
              write-IsRehashed old n m r s at,
            ),
          )
      | inr (s, _) ↦ (m, (rw (e, s) refl, skip-IsRehashed old n m r s))
    ]

-- What those insertions make is what the insertions of `_strmap_grow` make.
rehash_lem :
    (fuel : ℕ) (old : StrMap) (n : ℕ) {m : StrMap}
    → IsWellFormed old
    → n ≤ old.cap
    → rehash (strmap_set_within (suc fuel)) old n (allocated (old.cap * 2)) ≡ some m
    → rehash store old n (allocated (old.cap * 2)) ≡ some m
unfolding rehash bind
rehash_lem fuel old zero wf le h = h
rehash_lem fuel old (suc n) wf le h =
    let (before, (e, h')) =
      bind-eq-some (rehash (strmap_set_within (suc fuel)) old n (allocated (old.cap * 2))) _ h in
    let same = rehash_lem fuel old n wf (omega arith) e in
    let (m, (e', r)) = rehash-store old n wf (omega arith) in
    let at : m ≡ before = some-injective m before (sym e' ∙ same) in
    let light : before.count * 4 < before.cap * 3 =
      subst (λ (x : StrMap). x.count * 4 < x.cap * 3) at (omega (arith, r.doubled, r.few)) in
    elim (occupied-or (old.states n)) [
      | inl s ↦
          rw (same, s)
            (strmap_set_within-stores fuel before (old.keys n) (old.values n) light (rw s at h'))
      | inr (s, _) ↦ rw (same, s) (rw s at h')
    ]

-- Below 2 ^ 28 nothing overflows.
rehash-small :
    (fuel : ℕ) (old : StrMap) (n : ℕ)
    → IsWellFormed old
    → n ≤ old.cap
    → old.cap ≤ 2 ^ 28
    → rehash (strmap_set_within (suc fuel)) old n (allocated (old.cap * 2))
      ≡ rehash store old n (allocated (old.cap * 2))
unfolding rehash bind
rehash-small fuel old zero wf le small = refl
rehash-small fuel old (suc n) wf le small =
    let same = rehash-small fuel old n wf (omega arith) small in
    let (m, (e, r)) = rehash-store old n wf (omega arith) in
    elim (occupied-or (old.states n)) [
      | inl s ↦
          rw (same, e, s)
            (strmap_set_within-light fuel m (old.keys n) (old.values n)
              (omega (arith, r.doubled, r.few)) (omega (arith, r.doubled)))
      | inr (s, _) ↦ rw (same, e, s) refl
    ]

-- The table that `strmap_set` writes to holds what the table held, and has a free slot.
pub record IsRoomy (m grown : StrMap) : Type 0 where
  pub well_formed : IsWellFormed grown
  pub room : grown.count < grown.cap
  pub entries : (key : Bytes) → entry grown key ≡ entry m key

rehashed-IsRoomy : (m grown : StrMap) → IsWellFormed m → IsRehashed m m.cap grown → IsRoomy m grown
rehashed-IsRoomy m grown wf r = record {
  well_formed = r.well_formed;
  room = omega (arith, r.few, r.doubled, wf.power, pow_two-positive wf.log_cap);
  entries = λ key. r.entries key ∙ entry_below-all m key wf;
}

pub strmap_grow-IsRoomy :
    (m : StrMap) {grown : StrMap}
    → IsWellFormed m
    → strmap_grow (strmap_set_within 1) m ≡ some grown
    → IsRoomy m grown
unfolding strmap_grow
strmap_grow-IsRoomy m {grown} wf h =
    let (new_cap, (e, h')) = bind-eq-some (times m.cap 2) _ h in
    let (m', (e', r)) = rehash-store m m.cap wf (omega arith) in
    let same = rehash_lem 0 m m.cap wf (omega arith) (
      subst (λ c. rehash (strmap_set_within 1) m m.cap (allocated c) ≡ some grown)
        (times-eq m.cap 2 e) h') in
    rehashed-IsRoomy m grown wf
      (subst (IsRehashed m m.cap) (some-injective m' grown (sym e' ∙ same)) r)

pub strmap_grow-ends :
    (m : StrMap)
    → IsWellFormed m
    → m.cap ≤ 2 ^ 28
    → (grown : StrMap) × (strmap_grow (strmap_set_within 1) m ≡ some grown)
unfolding strmap_grow bind
strmap_grow-ends m wf small =
    let (grown, (e, _)) = rehash-store m m.cap wf (omega arith) in
    (
      grown,
      rw (times-fits m.cap 2 (omega arith)) (rehash-small 0 m m.cap wf (omega arith) small ∙ e),
    )
