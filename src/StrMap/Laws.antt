-- ===== src/StrMap/Laws.antt =====
-- What `strmap_set`, `strmap_get` and `strmap_has` of native/src/strmap.py promise.
use nathra.Common.{
  ℕ, ◌*◌, ◌^◌, ◌≤◌, ◌<◌, ◌≡◌, ◌≢◌, refl, sym, ap, subst, ◌∙◌, ◌⊎◌, inl, inr, false, Bool-cases,
  none, some, arith, tests, leb, ltb, if◌then◌else◌,
}
use mathlib.Core.Option.{bind, none-ne-some, some-injective}
use nathra.Wire.Bytes.{Bytes}
use nathra.StrMap.Hash.{str_eq}
use nathra.StrMap.Table.{
  StrMap, null, allocated, write_slot, store, strmap_grow, strmap_set_within, strmap_set,
  strmap_get, strmap_has, strmap_new,
}
use nathra.StrMap.Invariant.{IsWellFormed, occupied_below-le}
use nathra.StrMap.Grow.{allocated-IsWellFormed, entry-allocated}
use nathra.StrMap.Store.{write-IsWellFormed}
use nathra.StrMap.Entry.{
  entry, entry-write, strmap_get-entry, strmap_has-entry, strmap_find_slot-ends, store-found,
}
use nathra.StrMap.Rehash.{IsRoomy, strmap_set_within-ends, strmap_grow-IsRoomy, strmap_grow-ends}
use nathra.StrMap.Machine.{times-fits}

new_capacity :
    (initial_cap k : ℕ)
    → (initial_cap ≤ 16) ⊎ (initial_cap ≡ 2 ^ k)
    → (j : ℕ) × ((if ltb 16 initial_cap then initial_cap else 16) ≡ 2 ^ j)
new_capacity initial_cap k h = elim (Bool-cases (ltb 16 initial_cap)) [
  | inl big ↦ elim h [ inl small ↦ absurd (omega (tests, big, small)) | inr e ↦ (k, rw big e) ]
  | inr small ↦ (4, rw small refl)
]

-- A new map is well formed and every look-up in it returns NULL, if the capacity that is asked for
-- is at most 16 or a power of two.
pub strmap_new-IsWellFormed :
    (initial_cap k : ℕ)
    → (initial_cap ≤ 16) ⊎ (initial_cap ≡ 2 ^ k)
    → (key : Bytes)
    → IsWellFormed (strmap_new initial_cap) × (strmap_get (strmap_new initial_cap) key ≡ null)
unfolding strmap_new
strmap_new-IsWellFormed initial_cap k h key =
    let (j, e) = new_capacity initial_cap k h in
    let wf : IsWellFormed (strmap_new initial_cap) =
      subst (λ c. IsWellFormed (allocated c)) (sym e) (allocated-IsWellFormed j) in
    (
      wf,
      strmap_get-entry (strmap_new initial_cap) key wf
          ∙ ap (λ o. elim o [ none ↦ null | some value ↦ value ]) (entry-allocated _ key),
    )

-- All that is said of a table after `strmap_set`.
record IsAssigned (m : StrMap) (key : Bytes) (value : ℕ) (m' : StrMap) : Type 0 where
  well_formed : IsWellFormed m'
  entries : (k : Bytes) → entry m' k ≡ (if str_eq key k then some value else entry m k)

store-ends :
    (m grown : StrMap) (key : Bytes) (value : ℕ)
    → IsRoomy m grown
    → (m' : StrMap) × ((store grown key value ≡ some m') × IsAssigned m key value m')
store-ends m grown key value r =
    let (i, at) = strmap_find_slot-ends grown key r.well_formed r.room in
    (
      write_slot grown i key value,
      (
        store-found grown key value at,
        record {
          well_formed = write-IsWellFormed grown key value at r.well_formed;
          entries = λ k.
              entry-write grown key value r.well_formed at k
              ∙ ap (λ x. if str_eq key k then some value else x) (r.entries k);
        },
      ),
    )

room_when_light : (m : StrMap) → leb (m.cap * 3) (m.count * 4) ≡ false → m.count < m.cap
room_when_light m light = ground arith

-- The table that a set writes to, whether or not it was to grow.
grown-IsRoomy :
    (m : StrMap) {grown : StrMap}
    → IsWellFormed m
    → (if leb (m.cap * 3) (m.count * 4) then strmap_grow (strmap_set_within 1) m else some m)
      ≡ some grown
    → IsRoomy m grown
grown-IsRoomy m {grown} wf e = elim (Bool-cases (leb (m.cap * 3) (m.count * 4))) [
  | inl full ↦ strmap_grow-IsRoomy m wf (rw full at e)
  | inr light ↦
      subst (IsRoomy m) (some-injective m grown (rw light at e))
        (record { well_formed = wf; room = room_when_light m light; entries = λ _. refl })
]

strmap_set-IsAssigned :
    (m : StrMap) (key : Bytes) (value : ℕ) {m' : StrMap}
    → IsWellFormed m
    → strmap_set m key value ≡ some m'
    → IsAssigned m key value m'
unfolding strmap_set
strmap_set-IsAssigned m key value {m'} wf h =
    let (grown, (e, s)) = strmap_set_within-ends 1 m key value h in
    let (m'', (e', r)) = store-ends m grown key value (grown-IsRoomy m wf e) in
    subst (IsAssigned m key value) (some-injective m'' m' (sym e' ∙ s)) r

grown-ends :
    (m : StrMap)
    → IsWellFormed m
    → m.cap ≤ 2 ^ 28
    → (grown : StrMap) × ((if leb (m.cap * 3) (m.count * 4)
          then strmap_grow (strmap_set_within 1) m
          else some m)
        ≡ some grown)
grown-ends m wf small = elim (Bool-cases (leb (m.cap * 3) (m.count * 4))) [
  | inl full ↦ rw full (strmap_grow-ends m wf small)
  | inr light ↦ (m, rw light refl)
]

-- On a well-formed map with a capacity of at most 2 ^ 28 strmap_set always ends with a map: no
-- product of 32-bit integers overflows, _strmap_find_slot never returns -1, and the insertions that
-- _strmap_grow makes do not grow the table again.
pub strmap_set-succeeds :
    (m : StrMap) (key : Bytes) (value : ℕ)
    → IsWellFormed m
    → m.cap ≤ 2 ^ 28
    → strmap_set m key value ≢ none
unfolding strmap_set strmap_set_within bind
strmap_set-succeeds m key value wf small h =
    let le : m.count ≤ m.cap =
      subst (λ c. c ≤ m.cap) (sym wf.counted) (occupied_below-le m.states m.cap) in
    let load = times-fits m.count 4 (omega (arith, le, small)) in
    let limit = times-fits m.cap 3 (omega (arith, small)) in
    let (grown, e) = grown-ends m wf small in
    let (m', (e', _)) = store-ends m grown key value (grown-IsRoomy m wf e) in
    none-ne-some m' (sym h ∙ rw (load, limit, e) e')

-- strmap_set keeps a map well formed, also when it grows the table.
pub strmap_set-IsWellFormed :
    (m : StrMap) (key : Bytes) (value : ℕ) {m' : StrMap}
    → IsWellFormed m
    → strmap_set m key value ≡ some m'
    → IsWellFormed m'
strmap_set-IsWellFormed m key value wf h =
    let s = strmap_set-IsAssigned m key value wf h in s.well_formed

-- After strmap_set on a well-formed map, strmap_get returns the new value for the key that was set
-- and what it returned before for every other key, whether or not the table grew.
pub strmap_get-set :
    (m : StrMap) (key : Bytes) (value : ℕ) {m' : StrMap}
    → IsWellFormed m
    → strmap_set m key value ≡ some m'
    → (key' : Bytes) → strmap_get m' key' ≡ (if str_eq key key' then value else strmap_get m key')
strmap_get-set m key value {m'} wf h key' =
    let s = strmap_set-IsAssigned m key value wf h in
    rw (strmap_get-entry m' key' s.well_formed, strmap_get-entry m key' wf, s.entries key')
      (ground arith)

-- After strmap_set on a well-formed map, strmap_has says 1 for the key that was set and what it
-- said before for every other key.
pub strmap_has-set :
    (m : StrMap) (key : Bytes) (value : ℕ) {m' : StrMap}
    → IsWellFormed m
    → strmap_set m key value ≡ some m'
    → (key' : Bytes) → strmap_has m' key' ≡ (if str_eq key key' then 1 else strmap_has m key')
strmap_has-set m key value {m'} wf h key' =
    let s = strmap_set-IsAssigned m key value wf h in
    rw (strmap_has-entry m' key' s.well_formed, strmap_has-entry m key' wf, s.entries key')
      (ground arith)
