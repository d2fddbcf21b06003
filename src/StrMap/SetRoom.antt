-- ===== src/StrMap/SetRoom.antt =====
-- `strset_add` in native/src/strmap.py, with its test of the load, on a set without tombstones.
use nathra.Common.{
  ℕ, ◌*◌, ◌^◌, ◌<◌, ◌≤◌, ◌≡◌, refl, sym, ap, subst, ◌∙◌, inl, inr, false, Bool-cases, Option, none,
  some, arith, leb, if◌then◌else◌,
}
use mathlib.Core.Option.{bind, some-injective}
use nathra.Wire.Bytes.{Bytes}
use nathra.StrMap.Hash.{str_eq}
use nathra.StrMap.Machine.{times, times-fits, times-eq, bind-eq-some}
use nathra.StrMap.Invariant.{IsWellFormed, occupied_below-le}
use nathra.StrMap.Mask.{pow_two-positive}
use nathra.StrMap.Entry.{entry}
use nathra.StrMap.Grow.{entry_below, entry_below-all}
use nathra.StrMap.Set.{
  StrSet, allocated_set, add_key, rehash_set, strset_grow, strset_add_within, strset_add,
}
use nathra.StrMap.SetLaws.{as_map}
use nathra.StrMap.SetAdd.{IsClean, member, is_some}
use nathra.StrMap.SetGrow.{
  IsRehashed, roomy-IsAdded, strset_add_within-ends, rehash_set-write, rehash_set_lem,
  rehash_set-small,
}

room_when_light : (s : StrSet) → leb (s.cap * 3) (s.count * 4) ≡ false → s.count < s.cap
room_when_light s light = ground arith

room_after :
    (s grown : StrSet)
    → IsWellFormed (as_map s)
    → IsRehashed s s.cap grown
    → grown.count < grown.cap
unfolding as_map
room_after s grown wf r = omega (arith, r.few, r.doubled, wf.power, pow_two-positive wf.log_cap)

same_test : (o : Option ℕ) → is_some o ≡ elim o [ none ↦ 0 | some _ ↦ 1 ]
same_test none = refl
same_test (some v) = refl

all_members :
    (s : StrSet) (key : Bytes)
    → IsWellFormed (as_map s)
    → is_some (entry_below (as_map s) s.cap key) ≡ member s key
unfolding member as_map
all_members s key wf =
    ap is_some (entry_below-all (as_map s) key wf) ∙ same_test (entry (as_map s) key)

-- The set that `strset_add` writes to holds what the set held, and has a free slot.
record IsRoomy (s grown : StrSet) : Type 0 where
  clean : IsClean grown
  room : grown.count < grown.cap
  members : (key : Bytes) → member grown key ≡ member s key

rehashed-IsRoomy :
    (s grown : StrSet) → IsWellFormed (as_map s) → IsRehashed s s.cap grown → IsRoomy s grown
rehashed-IsRoomy s grown wf r = record {
  clean = r.clean;
  room = room_after s grown wf r;
  members = λ key. r.members key ∙ all_members s key wf;
}

strset_grow-IsRoomy :
    (s : StrSet) {grown : StrSet}
    → IsWellFormed (as_map s)
    → strset_grow (strset_add_within 1) s ≡ some grown
    → IsRoomy s grown
unfolding strset_grow
strset_grow-IsRoomy s {grown} wf h =
    let (new_cap, (e, h')) = bind-eq-some (times s.cap 2) _ h in
    let (s', (e', r)) = rehash_set-write s s.cap wf (omega arith) in
    let same = rehash_set_lem 0 s s.cap wf (omega arith) (
      subst (λ c. rehash_set (strset_add_within 1) s s.cap (allocated_set c) ≡ some grown)
        (times-eq s.cap 2 e) h') in
    rehashed-IsRoomy s grown wf
      (subst (IsRehashed s s.cap) (some-injective s' grown (sym e' ∙ same)) r)

strset_grow-ends :
    (s : StrSet)
    → IsWellFormed (as_map s)
    → s.cap ≤ 2 ^ 28
    → (grown : StrSet) × (strset_grow (strset_add_within 1) s ≡ some grown)
unfolding strset_grow bind
strset_grow-ends s wf small =
    let (grown, (e, _)) = rehash_set-write s s.cap wf (omega arith) in
    (
      grown,
      rw (times-fits s.cap 2 (omega arith)) (rehash_set-small 0 s s.cap wf (omega arith) small ∙ e),
    )

-- The set that an addition writes to, whether or not it was to grow.
grown-IsRoomy :
    (s : StrSet) {grown : StrSet}
    → IsClean s
    → (if leb (s.cap * 3) (s.count * 4) then strset_grow (strset_add_within 1) s else some s)
      ≡ some grown
    → IsRoomy s grown
grown-IsRoomy s {grown} c e = elim (Bool-cases (leb (s.cap * 3) (s.count * 4))) [
  | inl full ↦ strset_grow-IsRoomy s c.well_formed (rw full at e)
  | inr light ↦
      subst (IsRoomy s) (some-injective s grown (rw light at e))
        (record { clean = c; room = room_when_light s light; members = λ _. refl })
]

grown-ends :
    (s : StrSet)
    → IsWellFormed (as_map s)
    → s.cap ≤ 2 ^ 28
    → (grown : StrSet) × ((if leb (s.cap * 3) (s.count * 4)
          then strset_grow (strset_add_within 1) s
          else some s)
        ≡ some grown)
grown-ends s wf small = elim (Bool-cases (leb (s.cap * 3) (s.count * 4))) [
  | inl full ↦ rw full (strset_grow-ends s wf small)
  | inr light ↦ (s, rw light refl)
]

-- Adding to a well-formed set that has no tombstones ends with such a set.
pub record IsInserted (s : StrSet) (key : Bytes) (s' : StrSet) : Type 0 where
  pub clean : IsClean s'
  pub members : (k : Bytes) → member s' k ≡ (if str_eq key k then 1 else member s k)

pub strset_add-IsInserted :
    (s : StrSet) (key : Bytes) {s' : StrSet}
    → IsClean s
    → strset_add s key ≡ some s'
    → IsInserted s key s'
unfolding strset_add
strset_add-IsInserted s key c h =
    let (grown, (e, q)) = strset_add_within-ends 1 s key h in
    let r = grown-IsRoomy s c e in
    let a = roomy-IsAdded grown key r.clean r.room in
    subst (IsInserted s key) q (record {
      clean = a.clean;
      members = λ k. a.members k ∙ ap (λ x. if str_eq key k then 1 else x) (r.members k);
    })

count-le_cap : (s : StrSet) → IsWellFormed (as_map s) → s.count ≤ s.cap
unfolding as_map
count-le_cap s wf = subst (λ c. c ≤ s.cap) (sym wf.counted) (occupied_below-le s.states s.cap)

pub strset_add-ends :
    (s : StrSet) (key : Bytes)
    → IsWellFormed (as_map s)
    → s.cap ≤ 2 ^ 28
    → (s' : StrSet) × (strset_add s key ≡ some s')
unfolding strset_add strset_add_within bind
strset_add-ends s key wf small =
    let le = count-le_cap s wf in
    let load = times-fits s.count 4 (omega (arith, le, small)) in
    let limit = times-fits s.cap 3 (omega (arith, small)) in
    let (grown, e) = grown-ends s wf small in (add_key grown key, rw (load, limit, e) refl)
