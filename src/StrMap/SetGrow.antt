-- ===== src/StrMap/SetGrow.antt =====
-- `_strset_grow` in native/src/strmap.py: a set without tombstones, and the set it is rehashed to.
use nathra.Common.{
  ℕ, zero, suc, ◌*◌, ◌^◌, ◌<◌, ◌≤◌, ◌≡◌, refl, sym, ap, subst, ◌∙◌, inl, inr, Bool, true, false,
  Option, none, some, arith, leb, if◌then◌else◌,
}
use mathlib.Core.Option.{bind, some-injective}
use nathra.StrMap.Machine.{times, times-fits, times-eq, bind-eq-some}
use nathra.Wire.Bytes.{Bytes}
use nathra.StrMap.Hash.{str_eq}
use nathra.StrMap.Probe.{occupied}
use nathra.StrMap.Table.{is_occupied, allocated}
use nathra.StrMap.Invariant.{IsWellFormed}
use nathra.StrMap.Entry.{entry, strmap_find_slot-ends, occupied-or}
use nathra.StrMap.Grow.{entry_below, allocated-IsWellFormed, entry-allocated}
use nathra.StrMap.Rehash.{doubled_power}
use nathra.StrMap.Set.{StrSet, allocated_set, add_key, rehash_set, strset_grow, strset_add_within}
use nathra.StrMap.SetLaws.{as_map}
use nathra.StrMap.SetAdd.{IsClean, IsAdded, member, add_key-IsAdded, is_some}

-- What the first n slots of the old set become.
pub record IsRehashed (old : StrSet) (n : ℕ) (s : StrSet) : Type 0 where
  pub clean : IsClean s
  pub doubled : s.cap ≡ old.cap * 2
  pub few : s.count ≤ n
  pub members : (key : Bytes) → member s key ≡ is_some (entry_below (as_map old) n key)

pub roomy-IsAdded :
    (s : StrSet) (key : Bytes) → IsClean s → s.count < s.cap → IsAdded s key (add_key s key)
unfolding as_map
roomy-IsAdded s key c room =
    let (_, at) = strmap_find_slot-ends (as_map s) key c.well_formed room in
    add_key-IsAdded s key c at

light-branch :
    (s : StrSet) (grown : Option StrSet)
    → s.count * 4 < s.cap * 3
    → (if leb (s.cap * 3) (s.count * 4) then grown else some s) ≡ some s
light-branch s grown lt = grind arith

strset_add_within-light :
    (fuel : ℕ) (s : StrSet) (key : Bytes)
    → s.count * 4 < s.cap * 3
    → s.cap * 3 < 2 ^ 31
    → strset_add_within (suc fuel) s key ≡ some (add_key s key)
unfolding strset_add_within bind
strset_add_within-light fuel s key lt small =
    let load = times-fits s.count 4 (omega arith) in
    let limit = times-fits s.cap 3 small in rw (load, limit) (grind arith)

-- An addition that ends writes the key, to the grown set or to the set itself.
pub strset_add_within-ends :
    (fuel : ℕ) (s : StrSet) (key : Bytes) {s' : StrSet}
    → strset_add_within (suc fuel) s key ≡ some s'
    → (grown : StrSet) × (((if leb (s.cap * 3) (s.count * 4)
            then strset_grow (strset_add_within fuel) s
            else some s)
          ≡ some grown)
        × (add_key grown key ≡ s'))
unfolding strset_add_within
strset_add_within-ends fuel s key {s'} h =
    let (load, (el, h')) = bind-eq-some (times s.count 4) _ h in
    let (limit, (er, h'')) = bind-eq-some (times s.cap 3) _ h' in
    let (grown, (eg, e)) = bind-eq-some (if leb limit load then _ else _) _ h'' in
    (grown, (cc (eg, times-eq s.count 4 el, times-eq s.cap 3 er), some-injective _ s' e))

pub strset_add_within-writes :
    (fuel : ℕ) (s : StrSet) (key : Bytes) {s' : StrSet}
    → s.count * 4 < s.cap * 3
    → strset_add_within (suc fuel) s key ≡ some s'
    → add_key s key ≡ s'
strset_add_within-writes fuel s key {s'} lt h =
    let (grown, (e, q)) = strset_add_within-ends fuel s key h in
    let same : s ≡ grown = some-injective s grown (sym (light-branch s _ lt) ∙ e) in
    subst (λ x. add_key x key ≡ s') (sym same) q

is_some-if :
    (b : Bool) (v : ℕ) (o : Option ℕ)
    → (if b then 1 else is_some o) ≡ is_some (if b then some v else o)
is_some-if true v o = refl
is_some-if false v o = refl

as_map-allocated : (cap : ℕ) → as_map (allocated_set cap) ≡ allocated cap
unfolding as_map allocated_set allocated
as_map-allocated cap = refl

pub allocated-IsClean : (k : ℕ) → IsClean (allocated_set (2 ^ k))
unfolding allocated_set
allocated-IsClean k = record {
  well_formed = subst IsWellFormed (sym (as_map-allocated (2 ^ k))) (allocated-IsWellFormed k);
  undeleted = λ j e. absurd (cc e);
}

add-IsRehashed :
    (old : StrSet) (n : ℕ) (s : StrSet)
    → IsRehashed old n s
    → old.states n ≡ occupied
    → s.count < s.cap
    → IsRehashed old (suc n) (add_key s (old.keys n))
unfolding entry_below as_map
add-IsRehashed old n s r o room =
    let a = roomy-IsAdded s (old.keys n) r.clean room in
    record {
      clean = a.clean;
      doubled = a.same_cap ∙ r.doubled;
      few = omega (arith, a.one_more, r.few);
      members = λ key.
          a.members key
          ∙ rw (o, r.members key)
              (is_some-if (str_eq (old.keys n) key) 0 (entry_below (as_map old) n key));
    }

skip-IsRehashed :
    (old : StrSet) (n : ℕ) (s : StrSet)
    → IsRehashed old n s
    → is_occupied (old.states n) ≡ false
    → IsRehashed old (suc n) s
unfolding entry_below as_map
skip-IsRehashed old n s r o = record {
  clean = r.clean;
  doubled = r.doubled;
  few = omega (arith, r.few);
  members = λ key. rw o (r.members key);
}

member-allocated : (cap : ℕ) (key : Bytes) → member (allocated_set cap) key ≡ 0
unfolding member
member-allocated cap key =
    ap (λ m. elim (entry m key) [ none ↦ 0 | some _ ↦ 1 ]) (as_map-allocated cap)
    ∙ ap (λ o. elim o [ none ↦ 0 | some _ ↦ 1 ]) (entry-allocated cap key)

-- An addition without the test of the load.
abbrev pub write_always : StrSet → Bytes → Option StrSet
write_always s key = some (add_key s key)

pub rehash_set-write :
    (old : StrSet) (n : ℕ)
    → IsWellFormed (as_map old)
    → n ≤ old.cap
    → (s : StrSet) × ((rehash_set write_always old n (allocated_set (old.cap * 2)) ≡ some s)
        × IsRehashed old n s)
unfolding rehash_set entry_below bind allocated_set as_map
rehash_set-write old zero wf le = (
  allocated_set (old.cap * 2),
  (
    refl,
    record {
      clean =
          subst (λ c. IsClean (allocated_set c)) (sym (doubled_power wf))
            (allocated-IsClean (suc wf.log_cap));
      doubled = refl;
      few = omega arith;
      members = λ key. member-allocated (old.cap * 2) key;
    },
  ),
)
rehash_set-write old (suc n) wf le =
    let (s, (e, r)) = rehash_set-write old n wf (omega arith) in
    elim (occupied-or (old.states n)) [
      | inl o ↦ (
        add_key s (old.keys n),
        (rw (e, o) refl, add-IsRehashed old n s r o (omega (arith, r.doubled, r.few))),
      )
      | inr (o, _) ↦ (s, (rw (e, o) refl, skip-IsRehashed old n s r o))
    ]

-- What those additions make is what the additions of `_strset_grow` make.
pub rehash_set_lem :
    (fuel : ℕ) (old : StrSet) (n : ℕ) {s : StrSet}
    → IsWellFormed (as_map old)
    → n ≤ old.cap
    → rehash_set (strset_add_within (suc fuel)) old n (allocated_set (old.cap * 2)) ≡ some s
    → rehash_set write_always old n (allocated_set (old.cap * 2)) ≡ some s
unfolding rehash_set bind
rehash_set_lem fuel old zero wf le h = h
rehash_set_lem fuel old (suc n) wf le h =
    let (before, (e, h')) =
      bind-eq-some (rehash_set (strset_add_within (suc fuel)) old n (allocated_set (old.cap * 2))) _
        h in
    let same = rehash_set_lem fuel old n wf (omega arith) e in
    let (s, (e', r)) = rehash_set-write old n wf (omega arith) in
    let at : s ≡ before = some-injective s before (sym e' ∙ same) in
    let light : before.count * 4 < before.cap * 3 =
      subst (λ (x : StrSet). x.count * 4 < x.cap * 3) at (omega (arith, r.doubled, r.few)) in
    elim (occupied-or (old.states n)) [
      | inl o ↦
          rw (same, o)
            (ap (λ x. some x)
              (strset_add_within-writes fuel before (old.keys n) light (rw o at h')))
      | inr (o, _) ↦ rw (same, o) (rw o at h')
    ]

-- Below 2 ^ 28 nothing overflows.
pub rehash_set-small :
    (fuel : ℕ) (old : StrSet) (n : ℕ)
    → IsWellFormed (as_map old)
    → n ≤ old.cap
    → old.cap ≤ 2 ^ 28
    → rehash_set (strset_add_within (suc fuel)) old n (allocated_set (old.cap * 2))
      ≡ rehash_set write_always old n (allocated_set (old.cap * 2))
unfolding rehash_set bind
rehash_set-small fuel old zero wf le small = refl
rehash_set-small fuel old (suc n) wf le small =
    let same = rehash_set-small fuel old n wf (omega arith) small in
    let (s, (e, r)) = rehash_set-write old n wf (omega arith) in
    elim (occupied-or (old.states n)) [
      | inl o ↦
          rw (same, e, o)
            (strset_add_within-light fuel s (old.keys n) (omega (arith, r.doubled, r.few))
              (omega (arith, r.doubled)))
      | inr (o, _) ↦ rw (same, e, o) refl
    ]
