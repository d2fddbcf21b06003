-- ===== src/StrMap/Grow.antt =====
-- native/src/strmap.py: the entries of a `StrMap` read slot by slot, and those of an empty one.
use nathra.Common.{
  ℕ, zero, suc, ◌^◌, ◌<◌, ◌≡◌, ◌≢◌, refl, sym, ap, subst, ◌∙◌, inl, inr, true, ◌&&◌, Option, none,
  some, arith, if◌then◌else◌,
}
use mathlib.Core.Option.{map, none-ne-some, some-injective}
use nathra.Wire.Bytes.{Bytes}
use nathra.StrMap.Hash.{str_eq, str_eq_refl, str_eq_sound}
use nathra.StrMap.Probe.{SlotState, empty, occupied, tombstone}
use nathra.StrMap.Table.{StrMap, is_occupied, allocated}
use nathra.StrMap.Invariant.{
  IsWellFormed, Option-cases, search, search-below, search-holds, occupied_below,
}
use nathra.StrMap.Entry.{entry}

-- The last of the first n slots that holds the key.
unfoldable pub entry_below : StrMap → ℕ → Bytes → Option ℕ
entry_below m zero key = none
entry_below m (suc n) key =
    if is_occupied (m.states n) && str_eq (m.keys n) key
    then some (m.values n)
    else entry_below m n key

occupied-true : (s : SlotState) → is_occupied s ≡ true → s ≡ occupied
occupied-true empty h = absurd (cc h)
occupied-true occupied h = refl
occupied-true tombstone h = absurd (cc h)

entry_below-none :
    (m : StrMap) (n : ℕ) (key : Bytes)
    → ((j : ℕ) → m.states j ≡ occupied → m.keys j ≢ key)
    → entry_below m n key ≡ none
unfolding entry_below
entry_below-none m zero key absent = refl
entry_below-none m (suc n) key absent = grind (
  arith,
  absent n,
  occupied-true (m.states n),
  str_eq_sound (m.keys n) key,
  entry_below-none m n key absent,
)

entry_below-some :
    (m : StrMap) (n : ℕ) (key : Bytes) (j : ℕ)
    → ((i : ℕ) → m.states i ≡ occupied → m.keys i ≡ key → i ≡ j)
    → m.states j ≡ occupied
    → m.keys j ≡ key
    → j < n
    → entry_below m n key ≡ some (m.values j)
unfolding entry_below
entry_below-some m zero key j only s k lt = absurd (omega arith)
entry_below-some m (suc n) key j only s k lt = grind (
  arith,
  only n,
  occupied-true (m.states n),
  str_eq_sound (m.keys n) key,
  str_eq_refl key,
  entry_below-some m n key j only s k,
)

-- In a well-formed table no key stands in two slots.
pub entry_below-all :
    (m : StrMap) (key : Bytes) → IsWellFormed m → entry_below m m.cap key ≡ entry m key
unfolding entry
entry_below-all m key wf = elim (Option-cases (search m key)) [
  | inl e ↦
      entry_below-none m m.cap key
        (λ j s k. none-ne-some j (sym e ∙ subst (λ x. search m x ≡ some j) k (wf.found j s)))
      ∙ sym (ap (λ o. map m.values o) e)
  | inr (j, e) ↦
      let (s, k) = search-holds m key e in
      entry_below-some m m.cap key j
        (λ i s' k'.
          some-injective i j (sym (subst (λ x. search m x ≡ some i) k' (wf.found i s')) ∙ e))
        s k (search-below m key wf e)
      ∙ sym (ap (λ o. map m.values o) e)
]

-- A new table is well formed and holds nothing.
allocated-counted : (n cap : ℕ) → occupied_below (allocated cap).states n ≡ 0
unfolding occupied_below allocated
allocated-counted zero cap = refl
allocated-counted (suc n) cap = allocated-counted n cap

pub allocated-IsWellFormed : (k : ℕ) → IsWellFormed (allocated (2 ^ k))
unfolding allocated
allocated-IsWellFormed k = record {
  log_cap = k;
  power = refl;
  hashed = λ j s. absurd (cc s);
  found = λ j s. absurd (cc s);
  counted = sym (allocated-counted (2 ^ k) (2 ^ k));
}

allocated-free : (cap j : ℕ) → (allocated cap).states j ≢ occupied
unfolding allocated
allocated-free cap j s = absurd (cc s)

pub entry-allocated : (cap : ℕ) (key : Bytes) → entry (allocated cap) key ≡ none
unfolding entry
entry-allocated cap key = elim (Option-cases (search (allocated cap) key)) [
  | inl e ↦ ap (λ o. map (allocated cap).values o) e
  | inr (j, e) ↦ absurd (allocated-free cap j (search-holds (allocated cap) key e).0)
]
