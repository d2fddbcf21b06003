-- ===== src/StrMap/Delete.antt =====
-- `strmap_delete` in native/src/strmap.py: the table with a tombstone in a slot.
use nathra.Common.{
  ℕ, ◌-◌, ◌≡◌, ◌≢◌, sym, ap, subst, ◌∙◌, ◌⊎◌, inl, inr, Bool-cases, none, some, arith,
  if◌then◌else◌,
}
use mathlib.Core.Option.{map, none-ne-some, some-injective}
use nathra.Wire.Bytes.{Bytes}
use nathra.StrMap.Hash.{str_eq, str_eq_sound}
use nathra.StrMap.Probe.{occupied, tombstone, update, hit, deleted, inspect}
use nathra.StrMap.Loops.{probe-frame}
use nathra.StrMap.Table.{StrMap, view, mask, start}
use nathra.StrMap.View.{view-hit}
use nathra.StrMap.Invariant.{
  IsWellFormed, Option-cases, search, search-holds, search-below, occupied_below,
  occupied_below-update,
}
use nathra.StrMap.Entry.{entry, str_eq-false}

-- The map with a tombstone at an index.
unfoldable pub buried : StrMap → ℕ → StrMap
buried m i = record m { states = update m.states i tombstone; count = m.count - 1 }

module _ (m : StrMap) (i : ℕ) where
  buried-occupied : (j : ℕ) → (buried m i).states j ≡ occupied → (j ≢ i) × (m.states j ≡ occupied)
  unfolding buried update
  buried-occupied j s = grind arith

  view-buried :
      (key : Bytes) (j : ℕ)
      → (view (buried m i) key j ≡ view m key j) ⊎ ((j ≡ i) × (view (buried m i) key j ≡ deleted))
  unfolding buried update view inspect
  view-buried key j = grind arith

  -- A key in another slot is still found: a tombstone does not end the loop.
  search-buried_keeps :
      (key : Bytes) {j : ℕ}
      → view m key i ≢ hit
      → search m key ≡ some j
      → search (buried m i) key ≡ some j
  unfolding search buried
  search-buried_keeps key ne h =
      probe-frame (view m key) (view (buried m i) key) (mask m) m.cap (start m key)
        (λ x. elim (view-buried key x) [
          | inl e ↦ inl e
          | inr (e, d) ↦ inr (subst (λ y. view m key y ≢ hit) (sym e) ne, inr d)
        ])
        h

  -- Whatever is found afterwards was there before, in the same slot.
  search-buried_only :
      (key : Bytes) {j : ℕ}
      → IsWellFormed m
      → search (buried m i) key ≡ some j
      → (j ≢ i) × (search m key ≡ some j)
  unfolding buried
  search-buried_only key {j} wf h =
      let (s, k) = search-holds (buried m i) key h in
      let (far, s') = buried-occupied j s in
      (far, subst (λ x. search m x ≡ some j) k (wf.found j s'))

module _ (m : StrMap) (key : Bytes) {i : ℕ} (wf : IsWellFormed m) (at : search m key ≡ some i) where
  other_key_at : (key' : Bytes) → key ≢ key' → view m key' i ≢ hit
  other_key_at key' ne h =
      let (_, (_, k)) = view-hit m key' i h in
      let (_, k') = search-holds m key at in ne (sym k' ∙ k)

  pub entry-buried_self : entry (buried m i) key ≡ none
  unfolding entry
  entry-buried_self = elim (Option-cases (search (buried m i) key)) [
    | inl e ↦ ap (λ o. map (buried m i).values o) e
    | inr (j, e) ↦
        let (far, e') = search-buried_only m i key wf e in
        absurd (far (some-injective j i (sym e' ∙ at)))
  ]

  search-buried_other : (key' : Bytes) → key ≢ key' → search (buried m i) key' ≡ search m key'
  search-buried_other key' ne = elim (Option-cases (search (buried m i) key')) [
    | inr (j, e) ↦ let (_, e') = search-buried_only m i key' wf e in e ∙ sym e'
    | inl e ↦ elim (Option-cases (search m key')) [
      | inl e' ↦ e ∙ sym e'
      | inr (j, e') ↦
          absurd (none-ne-some j (sym e ∙ search-buried_keeps m i key' (other_key_at key' ne) e'))
    ]
  ]

  entry-buried_other : (key' : Bytes) → key ≢ key' → entry (buried m i) key' ≡ entry m key'
  unfolding entry buried
  entry-buried_other key' ne = ap (λ o. map m.values o) (search-buried_other key' ne)

  pub entry-buried :
      (key' : Bytes) → entry (buried m i) key' ≡ (if str_eq key key' then none else entry m key')
  entry-buried key' = elim (Bool-cases (str_eq key key')) [
    | inl e ↦
        rw e (subst (λ k. entry (buried m i) k ≡ none) (str_eq_sound key key' e) entry-buried_self)
    | inr e ↦ rw e (entry-buried_other key' (str_eq-false key key' e))
  ]

  buried-found :
      (j : ℕ) → (buried m i).states j ≡ occupied → search (buried m i) (m.keys j) ≡ some j
  buried-found j s =
      let (far, s') = buried-occupied m i j s in
      search-buried_keeps m i (m.keys j)
        (λ h.
          let (o, (_, k)) = view-hit m (m.keys j) i h in
          far (
            some-injective j i
              (sym (wf.found j s') ∙ subst (λ x. search m x ≡ some i) k (wf.found i o))))
        (wf.found j s')

  buried-counted : (buried m i).count ≡ occupied_below (buried m i).states m.cap
  unfolding buried
  buried-counted =
      let (s, _) = search-holds m key at in
      let step = occupied_below-update m.states tombstone m.cap i (search-below m key wf at) in
      grind (arith, wf.counted, step, s)

  pub buried-IsWellFormed : IsWellFormed (buried m i)
  unfolding buried
  buried-IsWellFormed = record {
    log_cap = wf.log_cap;
    power = wf.power;
    hashed = λ j s. wf.hashed j ((buried-occupied m i j s).1);
    found = λ j s. buried-found j s;
    counted = buried-counted;
  }
