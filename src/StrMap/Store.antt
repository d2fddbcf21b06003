-- ===== src/StrMap/Store.antt =====
-- `strmap_set` in native/src/strmap.py after the test of the load: what the write changes.
use nathra.Common.{ℕ, ◌<◌, ◌≡◌, ◌≢◌, sym, ap, subst, ◌∙◌, ◌⊎◌, inl, inr, none, some, arith}
use mathlib.Core.Option.{some-injective}
use native.Mathlib.Decide.{ℕ_discrete}
use nathra.Wire.Bytes.{Bytes}
use nathra.StrMap.Hash.{str_hash}
use nathra.StrMap.Probe.{occupied, update, hit, other, deleted}
use nathra.StrMap.Loops.{
  probe-frame, probe-find_slot, find_slot-probe, find_slot-usable, find_slot-below,
}
use nathra.StrMap.Table.{StrMap, view, mask, start, strmap_find_slot, write_slot}
use nathra.StrMap.View.{
  view-exclusive, view-write_elsewhere, view-write_hit, view-write_other, update_here,
  update_elsewhere,
}
use nathra.StrMap.Invariant.{
  IsWellFormed, search, search-holds, mask-below, occupied_below, occupied_below-update,
}

module _ (m : StrMap) (key : Bytes) (value : ℕ) {i : ℕ} (at : strmap_find_slot m key ≡ some i) where
  slot-usable : view m key i ≢ other
  unfolding strmap_find_slot
  slot-usable = find_slot-usable (view m key) (mask m) m.cap (start m key) at

  pub slot-below : IsWellFormed m → i < m.cap
  unfolding strmap_find_slot
  slot-below wf =
      find_slot-below (view m key) (mask m) m.cap (mask-below m wf) m.cap (start m key)
        (mask-below m wf (str_hash key)) at

  same_slot_or :
      (key' : Bytes) (j : ℕ) → (j ≡ i) ⊎ (view (write_slot m i key value) key' j ≡ view m key' j)
  same_slot_or key' j = elim (ℕ_discrete j i) [
    | yes e ↦ inl e
    | no ne ↦ inr (view-write_elsewhere m i key value key' j ne)
  ]

  pub search-write_self : search (write_slot m i key value) key ≡ some i
  unfolding search write_slot strmap_find_slot
  search-write_self =
      probe-find_slot (view m key) (view (write_slot m i key value) key) (mask m) m.cap
        (start m key) (same_slot_or key) (view-write_hit m i key value) at

  -- To another key, the slot holds a different key, before and after.
  other_key_at :
      (key' : Bytes) (j : ℕ)
      → key ≢ key'
      → (view (write_slot m i key value) key' j ≡ view m key' j)
        ⊎ ((view m key' j ≢ hit)
            × ((view (write_slot m i key value) key' j ≡ other)
                ⊎ (view (write_slot m i key value) key' j ≡ deleted)))
  other_key_at key' j ne = elim (same_slot_or key' j) [
    | inr e ↦ inl e
    | inl e ↦ inr (
      (λ h.
          ne
            (sym (view-exclusive m key key' i slot-usable (subst (λ x. view m key' x ≡ hit) e h)))),
      inl (
          subst (λ x. view (write_slot m i key value) key' x ≡ other) (sym e)
            (view-write_other m i key value key' ne)),
    )
  ]

  pub search-write_keeps :
      (key' : Bytes) {j : ℕ}
      → key ≢ key'
      → search m key' ≡ some j
      → search (write_slot m i key value) key' ≡ some j
  unfolding search write_slot
  search-write_keeps key' ne h =
      probe-frame (view m key') (view (write_slot m i key value) key') (mask m) m.cap (start m key')
        (λ j. other_key_at key' j ne) h

  -- A slot that is occupied after the write is the written one or was occupied before.
  written_or_kept :
      (j : ℕ)
      → (write_slot m i key value).states j ≡ occupied
      → ((j ≡ i) × ((write_slot m i key value).keys j ≡ key))
        ⊎ ((j ≢ i) × ((m.states j ≡ occupied) × ((write_slot m i key value).keys j ≡ m.keys j)))
  unfolding write_slot
  written_or_kept j s = elim (ℕ_discrete j i) [
    | yes e ↦ inl (e, subst (λ x. update m.keys i key x ≡ key) (sym e) (update_here m.keys i key))
    | no ne ↦ inr (
      ne,
      (sym (update_elsewhere m.states i occupied j ne) ∙ s, update_elsewhere m.keys i key j ne),
    )
  ]

  -- Nothing else turns up.
  pub search-write_only :
      (key' : Bytes) {j : ℕ}
      → IsWellFormed m
      → key ≢ key'
      → search (write_slot m i key value) key' ≡ some j
      → (j ≢ i) × (search m key' ≡ some j)
  search-write_only key' {j} wf ne h =
      let (s, k) = search-holds (write_slot m i key value) key' h in
      elim (written_or_kept j s) [
        | inl (_, e) ↦ absurd (ne (sym e ∙ k))
        | inr (far, (s', e)) ↦ (far, subst (λ x. search m x ≡ some j) (sym e ∙ k) (wf.found j s'))
      ]

  -- A slot with the key itself would have been found.
  kept-distinct : (j : ℕ) → IsWellFormed m → j ≢ i → m.states j ≡ occupied → key ≢ m.keys j
  unfolding search strmap_find_slot
  kept-distinct j wf far s e =
      let here : search m key ≡ some j = subst (λ x. search m x ≡ some j) (sym e) (wf.found j s) in
      let again = find_slot-probe (view m key) (mask m) m.cap (start m key) none here in
      far (some-injective j i (sym again ∙ at))

  write-found :
      (j : ℕ)
      → IsWellFormed m
      → (write_slot m i key value).states j ≡ occupied
      → search (write_slot m i key value) ((write_slot m i key value).keys j) ≡ some j
  write-found j wf s = elim (written_or_kept j s) [
    | inl (here, e) ↦
        subst (λ x. search (write_slot m i key value) x ≡ some j) (sym e)
          (search-write_self ∙ ap (λ x. some x) (sym here))
    | inr (far, (s', e)) ↦
        subst (λ x. search (write_slot m i key value) x ≡ some j) (sym e)
          (search-write_keeps (m.keys j) (kept-distinct j wf far s') (wf.found j s'))
  ]

  write-hashed :
      (j : ℕ)
      → IsWellFormed m
      → (write_slot m i key value).states j ≡ occupied
      → (write_slot m i key value).hashes j ≡ str_hash ((write_slot m i key value).keys j)
  unfolding write_slot update
  write-hashed j wf s = grind (arith, wf.hashed j)

  write-counted :
      IsWellFormed m
      → (write_slot m i key value).count ≡ occupied_below (write_slot m i key value).states m.cap
  unfolding write_slot
  write-counted wf =
      grind (arith, wf.counted, occupied_below-update m.states occupied m.cap i (slot-below wf))

  pub write-IsWellFormed : IsWellFormed m → IsWellFormed (write_slot m i key value)
  unfolding write_slot
  write-IsWellFormed wf = record {
    log_cap = wf.log_cap;
    power = wf.power;
    hashed = λ j s. write-hashed j wf s;
    found = λ j s. write-found j wf s;
    counted = write-counted wf;
  }
