-- ===== src/StrMap/View.antt =====
-- What `inspect` says of the slots of a `StrMap`, and of the slots after a write or a deletion.
use nathra.Common.{ℕ, ◌≡◌, ◌≢◌, sym, ◌∙◌, ==_iff, arith}
use nathra.Wire.Bytes.{Bytes}
use nathra.StrMap.Hash.{str_hash, str_eq_refl, str_eq_sound}
use nathra.StrMap.Probe.{occupied, update, hit, other, inspect}
use nathra.StrMap.Table.{StrMap, view, write_slot}

pub update_here {ℓ} : {A : Type ℓ} (a : ℕ → A) (i : ℕ) (x : A) → update a i x i ≡ x
unfolding update
update_here a i x = ground arith

pub update_elsewhere {ℓ} :
    {A : Type ℓ} (a : ℕ → A) (i : ℕ) (x : A) (j : ℕ) → j ≢ i → update a i x j ≡ a j
unfolding update
update_elsewhere a i x j ne = ground arith

pub view-hit :
    (m : StrMap) (key : Bytes) (j : ℕ)
    → view m key j ≡ hit
    → (m.states j ≡ occupied) × ((m.hashes j ≡ str_hash key) × (m.keys j ≡ key))
unfolding view inspect
view-hit m key j h = grind (arith, ==_iff (m.hashes j) (str_hash key), str_eq_sound (m.keys j) key)

pub hit-view :
    (m : StrMap) (key : Bytes) (j : ℕ)
    → m.states j ≡ occupied
    → m.hashes j ≡ str_hash key
    → m.keys j ≡ key
    → view m key j ≡ hit
unfolding view inspect
hit-view m key j s h k = grind (arith, ==_iff (m.hashes j) (str_hash key), str_eq_refl key)

pub other-view :
    (m : StrMap) (key : Bytes) (j : ℕ)
    → m.states j ≡ occupied
    → m.keys j ≢ key
    → view m key j ≡ other
unfolding view inspect
other-view m key j s ne = grind (arith, str_eq_sound (m.keys j) key)

-- A slot that is not occupied by another key holds no key but this one.
pub view-exclusive :
    (m : StrMap) (key key' : Bytes) (j : ℕ)
    → view m key j ≢ other
    → view m key' j ≡ hit
    → key' ≡ key
unfolding view inspect
view-exclusive m key key' j ne h = grind (arith, view-hit m key' j h, str_eq_sound (m.keys j) key)

module _ (m : StrMap) (i : ℕ) (key : Bytes) (value : ℕ) where
  pub view-write_elsewhere :
      (key' : Bytes) (j : ℕ) → j ≢ i → view (write_slot m i key value) key' j ≡ view m key' j
  unfolding view inspect write_slot
  view-write_elsewhere key' j ne = grind (
    arith,
    update_elsewhere m.states i occupied j ne,
    update_elsewhere m.hashes i (str_hash key) j ne,
    update_elsewhere m.keys i key j ne,
  )

  pub view-write_hit : view (write_slot m i key value) key i ≡ hit
  unfolding write_slot
  view-write_hit =
      hit-view (write_slot m i key value) key i (update_here m.states i occupied)
        (update_here m.hashes i (str_hash key)) (update_here m.keys i key)

  pub view-write_other :
      (key' : Bytes) → key ≢ key' → view (write_slot m i key value) key' i ≡ other
  unfolding write_slot
  view-write_other key' ne =
      other-view (write_slot m i key value) key' i (update_here m.states i occupied)
        (λ e. ne (sym (update_here m.keys i key) ∙ e))
