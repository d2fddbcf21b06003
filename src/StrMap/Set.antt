-- ===== src/StrMap/Set.antt =====
-- native/src/strmap.py, `StrSet`: the table of `StrMap` without values.
use nathra.Common.{ℕ, zero, suc, ◌+◌, ◌-◌, Option, none, some, [], ltb, leb, ◌==◌, if◌then◌else◌}
use Prim.Native.Nat.{bit_and}
use mathlib.Core.Option.{bind}
use nathra.Wire.Bytes.{Bytes}
use nathra.StrMap.Hash.{str_hash}
use nathra.StrMap.Machine.{times}
use nathra.StrMap.Probe.{
  SlotState, empty, occupied, tombstone, Array, update, Probe, free, deleted, hit, other, inspect,
}
use nathra.StrMap.Table.{is_occupied}

pub record StrSet : Type 0 where
  pub keys : Array Bytes
  pub states : Array SlotState
  pub hashes : Array ℕ
  pub count : ℕ
  pub cap : ℕ

unfoldable pub allocated_set : ℕ → StrSet
allocated_set cap = record {
  keys = λ _. [];
  states = λ _. empty;
  hashes = λ _. 0;
  count = 0;
  cap = cap;
}

unfoldable pub strset_new : ℕ → StrSet
strset_new initial_cap = allocated_set (if ltb 16 initial_cap then initial_cap else 16)

unfoldable pub strset_free : StrSet → StrSet
strset_free s = allocated_set 0

unfoldable pub set_view : StrSet → Bytes → Array Probe
set_view s key = inspect s.keys s.states s.hashes key (str_hash key)

-- How the loop of `strset_add` ends: at a slot to write, at the key, or after the last probe.
pub data Placement : Type 0 where
  place : ℕ → Placement
  present : Placement
  no_slot : Placement

unfoldable pub add_slot : Array Probe → ℕ → ℕ → ℕ → Placement
add_slot p mask zero idx = no_slot
add_slot p mask (suc n) idx =
    let rest = add_slot p mask n (bit_and (idx + 1) mask) in
    elim (p idx) [ free ↦ place idx | deleted ↦ place idx | hit ↦ present | other ↦ rest ]

unfoldable pub write_key : StrSet → ℕ → Bytes → StrSet
write_key s idx key = record {
  keys = update s.keys idx key;
  states = update s.states idx occupied;
  hashes = update s.hashes idx (str_hash key);
  count = s.count + 1;
  cap = s.cap;
}

-- `strset_add` after the test of the load.
unfoldable pub add_key : StrSet → Bytes → StrSet
add_key s key =
    elim (add_slot (set_view s key) (s.cap - 1) s.cap (bit_and (str_hash key) (s.cap - 1))) [
      | place idx ↦ write_key s idx key
      | present ↦ s
      | no_slot ↦ s
    ]

-- The loop of `_strset_grow` over the first n old slots, in order.
unfoldable pub rehash_set : (StrSet → Bytes → Option StrSet) → StrSet → ℕ → StrSet → Option StrSet
rehash_set add old zero s = some s
rehash_set add old (suc n) s =
    bind (rehash_set add old n s)
      λ s'. if is_occupied (old.states n) then add s' (old.keys n) else some s'

unfoldable pub strset_grow : (StrSet → Bytes → Option StrSet) → StrSet → Option StrSet
strset_grow add s = bind (times s.cap 2) λ new_cap. rehash_set add s s.cap (allocated_set new_cap)

-- `strset_add` and `_strset_grow` call each other, to the depth of the fuel.
unfoldable pub strset_add_within : ℕ → StrSet → Bytes → Option StrSet
strset_add_within zero s key = none
strset_add_within (suc fuel) s key = bind (times s.count 4) λ load. bind (times s.cap 3) λ limit.
    bind (if leb limit load then strset_grow (strset_add_within fuel) s else some s)
      λ grown. some (add_key grown key)

unfoldable pub strset_add : StrSet → Bytes → Option StrSet
strset_add = strset_add_within 2

-- The loop of `strset_has`.
unfoldable pub has_key_loop : Array Probe → ℕ → ℕ → ℕ → ℕ
has_key_loop p mask zero idx = 0
has_key_loop p mask (suc n) idx =
    let rest = has_key_loop p mask n (bit_and (idx + 1) mask) in
    elim (p idx) [ free ↦ 0 | hit ↦ 1 | deleted ↦ rest | other ↦ rest ]

unfoldable pub strset_has : StrSet → Bytes → ℕ
strset_has s key =
    if s.count == 0
    then 0
    else has_key_loop (set_view s key) (s.cap - 1) s.cap (bit_and (str_hash key) (s.cap - 1))

unfoldable pub delete_key : StrSet → ℕ → StrSet
delete_key s idx = record s { states = update s.states idx tombstone; count = s.count - 1 }

-- The loop of `strset_delete`.
unfoldable pub delete_key_loop : StrSet → Array Probe → ℕ → ℕ → ℕ → ℕ × StrSet
delete_key_loop s p mask zero idx = (0, s)
delete_key_loop s p mask (suc n) idx =
    let rest = delete_key_loop s p mask n (bit_and (idx + 1) mask) in
    elim (p idx) [ free ↦ (0, s) | hit ↦ (1, delete_key s idx) | deleted ↦ rest | other ↦ rest ]

unfoldable pub strset_delete : StrSet → Bytes → ℕ × StrSet
strset_delete s key =
    if s.count == 0
    then (0, s)
    else delete_key_loop s (set_view s key) (s.cap - 1) s.cap (bit_and (str_hash key) (s.cap - 1))
