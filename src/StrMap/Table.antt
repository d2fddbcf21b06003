-- ===== src/StrMap/Table.antt =====
-- native/src/strmap.py, `StrMap`. A value is an address, and `NULL` is 0; a key is its bytes. What
-- `alloc` returns is uninitialised there and blank here: the loops read nothing of a free slot but
-- its state. `none` stands for an access at index -1, for a 32-bit product that overflows, or for
-- fuel that is spent.
use nathra.Common.{
  ℕ, zero, suc, ◌+◌, ◌-◌, Bool, true, false, Option, none, some, [], ltb, leb, ◌==◌, if◌then◌else◌,
}
use Prim.Native.Nat.{bit_and}
use mathlib.Core.Option.{bind}
use nathra.Wire.Bytes.{Bytes}
use nathra.StrMap.Hash.{str_hash}
use nathra.StrMap.Machine.{times}
use nathra.StrMap.Probe.{
  SlotState, empty, occupied, tombstone, Array, update, Probe, inspect, find_slot, free, deleted,
  hit, other,
}

pub record StrMap : Type 0 where
  pub keys : Array Bytes
  pub values : Array ℕ
  pub states : Array SlotState
  pub hashes : Array ℕ
  pub count : ℕ
  pub cap : ℕ

abbrev pub null : ℕ
null = 0

abbrev pub is_occupied : SlotState → Bool
is_occupied occupied = true
is_occupied _ = false

-- Four arrays of `cap` slots, all of them `EMPTY`.
unfoldable pub allocated : ℕ → StrMap
allocated cap = record {
  keys = λ _. [];
  values = λ _. null;
  states = λ _. empty;
  hashes = λ _. 0;
  count = 0;
  cap = cap;
}

unfoldable pub strmap_new : ℕ → StrMap
strmap_new initial_cap = allocated (if ltb 16 initial_cap then initial_cap else 16)

-- The arrays are `NULL` and no index is below the capacity.
unfoldable pub strmap_free : StrMap → StrMap
strmap_free m = allocated 0

-- What a probe for the key finds at each slot, the mask and the first index.
unfoldable pub view : StrMap → Bytes → Array Probe
view m key = inspect m.keys m.states m.hashes key (str_hash key)

abbrev pub mask : StrMap → ℕ
mask m = m.cap - 1

abbrev pub start : StrMap → Bytes → ℕ
start m key = bit_and (str_hash key) (mask m)

unfoldable pub strmap_find_slot : StrMap → Bytes → Option ℕ
strmap_find_slot m key = find_slot (view m key) (mask m) m.cap (start m key) none

unfoldable pub write_slot : StrMap → ℕ → Bytes → ℕ → StrMap
write_slot m idx key value = record {
  keys = update m.keys idx key;
  values = update m.values idx value;
  states = update m.states idx occupied;
  hashes = update m.hashes idx (str_hash key);
  count = if is_occupied (m.states idx) then m.count else m.count + 1;
  cap = m.cap;
}

-- `strmap_set` after the test of the load.
unfoldable pub store : StrMap → Bytes → ℕ → Option StrMap
store m key value = bind (strmap_find_slot m key) λ idx. some (write_slot m idx key value)

-- The loop of `_strmap_grow` over the first n old slots, in order.
unfoldable pub rehash : (StrMap → Bytes → ℕ → Option StrMap) → StrMap → ℕ → StrMap → Option StrMap
rehash set old zero m = some m
rehash set old (suc n) m =
    bind (rehash set old n m)
      λ m'. if is_occupied (old.states n) then set m' (old.keys n) (old.values n) else some m'

unfoldable pub strmap_grow : (StrMap → Bytes → ℕ → Option StrMap) → StrMap → Option StrMap
strmap_grow set m = bind (times m.cap 2) λ new_cap. rehash set m m.cap (allocated new_cap)

-- `strmap_set` and `_strmap_grow` call each other, to the depth of the fuel.
unfoldable pub strmap_set_within : ℕ → StrMap → Bytes → ℕ → Option StrMap
strmap_set_within zero m key value = none
strmap_set_within (suc fuel) m key value = bind (times m.count 4) λ load.
    bind (times m.cap 3) λ limit.
      bind (if leb limit load then strmap_grow (strmap_set_within fuel) m else some m)
        λ grown. store grown key value

-- A set that grows the table, and the sets that fill the new one.
unfoldable pub strmap_set : StrMap → Bytes → ℕ → Option StrMap
strmap_set = strmap_set_within 2

-- The loop of `strmap_get`.
unfoldable pub get_loop : Array Probe → Array ℕ → ℕ → ℕ → ℕ → ℕ
get_loop p values mask zero idx = null
get_loop p values mask (suc n) idx =
    let rest = get_loop p values mask n (bit_and (idx + 1) mask) in
    elim (p idx) [ free ↦ null | hit ↦ values idx | deleted ↦ rest | other ↦ rest ]

unfoldable pub strmap_get : StrMap → Bytes → ℕ
strmap_get m key =
    if m.count == 0 then null else get_loop (view m key) m.values (mask m) m.cap (start m key)

-- The loop of `strmap_has`.
unfoldable pub has_loop : Array Probe → ℕ → ℕ → ℕ → ℕ
has_loop p mask zero idx = 0
has_loop p mask (suc n) idx =
    let rest = has_loop p mask n (bit_and (idx + 1) mask) in
    elim (p idx) [ free ↦ 0 | hit ↦ 1 | deleted ↦ rest | other ↦ rest ]

unfoldable pub strmap_has : StrMap → Bytes → ℕ
strmap_has m key = if m.count == 0 then 0 else has_loop (view m key) (mask m) m.cap (start m key)

unfoldable pub delete_slot : StrMap → ℕ → StrMap
delete_slot m idx = record m { states = update m.states idx tombstone; count = m.count - 1 }

-- The loop of `strmap_delete`.
unfoldable pub delete_loop : StrMap → Array Probe → ℕ → ℕ → ℕ → ℕ × StrMap
delete_loop m p mask zero idx = (0, m)
delete_loop m p mask (suc n) idx =
    let rest = delete_loop m p mask n (bit_and (idx + 1) mask) in
    elim (p idx) [ free ↦ (0, m) | hit ↦ (1, delete_slot m idx) | deleted ↦ rest | other ↦ rest ]

unfoldable pub strmap_delete : StrMap → Bytes → ℕ × StrMap
strmap_delete m key =
    if m.count == 0 then (0, m) else delete_loop m (view m key) (mask m) m.cap (start m key)
