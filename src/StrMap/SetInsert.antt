-- ===== src/StrMap/SetInsert.antt =====
-- What `strset_add` of native/src/strmap.py promises for a set that nothing was deleted from.
use nathra.Common.{◌^◌, ◌≤◌, ◌≡◌, ◌≢◌, sym, ◌∙◌, none, some, if◌then◌else◌}
use mathlib.Core.Option.{none-ne-some}
use nathra.Wire.Bytes.{Bytes}
use nathra.StrMap.Hash.{str_eq}
use nathra.StrMap.Invariant.{IsWellFormed}
use nathra.StrMap.Entry.{strmap_has-entry}
use nathra.StrMap.Set.{StrSet, strset_new, strset_add, strset_has}
use nathra.StrMap.SetLaws.{as_map, strset_delete-as_map}
use nathra.StrMap.SetAdd.{IsClean, member}
use nathra.StrMap.SetGrow.{allocated-IsClean}
use nathra.StrMap.SetRoom.{strset_add-IsInserted, strset_add-ends}

pub strset_new-IsClean : IsClean (strset_new 16)
unfolding strset_new
strset_new-IsClean = allocated-IsClean 4

strset_has-member :
    (s : StrSet) (key : Bytes) → IsWellFormed (as_map s) → strset_has s key ≡ member s key
unfolding member
strset_has-member s key wf = (strset_delete-as_map s key).0 ∙ strmap_has-entry (as_map s) key wf

-- On a well-formed set without tombstones, with a capacity of at most 2 ^ 28, strset_add always ends
-- with a set: no product of 32-bit integers overflows, and the insertions that _strset_grow makes do
-- not grow the table again.
pub strset_add-succeeds :
    (s : StrSet) (key : Bytes) → IsClean s → s.cap ≤ 2 ^ 28 → strset_add s key ≢ none
strset_add-succeeds s key c small h =
    let (t, e) = strset_add-ends s key c.well_formed small in none-ne-some t (sym h ∙ e)

-- strset_add keeps a set well formed and without tombstones, also when it grows the table.
pub strset_add-IsClean :
    (s : StrSet) (key : Bytes) {s' : StrSet} → IsClean s → strset_add s key ≡ some s' → IsClean s'
strset_add-IsClean s key c h = let r = strset_add-IsInserted s key c h in r.clean

-- After strset_add on a well-formed set without tombstones, strset_has says 1 for the key that was
-- added and what it said before for every other key, whether or not the table grew.
pub strset_has-add :
    (s : StrSet) (key : Bytes) {s' : StrSet}
    → IsClean s
    → strset_add s key ≡ some s'
    → (key' : Bytes) → strset_has s' key' ≡ (if str_eq key key' then 1 else strset_has s key')
strset_has-add s key {s'} c h key' =
    let r = strset_add-IsInserted s key c h in
    rw (strset_has-member s' key' r.clean.well_formed, strset_has-member s key' c.well_formed)
      (r.members key')
