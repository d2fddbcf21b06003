-- ===== src/StrMap/SetLaws.antt =====
-- What the operations of `StrSet` in native/src/strmap.py promise. A set is read as a map whose
-- values are all `NULL`.
use nathra.Common.{ℕ, ◌≡◌, refl, Option, none, some}
use nathra.Wire.Bytes.{Bytes}
use nathra.StrMap.Table.{StrMap, null, view, delete_slot, strmap_has, strmap_delete}
use nathra.StrMap.Set.{StrSet, set_view, delete_key, strset_has, strset_delete}
use nathra.StrMap.Locate.{
  locate, locate_key, strmap_has-locate, strmap_delete-locate, strset_has-locate,
  strset_delete-locate,
}

unfoldable pub as_map : StrSet → StrMap
as_map s = record {
  keys = s.keys;
  values = λ _. null;
  states = s.states;
  hashes = s.hashes;
  count = s.count;
  cap = s.cap;
}

locate_key-as_map : (s : StrSet) (key : Bytes) → locate_key s key ≡ locate (as_map s) key
unfolding locate locate_key as_map view set_view
locate_key-as_map s key = refl

delete_key-as_map : (s : StrSet) (i : ℕ) → as_map (delete_key s i) ≡ delete_slot (as_map s) i
unfolding as_map delete_key delete_slot
delete_key-as_map s i = refl

deleted-as_map :
    (s : StrSet) (o : Option ℕ)
    → ((elim o as (λ _. ℕ × StrSet) [ none ↦ (0, s) | some i ↦ (1, delete_key s i) ]).0
        ≡ (elim o as (λ _. ℕ × StrMap) [
          | none ↦ (0, as_map s)
          | some i ↦ (1, delete_slot (as_map s) i)
        ]).0)
      × (as_map (elim o as (λ _. ℕ × StrSet) [ none ↦ (0, s) | some i ↦ (1, delete_key s i) ]).1
          ≡ (elim o as (λ _. ℕ × StrMap) [
            | none ↦ (0, as_map s)
            | some i ↦ (1, delete_slot (as_map s) i)
          ]).1)
deleted-as_map s none = (refl, refl)
deleted-as_map s (some i) = (refl, delete_key-as_map s i)

-- strset_has returns what strmap_has returns on the map with the same keys; strset_delete returns
-- what strmap_delete returns there, and leaves the set of the map that strmap_delete leaves.
pub strset_delete-as_map :
    (s : StrSet) (key : Bytes)
    → (strset_has s key ≡ strmap_has (as_map s) key)
      × (((strset_delete s key).0 ≡ (strmap_delete (as_map s) key).0)
          × (as_map (strset_delete s key).1 ≡ (strmap_delete (as_map s) key).1))
strset_delete-as_map s key =
    rw
      (
        strset_has-locate s key,
        strmap_has-locate (as_map s) key,
        strset_delete-locate s key,
        strmap_delete-locate (as_map s) key,
        locate_key-as_map s key,
      )
      (refl, deleted-as_map s (locate (as_map s) key))
